-- ===== src/Message/Tests.antt =====
-- include/message and source/message: a run of a requester, and the theorems at its states.
use zatestil.Prelude.{
  ◌≡◌, ◌≢◌, refl, true, false, none, some, [], ◌∷◌, arith, Attempt, ok, throw, Bytes, All,
}
use zatestil.Serde.{Yas, from_json}
use zatestil.Message.{Message, request, response, start, make_response}
use zatestil.Message.Requester.{
  Requester, System, init, asks, receives, Reach, later, ask, on_message, set, resume,
  request_message, await_suspend, store,
}
use zatestil.Message.Requester.Invariant.{IsOnce, IsAnswer}
use zatestil.Message.Requester.Safety.{resumed-IsOnce}
use zatestil.Prelude.{ℕ, false}
use zatestil.Message.Requester.Deadlock.{never_delivered}
use zatestil.Message.Requester.{await_resume, destroy_awaiter, destroy_timed_message}
use zatestil.Message.Requester.Invariant.{is_waiting}
use zatestil.Message.Requester.Timers.{timers_lem}

abbrev pub one_message : Message
one_message = record {
  type_of = request;
  id = 4;
  status = record { is_ok = false; message = "" };
  action = start;
  text = [];
}

abbrev pub answer : Message
answer = make_response one_message (record { is_ok = true; message = "" })

abbrev read_answer : Bytes → Attempt Message
read_answer [] = throw "no message"
read_answer (b ∷ bs) = ok answer

-- Every text but the empty one stands for the answer.
abbrev pub answers : Yas Message
answers = record {
  initial = one_message;
  save_binary = λ _. 1 ∷ [];
  load_binary = λ _ b. read_answer b;
  save_json = λ _. 1 ∷ [];
  load_json = λ _ b. read_answer b;
}

-- One coroutine has asked.
abbrev asked : System answers
asked = record { requester = ask answers one_message 0 (init answers).requester; coroutines = 1 }

asked-Reach : Reach answers asked
asked-Reach = later {t = asked} zatestil.Message.Requester.start (asks one_message)

-- Its answer has come.
abbrev answered : System answers
answered = record asked {
  requester = record asked.requester {
    timed_messages = store asked.requester.timed_messages 4 none;
    objects = store asked.requester.objects 0 (record {
      message = one_message;
      handle = some 0;
      response = some answer;
      timer = false;
      locked = true;
    });
    resumed = (0, answer) ∷ [];
  };
}

answered-Reach : Reach answers answered
unfolding on_message set resume ask request_message await_suspend from_json make_response
answered-Reach = later asked-Reach (receives {after = answered.requester} (1 ∷ []) refl)

resumed-IsOnce_example :
    IsOnce answered.requester.resumed × All (IsAnswer answered.requester) answered.requester.resumed
resumed-IsOnce_example = resumed-IsOnce answers answered-Reach

timers_lem_example :
    ((answered.requester.objects 0).timer ≡ is_waiting (answered.requester.objects 0))
    × (is_waiting (answered.requester.objects 0) ≡ false
        → destroy_awaiter 0 answered.requester ≡ answered.requester)
    × (((destroy_timed_message 0 answered.requester).objects 0).timer ≡ false)
    × ((q : ℕ)
        → q ≢ 0
        → (destroy_timed_message 0 answered.requester).objects q ≡ answered.requester.objects q)
unfolding ask request_message await_suspend
timers_lem_example = timers_lem answered-Reach 0 (omega arith)

-- A request that waits is resumed, and its coroutine hangs.
asked_hangs :
    (h : ℕ) × (after : Requester) × (set 0 answer asked.requester ≡ some after)
    × (after.resumed ≡ (h, answer) ∷ asked.requester.resumed)
    × (await_resume 0 after ≡ none)
unfolding ask request_message await_suspend
asked_hangs = (never_delivered asked-Reach 0 (omega arith)).1 answer refl
