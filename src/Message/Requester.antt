-- ===== src/Message/Requester.antt =====
-- include/message/Requester.hpp and source/message/Requester.cpp: requests that wait for a response
-- or for their timer. A pointer to a `TimedMessage` is its place in `objects`; a coroutine is a
-- number; the session and `asio::deadline_timer` are seen by what is sent and by whether a wait is
-- pending.
pub mod Invariant
pub mod Safety
pub mod Answers
pub mod Timers
pub mod Deadlock
use zatestil.Prelude.{
  ℕ, ◌+◌, ◌<◌, ◌≡◌, Bool, true, false, Option, none, some, List, [], ◌∷◌, ◌++◌, ◌==◌, if◌then◌else◌,
  ok, throw, Bytes,
}
use zatestil.Serde.{Yas, from_json, to_json}
use zatestil.Message.{Message, MessageType, Status, request, response, notify, make_response}

pub record TimedMessage : Type 0 where
  pub message : Message
  pub handle : Option ℕ  -- m_handle
  pub timer : Bool  -- a wait of m_timer is pending
  pub response : Option Message
  pub locked : Bool  -- a thread holds the mutex of m_response, and never gives it back

pub record Requester : Type 0 where
  pub objects : ℕ → TimedMessage
  pub count : ℕ
  pub timed_messages : ℕ → Option ℕ  -- m_timedMessages
  pub sent : List Bytes  -- what the session was given to send
  pub resumed : List (ℕ × Message)  -- the calls of resume, each with the response at that time

abbrev pub store {ℓ} : {A : Type ℓ} → (ℕ → A) → ℕ → A → ℕ → A
store f p a = λ q. if q == p then a else f q

-- The call of `m_handle.resume()`: to resume no coroutine is undefined behaviour, which is `none`.
unfoldable pub resume : Option ℕ → Message → Requester → Option Requester
resume none message s = none
resume (some h) message s = some (record s { resumed = (h, message) ∷ s.resumed })

-- `TimedMessage::set`: only the first message counts. `set` holds the mutex of `m_response` while the coroutine
-- runs, which first asks for that mutex (`await_resume`): the thread hangs there, and the mutex is held from then on.
-- A thread that finds it held waits for ever.
unfoldable pub set : ℕ → Message → Requester → Option Requester
unfolding resume
set p message s = if (s.objects p).locked then some s else elim (s.objects p).response [
  | some _ ↦ some s
  | none ↦ resume (s.objects p).handle message (record s {
    timed_messages = store s.timed_messages message.id none;
    objects =
        store s.objects p
          (record (s.objects p) { response = some message; timer = false; locked = true });
  })
]

-- `Awaiter::await_resume`, in the coroutine that was resumed. `none`: it waits for the mutex, or there is no value.
unfoldable pub await_resume : ℕ → Requester → Option Message
await_resume p s = if (s.objects p).locked then none else (s.objects p).response

-- `Requester::request`: the pointer that is returned, and the state. If the id is there already,
-- `emplace` keeps the object that it has.
unfoldable pub request_message : Message → Requester → ℕ × Requester
request_message message s = elim (s.timed_messages message.id) [
  | some p ↦ (p, s)
  | none ↦ (
    s.count,
    record s {
      objects = store s.objects s.count (record {
        message = message;
        handle = none;
        timer = false;
        response = none;
        locked = false;
      });
      count = s.count + 1;
      timed_messages = store s.timed_messages message.id (some s.count);
    },
  )
]

-- The handler that the constructor sets on the session: it drops what is no message, no response, or
-- has an id that nobody waits for.
abbrev pub deliver : Message → MessageType → Requester → Option Requester
deliver message request s = some s
deliver message notify s = some s
deliver message response s = elim (s.timed_messages message.id) [
  | none ↦ some s
  | some p ↦ set p message s
]

abbrev pub timed_out : Status
timed_out = record { is_ok = false; message = "timed out" }

-- The handler of the timer, when `ec` is not `operation_aborted`.
unfoldable pub on_timer : ℕ → Requester → Option Requester
unfolding set make_response
on_timer p s = set p (make_response (s.objects p).message timed_out) s

-- `Awaiter::~Awaiter`, which cancels the timer.
unfoldable pub destroy_awaiter : ℕ → Requester → Requester
destroy_awaiter p s = record s {
  objects = store s.objects p (record (s.objects p) { timer = false });
}

-- `TimedMessage::~TimedMessage`, when the last pointer to it goes.
unfoldable pub destroy_timed_message : ℕ → Requester → Requester
destroy_timed_message p s = record s {
  objects = store s.objects p (record (s.objects p) { timer = false; response = none });
}

module _ (yas : Yas Message) where
  unfoldable pub on_message : Bytes → Requester → Option Requester
  unfolding set from_json
  on_message raw s = elim (from_json yas raw) [
    | throw _ ↦ some s
    | ok message ↦ deliver message message.type_of s
  ]

  -- `Awaiter::await_suspend`
  unfoldable pub await_suspend : ℕ → ℕ → Requester → Requester
  unfolding to_json
  await_suspend p h s = record s {
    objects = store s.objects p (record (s.objects p) { handle = some h; timer = true });
    sent = s.sent ++ to_json yas (s.objects p).message ∷ [];
  }

  -- `co_await requester.request(message)` in the coroutine `h`.
  unfoldable pub ask : Message → ℕ → Requester → Requester
  unfolding request_message await_suspend
  ask message h s = let (p, s') = request_message message s in await_suspend p h s'

  -- A requester and the number of coroutines so far.
  pub record System : Type 0 where
    pub requester : Requester
    pub coroutines : ℕ

  abbrev pub blank_object : TimedMessage
  blank_object = record {
    message = record {
      type_of = request;
      id = 0;
      status = timed_out;
      action = zatestil.Message.start;
      text = [];
    };
    handle = none;
    timer = false;
    response = none;
    locked = false;
  }

  -- After the constructor.
  abbrev pub init : System
  init = record {
    requester = record {
      objects = λ _. blank_object;
      count = 0;
      timed_messages = λ _. none;
      sent = [];
      resumed = [];
    };
    coroutines = 0;
  }

  -- What may happen: a new coroutine asks, a text arrives, and the timer of a request fires, in any
  -- order. A timer that was cancelled may fire too, since `cancel` comes too late for a handler that
  -- is queued already.
  pub data Step (s : System) : System → Type 0 where
    asks :
        (message : Message)
        → Step s (record {
          requester = ask message s.coroutines s.requester;
          coroutines = s.coroutines + 1;
        })
    receives :
        {after : Requester} (raw : Bytes)
        → on_message raw s.requester ≡ some after
        → Step s (record s { requester = after })
    fires :
        {after : Requester} (p : ℕ)
        → p < s.requester.count
        → on_timer p s.requester ≡ some after
        → Step s (record s { requester = after })

  pub data Reach : System → Type 0 where
    start : Reach init
    later : {s t : System} → Reach s → Step s t → Reach t
