-- ===== src/Message/Requester/Answers.antt =====
-- source/message/Requester.cpp: no request is left without an answer.
use zatestil.Prelude.{==_iff, not, ℕ, ◌<◌, ◌≡◌, refl, ◌∙◌, ap, none, some, ◌∷◌, arith, ok, Bytes}
use zatestil.Serde.{Yas, from_json}
use zatestil.Message.{Message, response, make_response}
use zatestil.Message.Requester.{
  Requester, set, await_resume, on_timer, on_message, deliver, timed_out, System, Reach,
}
use zatestil.Message.Requester.Invariant.{is_waiting-none, settled, set-first, set-again}
use zatestil.Message.Requester.Safety.{Reach-Inv, on_message-Inv}

-- What an answer `m` to the object at `p` does: `resume` is called on the coroutine that awaits it, with `m` as the
-- response that the object keeps from then on, its id is given up, and the coroutine hangs in `await_resume`.
pub record Answered (s after : Requester) (p : ℕ) (m : Message) : Type 0 where
  pub awaiting : ℕ
  pub handle : (s.objects p).handle ≡ some awaiting
  pub resumed : after.resumed ≡ (awaiting, m) ∷ s.resumed
  pub kept : (after.objects p).response ≡ some m
  pub given_up : after.timed_messages m.id ≡ none
  pub hangs : await_resume p after ≡ none

deliver-known :
    (s : Requester) (m : Message) (p : ℕ)
    → m.type_of ≡ response
    → s.timed_messages m.id ≡ some p
    → deliver m m.type_of s ≡ set p m s
deliver-known s m p is_response at =
    let looked_up : deliver m response s ≡ set p m s = rw (at, deliver) refl in
    ap (λ t. deliver m t s) is_response ∙ looked_up

module _ {yas : Yas Message} {s : System yas} (reached : Reach yas s) where
  set_answers :
      (p : ℕ) (m : Message)
      → p < s.requester.count
      → (s.requester.objects p).response ≡ none
      → (after : Requester) × (set p m s.requester ≡ some after) × Answered s.requester after p m
  unfolding await_resume
  set_answers p m small e =
      let (h, f, _) = (Reach-Inv yas reached).awaited p small in
      (
        settled s.requester p m h,
        set-first s.requester p h m e f (
            (Reach-Inv yas reached).held p small
            ∙ ap not (is_waiting-none (s.requester.objects p) e)),
        record {
          awaiting = h;
          handle = f;
          resumed = refl;
          kept = ground arith;
          given_up = ground arith;
          hangs = rw ((==_iff p p).1 refl) refl;
        },
      )

  -- In every reachable state, a text that decodes to a response with the id of a request that has
  -- none yet resumes the coroutine of that request with it.
  pub on_message_answers :
      (p : ℕ) (raw : Bytes) (m : Message)
      → p < s.requester.count
      → (s.requester.objects p).response ≡ none
      → from_json yas raw ≡ ok m
      → m.type_of ≡ response
      → m.id ≡ (s.requester.objects p).message.id
      → (after : Requester) × (on_message yas raw s.requester ≡ some after)
        × Answered s.requester after p m
  unfolding on_message
  on_message_answers p raw m small e decodes is_response same =
      let (after, f, good) = set_answers p m small e in
      let at : s.requester.timed_messages m.id ≡ some p =
        ap s.requester.timed_messages same ∙ (Reach-Inv yas reached).waiting p small e in
      (after, rw (decodes, on_message) (deliver-known s.requester m p is_response at ∙ f), good)

  -- In every reachable state, the timer of a request that has no response yet resumes its coroutine,
  -- with a response of its own id that says that it timed out.
  pub on_timer_answers :
      (p : ℕ)
      → p < s.requester.count
      → (s.requester.objects p).response ≡ none
      → (after : Requester) × (on_timer p s.requester ≡ some after)
        × Answered s.requester after p (make_response (s.requester.objects p).message timed_out)
  unfolding on_timer
  on_timer_answers p small e =
      set_answers p (make_response (s.requester.objects p).message timed_out) small e

  -- In every reachable state, a late timer, of a request that has its response, changes nothing.
  pub on_timer_late :
      (p : ℕ) (m : Message)
      → (s.requester.objects p).response ≡ some m
      → on_timer p s.requester ≡ some s.requester
  unfolding on_timer
  on_timer_late p m e = set-again s.requester p _ m e

  -- In every reachable state, no text that arrives makes the handler resume a null handle.
  pub on_message_safe :
      (raw : Bytes) → (after : Requester) × (on_message yas raw s.requester ≡ some after)
  on_message_safe raw =
      let (after, e, _) = on_message-Inv (Reach-Inv yas reached) yas raw in (after, e)
