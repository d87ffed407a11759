-- ===== src/Client/Effects.antt =====
-- source/message/Requester.cpp: what a task of the context may do to a requester.
use mathlib.Core.Option.{some-injective}
use mathlib.Core.Path.{subst}
use zatestil.Prelude.{
  true, Bool-cases, ℕ, false, ◌≡◌, refl, sym, ap, ◌∙◌, ◌⊎◌, inl, inr, Option, none, some,
  Option-cases, ◌∷◌, ok, throw, Attempt-cases, Bytes,
}
use zatestil.Serde.{Yas, from_json}
use Prim.Native.String.{String}
use zatestil.Message.{Message, MessageType, request, response, notify, make_response}
use zatestil.Message.Requester.{
  Requester, store, resume, set, request_message, deliver, timed_out, on_timer, on_message,
}
use zatestil.Message.Requester.Invariant.{set-again}
use zatestil.Client.{Handler, of_requester, of_other, run_task}

-- Nothing is sent, and at most one coroutine is resumed, with a message of `P`.
pub record Effect (P : Message → Type 0) (s after : Requester) : Type 0 where
  pub sent : after.sent ≡ s.sent
  pub resumed :
      (after.resumed ≡ s.resumed)
      ⊎ ((h : ℕ) × (m : Message) × P m × (after.resumed ≡ (h, m) ∷ s.resumed))

-- What `set` does to a request without a response, but for the coroutine.
abbrev unanswered : Requester → ℕ → Message → Requester
unanswered s p m = record s {
  timed_messages = store s.timed_messages m.id none;
  objects =
      store s.objects p (record (s.objects p) { response = some m; timer = false; locked = true });
}

set-open :
    (s : Requester) (p : ℕ) (m : Message)
    → (s.objects p).locked ≡ false
    → (s.objects p).response ≡ none
    → set p m s ≡ resume (s.objects p).handle m (unanswered s p m)
unfolding set
set-open s p m l f = rw (l, set) (rw f refl)

set-locked :
    (s : Requester) (p : ℕ) (m : Message) → (s.objects p).locked ≡ true → set p m s ≡ some s
unfolding set
set-locked s p m l = rw (l, set) refl

deliver-unknown :
    (s : Requester) (m : Message) → s.timed_messages m.id ≡ none → deliver m response s ≡ some s
deliver-unknown s m f = rw (f, deliver) refl

deliver-known :
    (s : Requester) (m : Message) (p : ℕ)
    → s.timed_messages m.id ≡ some p
    → deliver m response s ≡ set p m s
deliver-known s m p f = rw (f, deliver) refl

on_message-ok :
    (yas : Yas Message) (raw : Bytes) (s : Requester) (m : Message)
    → from_json yas raw ≡ ok m
    → on_message yas raw s ≡ deliver m m.type_of s
unfolding on_message
on_message-ok yas raw s m f = rw (f, on_message) refl

on_message-throw :
    (yas : Yas Message) (raw : Bytes) (s : Requester) (t : String)
    → from_json yas raw ≡ throw t
    → on_message yas raw s ≡ some s
unfolding on_message
on_message-throw yas raw s t f = rw (f, on_message) refl

pub request_message-sent : (m : Message) (s : Requester) → (request_message m s).1.sent ≡ s.sent
unfolding request_message
request_message-sent m s = elim (Option-cases (s.timed_messages m.id)) [
  | inl f ↦ rw (f, request_message) refl
  | inr (p, f) ↦ rw (f, request_message) refl
]

pub request_message-resumed :
    (m : Message) (s : Requester) → (request_message m s).1.resumed ≡ s.resumed
unfolding request_message
request_message-resumed m s = elim (Option-cases (s.timed_messages m.id)) [
  | inl f ↦ rw (f, request_message) refl
  | inr (p, f) ↦ rw (f, request_message) refl
]

module _ (P : Message → Type 0) where
  none-Effect : (s : Requester) → Effect P s s
  none-Effect s = record { sent = refl; resumed = inl refl }

  resume-Effect :
      (h : Option ℕ) (m : Message) (s t after : Requester)
      → P m
      → t.sent ≡ s.sent
      → t.resumed ≡ s.resumed
      → resume h m t ≡ some after
      → Effect P s after
  unfolding resume
  resume-Effect none m s t after p e f g = absurd (cc g)
  resume-Effect (some h) m s t after p e f g =
      subst (Effect P s) (some-injective _ _ g)
        (record { sent = e; resumed = inr (h, m, p, ap (◌∷◌ (h, m)) f) })

  set-Effect :
      (p : ℕ) (m : Message) (s after : Requester) → P m → set p m s ≡ some after → Effect P s after
  set-Effect p m s after good e = elim (Bool-cases (s.objects p).locked) [
    | inl l ↦ subst (Effect P s) (some-injective _ _ (sym (set-locked s p m l) ∙ e)) (none-Effect s)
    | inr l ↦ elim (Option-cases (s.objects p).response) [
      | inl f ↦
          resume-Effect (s.objects p).handle m s (unanswered s p m) after good refl refl
            (sym (set-open s p m l f) ∙ e)
      | inr (w, f) ↦
          subst (Effect P s) (some-injective _ _ (sym (set-again s p m w f) ∙ e)) (none-Effect s)
    ]
  ]

  same-Effect : (s after : Requester) → some s ≡ some after → Effect P s after
  same-Effect s after e = subst (Effect P s) (some-injective _ _ e) (none-Effect s)

  deliver-Effect :
      (m : Message) (t : MessageType) (s after : Requester)
      → P m
      → deliver m t s ≡ some after
      → Effect P s after
  deliver-Effect m request s after good e = same-Effect s after e
  deliver-Effect m notify s after good e = same-Effect s after e
  deliver-Effect m response s after good e = elim (Option-cases (s.timed_messages m.id)) [
    | inl f ↦ same-Effect s after (sym (deliver-unknown s m f) ∙ e)
    | inr (p, f) ↦ set-Effect p m s after good (sym (deliver-known s m p f) ∙ e)
  ]

-- The timer of a request can resume its coroutine only with the answer that it timed out.
abbrev pub IsTimeout : Message → Type 0
IsTimeout m = (asked : Message) × (m ≡ make_response asked timed_out)

pub on_timer-Effect :
    (p : ℕ) (s after : Requester) → on_timer p s ≡ some after → Effect IsTimeout s after
unfolding on_timer
on_timer-Effect p s after e =
    set-Effect IsTimeout p (make_response (s.objects p).message timed_out) s after
      ((s.objects p).message, refl) e

-- A text can resume a coroutine only with the message that it decodes to.
abbrev pub IsRead : Yas Message → Bytes → Message → Type 0
IsRead yas raw m = from_json yas raw ≡ ok m

pub run_task-Effect :
    (yas : Yas Message) (h : Handler) (raw : Bytes) (s after : Requester)
    → run_task yas h raw s ≡ some after
    → Effect (IsRead yas raw) s after
unfolding run_task on_message
run_task-Effect yas (of_other n) raw s after e = same-Effect (IsRead yas raw) s after e
run_task-Effect yas of_requester raw s after e = elim (Attempt-cases (from_json yas raw)) [
  | inl (m, f) ↦
      deliver-Effect (IsRead yas raw) m m.type_of s after f (sym (on_message-ok yas raw s m f) ∙ e)
  | inr (t, f) ↦ same-Effect (IsRead yas raw) s after (sym (on_message-throw yas raw s t f) ∙ e)
]
