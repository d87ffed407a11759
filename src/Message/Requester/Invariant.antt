-- ===== src/Message/Requester/Invariant.antt =====
-- source/message/Requester.cpp: the invariant of a requester, and that `set` keeps it.
use zatestil.Prelude.{
  ℕ, ◌<◌, Bool, true, false, ◌≡◌, ◌≢◌, refl, none, some, List, [], ◌∷◌, arith, All, All-map, not,
  Bool-cases, inl, inr,
}
use zatestil.Message.{Message, response}
use zatestil.Message.Requester.{Requester, TimedMessage, store, resume, set}

-- What a coroutine was resumed with is the response that is kept in the object that it awaits, of
-- the type Response, and with the id of the request.
abbrev pub IsAnswer : Requester → ℕ × Message → Type 0
IsAnswer s (h, m) =
    (p : ℕ) × (p < s.count)
    × ((s.objects p).handle ≡ some h)
    × ((s.objects p).response ≡ some m)
    × (m.id ≡ (s.objects p).message.id)
    × (m.type_of ≡ response)

-- No coroutine stands twice in the list.
abbrev pub IsOnce : List (ℕ × Message) → Type 0
IsOnce [] = Unit {0}
IsOnce ((h, m) ∷ rs) = All (λ q. q.0 ≢ h) rs × IsOnce rs

abbrev pub is_waiting : TimedMessage → Bool
is_waiting t = elim t.response [ none ↦ true | some m ↦ false ]

pub is_waiting-none : (t : TimedMessage) → t.response ≡ none → is_waiting t ≡ true
is_waiting-none t e = rw e refl

pub is_waiting-some : (t : TimedMessage) (m : Message) → t.response ≡ some m → is_waiting t ≡ false
is_waiting-some t m e = rw e refl

pub record Inv (s : Requester) (n : ℕ) : Type 0 where
  pub awaited : (p : ℕ) → p < s.count → (h : ℕ) × ((s.objects p).handle ≡ some h) × (h < n)
  pub distinct :
      (p q h : ℕ)
      → p < s.count
      → q < s.count
      → (s.objects p).handle ≡ some h
      → (s.objects q).handle ≡ some h
      → p ≡ q
  pub listed :
      (id p : ℕ)
      → s.timed_messages id ≡ some p
      → (p < s.count) × ((s.objects p).message.id ≡ id) × ((s.objects p).response ≡ none)
  pub waiting :
      (p : ℕ)
      → p < s.count
      → (s.objects p).response ≡ none
      → s.timed_messages (s.objects p).message.id ≡ some p
  pub timed : (p : ℕ) → p < s.count → (s.objects p).timer ≡ is_waiting (s.objects p)
  pub held : (p : ℕ) → p < s.count → (s.objects p).locked ≡ not (is_waiting (s.objects p))
  pub answered : All (IsAnswer s) s.resumed
  pub once : IsOnce s.resumed

-- The state after `set` has resumed `h`.
abbrev pub settled : Requester → ℕ → Message → ℕ → Requester
settled s p m h = record s {
  timed_messages = store s.timed_messages m.id none;
  objects =
      store s.objects p (record (s.objects p) { response = some m; timer = false; locked = true });
  resumed = (h, m) ∷ s.resumed;
}

pub set-first :
    (s : Requester) (p h : ℕ) (m : Message)
    → (s.objects p).response ≡ none
    → (s.objects p).handle ≡ some h
    → (s.objects p).locked ≡ false
    → set p m s ≡ some (settled s p m h)
unfolding set resume
set-first s p h m e f l = rw (l, set) (rw (e, f) refl)

pub set-again :
    (s : Requester) (p : ℕ) (m w : Message) → (s.objects p).response ≡ some w → set p m s ≡ some s
unfolding set
set-again s p m w e = elim (Bool-cases (s.objects p).locked) [
  | inl l ↦ rw (l, set) refl
  | inr l ↦ rw (l, set) (rw e refl)
]

module _ {s : Requester} {n : ℕ} (inv : Inv s n) (p h : ℕ) (m : Message) where
  open inv use {awaited, distinct, listed, waiting, timed, held, answered, once}

  others_answered :
      (q : ℕ × Message)
      → (s.objects p).response ≡ none
      → IsAnswer s q
      → IsAnswer (settled s p m h) q
  others_answered q none_yet (o, small, f, e, i, t) =
      (o, small, ground arith, ground arith, ground arith, t)

  other_handle :
      (q : ℕ × Message)
      → (s.objects p).response ≡ none
      → p < s.count
      → (s.objects p).handle ≡ some h
      → IsAnswer s q
      → q.0 ≢ h
  other_handle q none_yet small f (o, os, g, e, i, t) = λ eq. ground (arith, distinct p o h)

  pub settled-Inv :
      (s.objects p).response ≡ none
      → p < s.count
      → (s.objects p).handle ≡ some h
      → m.id ≡ (s.objects p).message.id
      → m.type_of ≡ response
      → Inv (settled s p m h) n
  settled-Inv none_yet small f same_id is_response = record {
    awaited = λ q l. let (g, e, small_g) = awaited q l in (g, ground arith, small_g);
    distinct = λ q o g l k a b. ground (arith, distinct q o g);
    listed = λ id q e. ground (arith, listed id q, waiting p);
    waiting = λ q l e. ground (arith, waiting q, waiting p);
    timed = λ q l. ground (arith, timed q);
    held = λ q l. ground (arith, held q);
    answered = (
      (p, small, ground arith, ground arith, ground arith, is_response),
      All-map (IsAnswer s) (IsAnswer (settled s p m h)) (λ q. others_answered q none_yet) s.resumed
          answered,
    );
    once = (
      All-map (IsAnswer s) (λ q. q.0 ≢ h) (λ q. other_handle q none_yet small f) s.resumed answered,
      once,
    );
  }
