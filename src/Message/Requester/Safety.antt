-- ===== src/Message/Requester/Safety.antt =====
-- source/message/Requester.cpp: what holds of a requester in every order of the events.
use mathlib.Core.Path.{subst}
use zatestil.Prelude.{
  not, ap, ◌∙◌, ℕ, ◌+◌, ◌<◌, true, false, ◌≡◌, refl, sym, inl, inr, none, some, [], ◌∷◌, ◌++◌,
  arith, ◌==◌, Attempt-cases, Bytes, All, All-map, Option-cases, Bool-cases,
}
use zatestil.Serde.{Yas, from_json, to_json}
use zatestil.Message.{Message, MessageType, request, response, notify, make_response}
use zatestil.Message.Requester.{
  Requester, store, set, request_message, timed_out, on_timer, on_message, await_suspend, deliver,
  ask, System, init, Step, asks, receives, fires, Reach, start, later,
}
use zatestil.Message.Requester.Invariant.{
  IsAnswer, IsOnce, Inv, is_waiting-none, settled, set-first, set-again, settled-Inv,
}

-- The states that `ask` may leave: the object was there, or it is new.
abbrev pub rejoined : Yas Message → Requester → ℕ → ℕ → Requester
rejoined yas s p h = record s {
  objects = store s.objects p (record (s.objects p) { handle = some h; timer = true });
  sent = s.sent ++ yas.save_json (s.objects p).message ∷ [];
}

abbrev pub created : Message → Requester → Requester
created message s = record s {
  objects =
      store s.objects s.count (record {
        message = message;
        handle = none;
        timer = false;
        response = none;
        locked = false;
      });
  count = s.count + 1;
  timed_messages = store s.timed_messages message.id (some s.count);
}

pub ask-new :
    (yas : Yas Message) (s : Requester) (message : Message) (h : ℕ)
    → s.timed_messages message.id ≡ none
    → ask yas message h s ≡ rejoined yas (created message s) s.count h
unfolding ask request_message await_suspend to_json
ask-new yas s message h e = rw (e, ask, request_message) refl

ask-known :
    (yas : Yas Message) (s : Requester) (message : Message) (h p : ℕ)
    → s.timed_messages message.id ≡ some p
    → ask yas message h s ≡ rejoined yas s p h
unfolding ask request_message await_suspend to_json
ask-known yas s message h p e = rw (e, ask, request_message) refl

module _ {s : Requester} {n : ℕ} (inv : Inv s n) where
  open inv use {awaited, distinct, listed, waiting, timed, held, answered, once}

  rejoined-Inv :
      (yas : Yas Message) (p : ℕ)
      → p < s.count
      → (s.objects p).response ≡ none
      → Inv (rejoined yas s p n) (n + 1)
  rejoined-Inv yas p small none_yet = record {
    awaited = λ q l. elim (Bool-cases (q == p)) [
      | inl e ↦ (n, ground arith, omega arith)
      | inr e ↦ let (g, f, small_g) = awaited q l in (g, ground arith, omega arith)
    ];
    distinct = λ q o g l k a b. ground (arith, distinct q o g, awaited q, awaited o);
    listed = λ id q e. ground (arith, listed id q);
    waiting = λ q l e. ground (arith, waiting q);
    timed = λ q l. ground (arith, timed q);
    held = λ q l. ground (arith, held q);
    answered =
        All-map (IsAnswer s) (IsAnswer (rejoined yas s p n))
          (λ q (o, os, f, e, i, t). (o, os, ground arith, ground arith, ground arith, t)) s.resumed
          answered;
    once = once;
  }

  created-Inv :
      (yas : Yas Message) (message : Message)
      → s.timed_messages message.id ≡ none
      → Inv (rejoined yas (created message s) s.count n) (n + 1)
  created-Inv yas message free = record {
    awaited = λ q l. elim (Bool-cases (q == s.count)) [
      | inl e ↦ (n, ground arith, omega arith)
      | inr e ↦ let (g, f, small_g) = awaited q (ground arith) in (g, ground arith, omega arith)
    ];
    distinct = λ q o g l k a b. ground (arith, distinct q o g, awaited q, awaited o);
    listed = λ id q e. ground (arith, listed id q);
    waiting = λ q l e. ground (arith, waiting q);
    timed = λ q l. ground (arith, timed q);
    held = λ q l. ground (arith, held q);
    answered =
        All-map (IsAnswer s) (IsAnswer (rejoined yas (created message s) s.count n))
          (λ q (o, os, f, e, i, t). (o, omega arith, ground arith, ground arith, ground arith, t))
          s.resumed answered;
    once = once;
  }

  ask-Inv : (yas : Yas Message) (message : Message) → Inv (ask yas message n s) (n + 1)
  ask-Inv yas message = elim (Option-cases (s.timed_messages message.id)) [
    | inl e ↦
        subst (λ r. Inv r (n + 1)) (sym (ask-new yas s message n e)) (created-Inv yas message e)
    | inr (p, e) ↦
        let (small, same, none_yet) = listed message.id p e in
        subst (λ r. Inv r (n + 1)) (sym (ask-known yas s message n p e))
          (rejoined-Inv yas p small none_yet)
  ]

  -- A message for an object is never the resumption of no coroutine, and keeps the invariant.
  pub set-Inv :
      (p : ℕ) (m : Message)
      → p < s.count
      → m.id ≡ (s.objects p).message.id
      → m.type_of ≡ response
      → (after : Requester) × (set p m s ≡ some after) × Inv after n
  set-Inv p m small same_id is_response = elim (Option-cases (s.objects p).response) [
    | inl e ↦
        let (h, f, _) = awaited p small in
        (
          settled s p m h,
          set-first s p h m e f (held p small ∙ ap not (is_waiting-none (s.objects p) e)),
          settled-Inv inv p h m e small f same_id is_response,
        )
    | inr (w, e) ↦ (s, set-again s p m w e, inv)
  ]

  pub on_timer-Inv :
      (p : ℕ) → p < s.count → (after : Requester) × (on_timer p s ≡ some after) × Inv after n
  unfolding on_timer make_response
  on_timer-Inv p small = set-Inv p (make_response (s.objects p).message timed_out) small refl refl

  deliver-Inv :
      (m : Message) → (after : Requester) × (deliver m m.type_of s ≡ some after) × Inv after n
  deliver-Inv m = deliver_as m.type_of refl
    where
      deliver_as :
          (t : MessageType)
          → m.type_of ≡ t
          → (after : Requester) × (deliver m t s ≡ some after) × Inv after n
      deliver_as request e = (s, refl, inv)
      deliver_as notify e = (s, refl, inv)
      deliver_as response e = elim (Option-cases (s.timed_messages m.id)) [
        | inl f ↦ (s, rw (f, deliver) refl, inv)
        | inr (p, f) ↦
            let (small, same, _) = listed m.id p f in
            let (after, g, good) = set-Inv p m small (sym same) e in
            (after, rw (f, deliver) g, good)
      ]

  pub on_message-Inv :
      (yas : Yas Message) (raw : Bytes)
      → (after : Requester) × (on_message yas raw s ≡ some after) × Inv after n
  unfolding on_message
  on_message-Inv yas raw = elim (Attempt-cases (from_json yas raw)) [
    | inl (m, e) ↦ rw (e, on_message) (deliver-Inv m)
    | inr (t, e) ↦ rw (e, on_message) (s, refl, inv)
  ]

module _ (yas : Yas Message) where
  pub Step-Inv :
      {s t : System yas}
      → Step yas s t
      → Inv s.requester s.coroutines
      → Inv t.requester t.coroutines
  Step-Inv (asks message) inv = ask-Inv inv yas message
  Step-Inv {s = s} (receives {after = now} raw e) inv =
      let (after, f, good) = on_message-Inv inv yas raw in
      let same : after ≡ now = cc (f, e) in subst (λ r. Inv r s.coroutines) same good
  Step-Inv {s = s} (fires {after = now} p small e) inv =
      let (after, f, good) = on_timer-Inv inv p small in
      let same : after ≡ now = cc (f, e) in subst (λ r. Inv r s.coroutines) same good

  Inv-init : Inv (init yas).requester 0
  Inv-init = record {
    awaited = λ p l. absurd (omega arith);
    distinct = λ p q h l k. absurd (omega arith);
    listed = λ id p e. cc;
    waiting = λ p l. absurd (omega arith);
    timed = λ p l. absurd (omega arith);
    held = λ p l. absurd (omega arith);
    answered = tt;
    once = tt;
  }

  pub Reach-Inv : {s : System yas} → Reach yas s → Inv s.requester s.coroutines
  Reach-Inv start = Inv-init
  Reach-Inv (later r st) = Step-Inv st (Reach-Inv r)

  -- In every order of requests, texts that arrive and timers that fire, also late ones, each
  -- coroutine is resumed at most once. It gets a message of the type Response with the id of the
  -- request that it awaits.
  pub resumed-IsOnce :
      {s : System yas}
      → Reach yas s
      → IsOnce s.requester.resumed × All (IsAnswer s.requester) s.requester.resumed
  resumed-IsOnce r = ((Reach-Inv r).once, (Reach-Inv r).answered)
