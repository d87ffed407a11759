-- ===== src/Message/Requester/Timers.antt =====
-- source/message/Requester.cpp: the timers of requests, and the destructors that cancel them.
use zatestil.Prelude.{
  ℕ, ◌<◌, ◌≡◌, ◌≢◌, refl, sym, ap, ◌∙◌, false, ◌==◌, ==_iff, Bool-cases, inl, inr,
}
use zatestil.Serde.{Yas}
use zatestil.Message.{Message}
use zatestil.Message.Requester.{
  TimedMessage, store, destroy_awaiter, destroy_timed_message, System, Reach,
}
use zatestil.Message.Requester.Invariant.{is_waiting}
use zatestil.Message.Requester.Safety.{Reach-Inv}

store_back :
    (f : ℕ → TimedMessage) (p : ℕ) (o : TimedMessage) → o ≡ f p → (q : ℕ) → store f p o q ≡ f q
store_back f p o e q = elim (Bool-cases (q == p)) [
  | inl t ↦ rw t (e ∙ ap f (sym ((==_iff q p).0 t)))
  | inr t ↦ rw t refl
]

store_other : (f : ℕ → TimedMessage) (p q : ℕ) (o : TimedMessage) → q ≢ p → store f p o q ≡ f q
store_other f p q o other = elim (Bool-cases (q == p)) [
  | inl t ↦ absurd (other ((==_iff q p).0 t))
  | inr t ↦ rw t refl
]

-- In every reachable state, the timer of a request is pending as long as the request has no response, and only so
-- long. The destructor of an awaiter whose request has a response therefore changes nothing. The
-- destructor of a request leaves it no pending timer, and the others as they are.
pub timers_lem :
    {yas : Yas Message} {s : System yas}
    → Reach yas s
    → (p : ℕ) → p < s.requester.count
    → ((s.requester.objects p).timer ≡ is_waiting (s.requester.objects p))
      × (is_waiting (s.requester.objects p) ≡ false → destroy_awaiter p s.requester ≡ s.requester)
      × (((destroy_timed_message p s.requester).objects p).timer ≡ false)
      × ((q : ℕ) → q ≢ p → (destroy_timed_message p s.requester).objects q ≡ s.requester.objects q)
unfolding destroy_awaiter destroy_timed_message
timers_lem {yas = yas} {s = s} r p small =
    let timed = (Reach-Inv yas r).timed p small in
    (
      timed,
      λ answered i. record s.requester {
        objects = λ q.
            store_back s.requester.objects p (record (s.requester.objects p) { timer = false })
              (λ j. record (s.requester.objects p) { timer = (sym (timed ∙ answered)) j }) q i;
      },
      rw ((==_iff p p).1 refl) refl,
      λ q other. store_other s.requester.objects p q _ other,
    )
