-- ===== src/Message/Requester/Deadlock.antt =====
-- source/message/Requester.cpp: no coroutine gets its response.
use zatestil.Prelude.{
  ◌∷◌, ==_iff, ℕ, ◌<◌, ◌≡◌, refl, ◌∙◌, ap, not, none, some, Option-cases, inl, inr,
}
use zatestil.Serde.{Yas}
use zatestil.Message.{Message}
use zatestil.Message.Requester.{Requester, set, await_resume, System, Reach}
use zatestil.Message.Requester.Invariant.{is_waiting-none, is_waiting-some, settled, set-first}
use zatestil.Message.Requester.Safety.{Reach-Inv}

pub never_delivered :
    {yas : Yas Message} {s : System yas}
    → Reach yas s
    → (p : ℕ) → p < s.requester.count
    → (await_resume p s.requester ≡ none)
      × ((m : Message)
          → (s.requester.objects p).response ≡ none
          → (h : ℕ) × (after : Requester) × (set p m s.requester ≡ some after)
            × (after.resumed ≡ (h, m) ∷ s.requester.resumed)
            × (await_resume p after ≡ none))
unfolding await_resume
never_delivered {yas = yas} {s = s} r p small =
    let inv = Reach-Inv yas r in
    (
      elim (Option-cases (s.requester.objects p).response) [
        | inl e ↦
            let free = inv.held p small ∙ ap not (is_waiting-none (s.requester.objects p) e) in
            rw free e
        | inr (m, e) ↦
            let held = inv.held p small ∙ ap not (is_waiting-some (s.requester.objects p) m e) in
            rw held refl
      ],
      λ m e.
          let (h, f, _) = inv.awaited p small in
          let free = inv.held p small ∙ ap not (is_waiting-none (s.requester.objects p) e) in
          (
            h,
            settled s.requester p m h,
            set-first s.requester p h m e f free,
            refl,
            rw ((==_iff p p).1 refl) refl,
          ),
    )
