-- ===== src/Threads/Progress.antt =====
-- source/threads/ThreadPool.cpp: a pool never gets stuck.
use mathlib.Core.Path.{subst}
use zatestil.Prelude.{
  ℕ, zero, suc, ◌+◌, ◌≤◌, ◌<◌, ◌≡◌, ◌≢◌, ◌⊎◌, inl, inr, refl, sym, ap, List, [], ◌∷◌, ◌++◌, arith,
  length, total,
}
use zatestil.Threads.{
  Phase, created, waiting, running, ended, Owner, starting, at_barrier, constructed, destroyed,
  joining, Pool, expected, Step, emplaces, owner_arrives, owner_passes, thread_arrives,
  thread_passes, thread_ends, destroys, joins, clears, Reach,
}
use zatestil.Threads.Barrier.{Inv, Reach-Inv, has_arrived, total-bound}
use zatestil.Threads.Shutdown.{work, step-works, Reach-Joined}

-- The thread at a place.
record Place (threads : List Phase) (k : ℕ) : Type 0 where
  before : List Phase
  phase : Phase
  after : List Phase
  split : before ++ phase ∷ after ≡ threads
  sized : length before ≡ k

place : (threads : List Phase) (k : ℕ) → k < length threads → Place threads k
place [] k small = absurd (omega (arith, small))
place (t ∷ threads) zero small = record {
  before = [];
  phase = t;
  after = threads;
  split = refl;
  sized = refl;
}
place (t ∷ threads) (suc k) small =
    let p = place threads k (omega (arith, small)) in
    record {
      before = t ∷ p.before;
      phase = p.phase;
      after = p.after;
      split = ap (◌∷◌ t) p.split;
      sized = ap suc p.sized;
    }

-- While a thread is still to arrive, there is one.
record Late (threads : List Phase) : Type 0 where
  before : List Phase
  after : List Phase
  split : before ++ created ∷ after ≡ threads

Late-∷ : (t : Phase) {threads : List Phase} → Late threads → Late (t ∷ threads)
Late-∷ t l = record { before = t ∷ l.before; after = l.after; split = ap (◌∷◌ t) l.split }

late : (threads : List Phase) → total has_arrived threads < length threads → Late threads
late [] small = absurd (omega (arith, small))
late (created ∷ threads) small = record { before = []; after = threads; split = refl }
late (waiting ∷ threads) small = Late-∷ waiting (late threads (omega (arith, small)))
late (running ∷ threads) small = Late-∷ running (late threads (omega (arith, small)))
late (ended ∷ threads) small = Late-∷ ended (late threads (omega (arith, small)))

less_or_same : (a b : ℕ) → a ≤ b → (a < b) ⊎ (a ≡ b)
less_or_same a b small = ground arith

abbrev Next : ℕ → Pool → Type 0
Next n s = (t : Pool) × Step n s t

module _ {n : ℕ} where
  -- The owner waits for a thread that has not ended: that thread has a step.
  thread-Next :
      (before : List Phase) (phase : Phase) (after : List Phase) (j k : ℕ)
      → length before ≡ j
      → k ≡ n + 1
      → Next n (record { threads = before ++ phase ∷ after; owner = joining j; arrived = k })
  unfolding expected
  thread-Next before created after j k e gate = (_, thread_arrives before after (joining j) k)
  thread-Next before waiting after j k e gate = (_, thread_passes before after (joining j) k gate)
  thread-Next before running after j k e gate = (_, thread_ends before after (joining j) k)
  thread-Next before ended after j k e gate =
      subst
        (λ i. Next n (record { threads = before ++ ended ∷ after; owner = joining i; arrived = k }))
        e (_, joins before after k)

  starting-Next :
      (threads : List Phase) (k : ℕ)
      → length threads ≤ n
      → Next n (record { threads = threads; owner = starting; arrived = k })
  starting-Next threads k small = elim (less_or_same (length threads) n small) [
    | inl less ↦ (_, emplaces threads k less)
    | inr same ↦ (_, owner_arrives threads k same)
  ]

  barrier-Next :
      (threads : List Phase) (k : ℕ)
      → Inv n (record { threads = threads; owner = at_barrier; arrived = k })
      → Next n (record { threads = threads; owner = at_barrier; arrived = k })
  unfolding expected
  barrier-Next threads k inv =
      elim (less_or_same (total has_arrived threads) (length threads) (total-bound threads)) [
        | inl less ↦
            let l = late threads less in
            subst (λ ts. Next n (record { threads = ts; owner = at_barrier; arrived = k })) l.split
              (_, thread_arrives l.before l.after at_barrier k)
        | inr same ↦
            (_, owner_passes threads k (omega (arith, same, inv.counted, inv.full (omega arith))))
      ]

  joining-Next :
      (threads : List Phase) (j k : ℕ)
      → Inv n (record { threads = threads; owner = joining j; arrived = k })
      → j ≤ length threads
      → Next n (record { threads = threads; owner = joining j; arrived = k })
  joining-Next threads j k inv small = elim (less_or_same j (length threads) small) [
    | inl less ↦
        let p = place threads j less in
        subst (λ ts. Next n (record { threads = ts; owner = joining j; arrived = k })) p.split
          (thread-Next p.before p.phase p.after j k p.sized (inv.opened (omega arith)))
    | inr same ↦
        subst (λ i. Next n (record { threads = threads; owner = joining i; arrived = k }))
          (sym same) (_, clears threads k)
  ]

  pool-Next :
      (threads : List Phase) (owner : Owner) (k : ℕ)
      → Reach n (record { threads = threads; owner = owner; arrived = k })
      → owner ≢ destroyed
      → Next n (record { threads = threads; owner = owner; arrived = k })
  pool-Next threads starting k r live = starting-Next threads k (Reach-Inv r).fits
  pool-Next threads at_barrier k r live = barrier-Next threads k (Reach-Inv r)
  pool-Next threads constructed k r live = (_, destroys threads k)
  pool-Next threads (joining j) k r live = joining-Next threads j k (Reach-Inv r) (Reach-Joined r).0
  pool-Next threads destroyed k r live = absurd (live refl)

  -- No order of the steps gets stuck or goes on for ever, given that `run` ends in each thread: as long as
  -- the pool is not destroyed there is a step, and each step leaves fewer steps to make, of which
  -- `work` is a bound.
  pub goes_on :
      {s : Pool}
      → Reach n s
      → (s.owner ≢ destroyed → (t : Pool) × Step n s t)
        × ((t : Pool) → Step n s t → work n t < work n s)
  goes_on {s = s} r = (
    λ live. pool-Next s.threads s.owner s.arrived r live,
    λ t step. step-works (Reach-Inv r) step,
  )
