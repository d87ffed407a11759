-- ===== src/Threads/Shutdown.antt =====
-- source/threads/ThreadPool.cpp: the threads go on until they are joined.
use mathlib.Core.Path.{subst}
use zatestil.Prelude.{
  ℕ, zero, suc, ◌+◌, ◌-◌, ◌*◌, ◌≤◌, ◌<◌, ◌≡◌, ◌≢◌, refl, sym, List, [], ◌∷◌, ◌++◌, arith, length,
  length-append, All, take, total, total-middle,
}
use zatestil.Threads.{
  Phase, created, waiting, running, ended, Owner, starting, at_barrier, constructed, destroyed,
  joining, Pool, Step, emplaces, owner_arrives, owner_passes, thread_arrives, thread_passes,
  thread_ends, destroys, joins, clears, Reach, start, later,
}
use zatestil.Threads.Barrier.{Inv, Reach-Inv, owner_arrived, length-middle, total-snoc}

-- The steps that a thread, and the owner, still have to make.
abbrev pub thread_work : Phase → ℕ
thread_work created = 3
thread_work waiting = 2
thread_work running = 1
thread_work ended = 0

abbrev pub owner_work : ℕ → Owner → ℕ
owner_work n starting = n + 5
owner_work n at_barrier = n + 4
owner_work n constructed = n + 3
owner_work n (joining k) = (n - k) + 1
owner_work n destroyed = 0

abbrev pub work : ℕ → Pool → ℕ
work n s = 4 * (n - length s.threads) + total thread_work s.threads + owner_work n s.owner

-- Each step is one step less to make.
pub step-works : {n : ℕ} {s t : Pool} → Inv n s → Step n s t → work n t < work n s
step-works {n = n} inv (emplaces threads k small) =
    omega
      (arith, small, length-append threads (created ∷ []), total-snoc thread_work threads created)
step-works inv (owner_arrives threads k all) = omega arith
step-works inv (owner_passes threads k gate) = omega arith
step-works inv (thread_arrives before after owner k) = omega (
  arith,
  length-middle before created waiting after,
  total-middle thread_work before created after,
  total-middle thread_work before waiting after,
)
step-works inv (thread_passes before after owner k gate) = omega (
  arith,
  length-middle before waiting running after,
  total-middle thread_work before waiting after,
  total-middle thread_work before running after,
)
step-works inv (thread_ends before after owner k) = omega (
  arith,
  length-middle before running ended after,
  total-middle thread_work before running after,
  total-middle thread_work before ended after,
)
step-works inv (destroys threads k) = omega arith
step-works inv (joins before after k) =
    omega (arith, inv.full (omega arith), length-append before (ended ∷ after))
step-works inv (clears threads k) = omega arith

-- The threads that the owner has joined have ended.
abbrev pub Joined : Owner → List Phase → Type 0
Joined starting threads = Unit
Joined at_barrier threads = Unit
Joined constructed threads = Unit
Joined (joining k) threads = (k ≤ length threads) × All (λ p. p ≡ ended) (take k threads)
Joined destroyed threads = All (λ p. p ≡ ended) threads

module _ (x y : Phase) (after : List Phase) (going : x ≢ ended) where
  take-keeps :
      (k : ℕ) (before : List Phase)
      → All (λ p. p ≡ ended) (take k (before ++ x ∷ after))
      → All (λ p. p ≡ ended) (take k (before ++ y ∷ after))
  take-keeps zero [] a = tt
  take-keeps (suc k) [] a = absurd (going a.0)
  take-keeps zero (b ∷ before) a = tt
  take-keeps (suc k) (b ∷ before) a = (a.0, take-keeps k before a.1)

  all-keeps :
      (before : List Phase)
      → All (λ p. p ≡ ended) (before ++ x ∷ after)
      → All (λ p. p ≡ ended) (before ++ y ∷ after)
  all-keeps [] a = absurd (going a.0)
  all-keeps (b ∷ before) a = (a.0, all-keeps before a.1)

  Joined-keeps :
      (before : List Phase) (owner : Owner)
      → Joined owner (before ++ x ∷ after)
      → Joined owner (before ++ y ∷ after)
  Joined-keeps before starting a = tt
  Joined-keeps before at_barrier a = tt
  Joined-keeps before constructed a = tt
  Joined-keeps before (joining k) a =
      (omega (arith, a.0, length-middle before x y after), take-keeps k before a.1)
  Joined-keeps before destroyed a = all-keeps before a

take-all :
    (threads : List Phase)
    → All (λ p. p ≡ ended) (take (length threads) threads)
    → All (λ p. p ≡ ended) threads
take-all [] a = tt
take-all (t ∷ threads) a = (a.0, take-all threads a.1)

take-one-more :
    (before after : List Phase)
    → All (λ p. p ≡ ended) (take (length before) (before ++ ended ∷ after))
    → All (λ p. p ≡ ended) (take (suc (length before)) (before ++ ended ∷ after))
take-one-more [] after a = (refl, tt)
take-one-more (b ∷ before) after a = (a.0, take-one-more before after a.1)

Step-Joined :
    {n : ℕ} {s t : Pool} → Step n s t → Joined s.owner s.threads → Joined t.owner t.threads
Step-Joined (emplaces threads k small) j = tt
Step-Joined (owner_arrives threads k all) j = tt
Step-Joined (owner_passes threads k gate) j = tt
Step-Joined (thread_arrives before after owner k) j =
    Joined-keeps created waiting after (λ e. cc e) before owner j
Step-Joined (thread_passes before after owner k gate) j =
    Joined-keeps waiting running after (λ e. cc e) before owner j
Step-Joined (thread_ends before after owner k) j =
    Joined-keeps running ended after (λ e. cc e) before owner j
Step-Joined (destroys threads k) j = (omega arith, tt)
Step-Joined (joins before after k) j =
    (omega (arith, length-append before (ended ∷ after)), take-one-more before after j.1)
Step-Joined (clears threads k) j = take-all threads j.1

pub Reach-Joined : {n : ℕ} {s : Pool} → Reach n s → Joined s.owner s.threads
Reach-Joined start = tt
Reach-Joined (later r step) = Step-Joined step (Reach-Joined r)

-- When the destructor is over, every thread of the pool has ended, and there were `n` of them.
pub destroyed_after_all :
    {n : ℕ} {s : Pool}
    → Reach n s
    → s.owner ≡ destroyed
    → All (λ p. p ≡ ended) s.threads × (length s.threads ≡ n)
destroyed_after_all {s = s} r e = (
  subst (λ o. Joined o s.threads) e (Reach-Joined r),
  (Reach-Inv r).full (subst (λ o. 0 < owner_arrived o) (sym e) (omega arith)),
)
