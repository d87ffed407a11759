-- ===== src/Threads/Barrier.antt =====
-- source/threads/ThreadPool.cpp: the barrier of the constructor.
use zatestil.Prelude.{
  ℕ, suc, ◌+◌, ◌≤◌, ◌<◌, ◌≡◌, ◌⊎◌, inl, inr, refl, ap, List, [], ◌∷◌, ◌++◌, arith, length,
  length-append, All, total, total-middle,
}
use zatestil.Threads.{
  Phase, created, waiting, running, ended, Owner, starting, at_barrier, constructed, destroyed,
  joining, Pool, expected, Step, emplaces, owner_arrives, owner_passes, thread_arrives,
  thread_passes, thread_ends, destroys, joins, clears, Reach, start, later, thread_count,
}

-- Whether a thread has arrived at the barrier, and whether it is past it.
abbrev pub has_arrived : Phase → ℕ
has_arrived created = 0
has_arrived waiting = 1
has_arrived running = 1
has_arrived ended = 1

abbrev pub has_passed : Phase → ℕ
has_passed created = 0
has_passed waiting = 0
has_passed running = 1
has_passed ended = 1

abbrev pub owner_arrived : Owner → ℕ
owner_arrived starting = 0
owner_arrived at_barrier = 1
owner_arrived constructed = 1
owner_arrived (joining k) = 1
owner_arrived destroyed = 1

abbrev pub owner_passed : Owner → ℕ
owner_passed starting = 0
owner_passed at_barrier = 0
owner_passed constructed = 1
owner_passed (joining k) = 1
owner_passed destroyed = 1

pub record Inv (n : ℕ) (s : Pool) : Type 0 where
  pub fits : length s.threads ≤ n
  pub full : 0 < owner_arrived s.owner → length s.threads ≡ n
  pub counted : s.arrived ≡ total has_arrived s.threads + owner_arrived s.owner
  pub opened : 0 < total has_passed s.threads + owner_passed s.owner → s.arrived ≡ n + 1

pub length-middle :
    {A : Type 0} (before : List A) (x y : A) (after : List A)
    → length (before ++ x ∷ after) ≡ length (before ++ y ∷ after)
length-middle [] x y after = refl
length-middle (b ∷ before) x y after = ap suc (length-middle before x y after)

pub total-snoc :
    (w : Phase → ℕ) (threads : List Phase) (x : Phase)
    → total w (threads ++ x ∷ []) ≡ total w threads + w x
total-snoc w [] x = omega arith
total-snoc w (t ∷ threads) x = omega (arith, total-snoc w threads x)

pub total-bound : (threads : List Phase) → total has_arrived threads ≤ length threads
total-bound [] = omega arith
total-bound (created ∷ threads) = omega (arith, total-bound threads)
total-bound (waiting ∷ threads) = omega (arith, total-bound threads)
total-bound (running ∷ threads) = omega (arith, total-bound threads)
total-bound (ended ∷ threads) = omega (arith, total-bound threads)

owner-bound : (owner : Owner) → owner_arrived owner ≤ 1
owner-bound starting = omega arith
owner-bound at_barrier = omega arith
owner-bound constructed = omega arith
owner-bound (joining k) = omega arith
owner-bound destroyed = omega arith

bound-middle :
    (before : List Phase) (x : Phase) (after : List Phase)
    → total has_arrived (before ++ after) + 1 ≤ length (before ++ x ∷ after)
bound-middle before x after = omega (
  arith,
  total-bound (before ++ after),
  length-append before (x ∷ after),
  length-append before after,
)

module _ {n : ℕ} (before after : List Phase) where
  arrive-Inv :
      (owner : Owner) (k : ℕ)
      → Inv n (record { threads = before ++ created ∷ after; owner = owner; arrived = k })
      → Inv n (record { threads = before ++ waiting ∷ after; owner = owner; arrived = k + 1 })
  arrive-Inv owner k inv =
      let same = length-middle before created waiting after in
      let earlier = total-middle has_arrived before created after in
      let now = total-middle has_arrived before waiting after in
      let passed_then = total-middle has_passed before created after in
      let passed_now = total-middle has_passed before waiting after in
      let bound = bound-middle before created after in
      record {
        fits = omega (arith, same, inv.fits);
        full = λ p. omega (arith, same, inv.full p);
        counted = omega (arith, earlier, now, inv.counted);
        opened = λ p. absurd (
            omega (
              arith,
              inv.opened (omega (arith, p, passed_then, passed_now)),
              inv.counted,
              inv.fits,
              earlier,
              bound,
              owner-bound owner,
            ));
      }

  -- A thread that has arrived goes on.
  advance-Inv :
      (x y : Phase) (owner : Owner) (k : ℕ)
      → has_arrived x ≡ 1
      → has_arrived y ≡ 1
      → (has_passed x ≡ 1) ⊎ (k ≡ n + 1)
      → Inv n (record { threads = before ++ x ∷ after; owner = owner; arrived = k })
      → Inv n (record { threads = before ++ y ∷ after; owner = owner; arrived = k })
  advance-Inv x y owner k ax ay gate inv =
      let same = length-middle before x y after in
      record {
        fits = omega (arith, same, inv.fits);
        full = λ p. omega (arith, same, inv.full p);
        counted = omega (
          arith,
          ax,
          ay,
          total-middle has_arrived before x after,
          total-middle has_arrived before y after,
          inv.counted,
        );
        opened = λ p. elim gate [
          | inr e ↦ e
          | inl e ↦ inv.opened (omega (arith, e, total-middle has_passed before x after))
        ];
      }

-- A pool whose owner has arrived is full, and before the owner arrives the barrier is shut.
shut :
    {n : ℕ} {threads : List Phase} {k : ℕ}
    → Inv n (record { threads = threads; owner = starting; arrived = k })
    → k ≤ n
shut {threads = threads} inv = omega (arith, inv.counted, inv.fits, total-bound threads)

pub Step-Inv : {n : ℕ} {s t : Pool} → Step n s t → Inv n s → Inv n t
unfolding expected
Step-Inv {n = n} (emplaces threads k small) inv = record {
  fits = omega (arith, length-append threads (created ∷ []), small);
  full = λ p. absurd (omega (arith, p));
  counted = omega (arith, inv.counted, total-snoc has_arrived threads created);
  opened = λ p. inv.opened (omega (arith, p, total-snoc has_passed threads created));
}
Step-Inv (owner_arrives threads k all) inv = record {
  fits = inv.fits;
  full = λ p. all;
  counted = omega (arith, inv.counted);
  opened = λ p. absurd (omega (arith, inv.opened (omega (arith, p)), shut inv));
}
Step-Inv (owner_passes threads k gate) inv = record {
  fits = inv.fits;
  full = inv.full;
  counted = inv.counted;
  opened = λ p. gate;
}
Step-Inv (thread_arrives before after owner k) inv = arrive-Inv before after owner k inv
Step-Inv (thread_passes before after owner k gate) inv =
    advance-Inv before after waiting running owner k refl refl (inr gate) inv
Step-Inv (thread_ends before after owner k) inv =
    advance-Inv before after running ended owner k refl refl (inl refl) inv
Step-Inv (destroys threads k) inv = record {
  fits = inv.fits;
  full = inv.full;
  counted = inv.counted;
  opened = inv.opened;
}
Step-Inv (joins before after k) inv = record {
  fits = inv.fits;
  full = inv.full;
  counted = inv.counted;
  opened = inv.opened;
}
Step-Inv (clears threads k) inv = record {
  fits = inv.fits;
  full = inv.full;
  counted = inv.counted;
  opened = inv.opened;
}

pub Reach-Inv : {n : ℕ} {s : Pool} → Reach n s → Inv n s
Reach-Inv start = record {
  fits = omega arith;
  full = λ p. absurd (omega (arith, p));
  counted = refl;
  opened = λ p. absurd (omega (arith, p));
}
Reach-Inv (later r step) = Step-Inv step (Reach-Inv r)

all-arrived :
    (threads : List Phase)
    → length threads ≤ total has_arrived threads
    → All (λ p. has_arrived p ≡ 1) threads
all-arrived [] e = tt
all-arrived (created ∷ threads) e = absurd (omega (arith, e, total-bound threads))
all-arrived (waiting ∷ threads) e = (refl, all-arrived threads (omega (arith, e)))
all-arrived (running ∷ threads) e = (refl, all-arrived threads (omega (arith, e)))
all-arrived (ended ∷ threads) e = (refl, all-arrived threads (omega (arith, e)))

all_arrived_lem :
    {n : ℕ} {s : Pool}
    → Reach n s
    → 0 < total has_passed s.threads + owner_passed s.owner
    → (length s.threads ≡ n) × All (λ p. has_arrived p ≡ 1) s.threads × (owner_arrived s.owner ≡ 1)
all_arrived_lem {n = n} {s = s} r passed =
    let inv = Reach-Inv r in
    let bound = total-bound s.threads in
    let gate = inv.opened passed in
    let few = owner-bound s.owner in
    (
      omega (arith, gate, inv.counted, inv.fits, bound, few),
      all-arrived s.threads (omega (arith, gate, inv.counted, inv.fits, bound, few)),
      omega (arith, gate, inv.counted, inv.fits, bound, few),
    )

pub thread_count-bound :
    (requested hardware : ℕ)
    → (requested ≤ thread_count requested hardware) × (hardware ≤ thread_count requested hardware)
unfolding thread_count
thread_count-bound requested hardware = ground arith

-- In every order of the threads' steps, once a thread of the pool runs the handlers of the context, or the
-- constructor has returned, there are no fewer threads than were asked for and than the hardware has,
-- every thread of the pool has arrived at the barrier, and so has the owner.
pub opens_after_all :
    (requested hardware : ℕ) {s : Pool}
    → Reach (thread_count requested hardware) s
    → 0 < total has_passed s.threads + owner_passed s.owner
    → (requested ≤ length s.threads)
      × (hardware ≤ length s.threads)
      × All (λ p. has_arrived p ≡ 1) s.threads
      × (owner_arrived s.owner ≡ 1)
opens_after_all requested hardware r passed =
    let (size, threads, owner) = all_arrived_lem r passed in
    let (asked, has) = thread_count-bound requested hardware in
    (omega (arith, size, asked), omega (arith, size, has), threads, owner)
