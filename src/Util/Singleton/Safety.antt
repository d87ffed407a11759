-- ===== src/Util/Singleton/Safety.antt =====
-- include/util/Singleton.hpp: one object, whatever the threads do.
use zatestil.Prelude.{
  ℕ, ◌≤◌, ◌≡◌, refl, ◌⊎◌, inl, inr, Bool, true, false, Option, none, some, [], ◌∷◌, ◌++◌, arith,
  ◌==◌, length, Bool-cases, length-append,
}
use zatestil.Util.Singleton.{
  Shared, Pc, idle, entered, locking, locked, making, storing, unlocking, leaving, returned, Move,
  call, first_null, first_set, lock, second_null, second_set, make, store, unlock, load, again,
  update, System, init, pick, Reach, start, later,
}

-- Between the lock and the unlock.
abbrev pub holds : {A : Type 0} → Pc A → Bool
holds (locked _) = true
holds (making _) = true
holds (storing _) = true
holds unlocking = true
holds _ = false

-- The pointer is set exactly when the object is made.
abbrev pub Settled : {A : Type 0} → Shared A → Type 0
Settled s =
    ((s.pointer ≡ none) × (length s.made ≡ 0)) ⊎ ((s.pointer ≡ some 0) × (length s.made ≡ 1))

abbrev pub HasObject : {A : Type 0} → Shared A → Type 0
HasObject s = (s.pointer ≡ some 0) × (length s.made ≡ 1)

-- What the place of a thread says about shared memory.
abbrev pub IsFresh : {A : Type 0} → Shared A → Pc A → Type 0
IsFresh s (locked _) = Settled s
IsFresh s (making _) = (s.pointer ≡ none) × (length s.made ≡ 0)
IsFresh s (storing p) = (p ≡ 0) × (s.pointer ≡ none) × (length s.made ≡ 1)
IsFresh s unlocking = HasObject s
IsFresh s leaving = HasObject s
IsFresh s (returned r) = (r ≡ some 0) × HasObject s
IsFresh s _ = Unit

pub record Inv {A : Type 0} (s : Shared A) (pc : ℕ → Pc A) : Type 0 where
  pub exclusive : (i j : ℕ) → holds (pc i) ≡ true → holds (pc j) ≡ true → i ≡ j
  pub guarded : (i : ℕ) → holds (pc i) ≡ true → s.mutex ≡ true
  pub free : s.mutex ≡ false → Settled s
  pub set_once : (p : ℕ) → s.pointer ≡ some p → HasObject s
  pub fresh : (i : ℕ) → IsFresh s (pc i)
  pub once : length s.made ≤ 1

Inv-init : {A : Type 0} → Inv {A = A} (init {A = A}).shared (init {A = A}).pc
Inv-init = record {
  exclusive = λ i j p q. cc;
  guarded = λ i p. cc;
  free = λ _. inl (refl, refl);
  set_once = λ p e. cc;
  fresh = λ _. tt;
  once = omega arith;
}

-- Before the pointer is set, a thread outside of the lock knows nothing.
unset :
    {A : Type 0} (s t : Shared A) (q : Pc A)
    → s.pointer ≡ none
    → IsFresh s q
    → (holds q ≡ true → ⊥)
    → IsFresh t q
unset s t idle n g h = tt
unset s t (entered _) n g h = tt
unset s t (locking _) n g h = tt
unset s t leaving n g h = absurd (cc (g.0))
unset s t (returned _) n g h = absurd (cc (g.1.0))
unset s t _ n g h = absurd (h refl)

relock :
    {A : Type 0} (s : Shared A) (b : Bool) (q : Pc A)
    → IsFresh s q
    → IsFresh (record s { mutex = b }) q
relock s b idle g = g
relock s b _ g = g

module _ {A : Type 0} {s : Shared A} {pc : ℕ → Pc A} (inv : Inv s pc) (i : ℕ) where
  open inv use {exclusive, guarded, free, set_once, fresh, once}

  Move-exclusive :
      {p p' : Pc A} {t : Shared A}
      → Move s p t p'
      → pc i ≡ p
      → (j k : ℕ) → holds (update pc i p' j) ≡ true
      → holds (update pc i p' k) ≡ true
      → j ≡ k
  Move-exclusive (lock free') e j k a b = ground (arith, guarded j, guarded k)
  Move-exclusive mv e j k a b = ground (arith, exclusive j k, exclusive i j, exclusive i k)

  Move-guarded :
      {p p' : Pc A} {t : Shared A}
      → Move s p t p'
      → pc i ≡ p
      → (j : ℕ) → holds (update pc i p' j) ≡ true
      → t.mutex ≡ true
  Move-guarded unlock e j a = ground (arith, guarded j, exclusive i j)
  Move-guarded mv e j a = ground (arith, guarded j, guarded i)

  Move-free :
      {p p' : Pc A} {t : Shared A}
      → Move s p t p'
      → IsFresh s p
      → (holds p ≡ true → s.mutex ≡ true)
      → t.mutex ≡ false
      → Settled t
  Move-free make f g m = absurd (cc (g refl))
  Move-free store f g m = absurd (cc (g refl))
  Move-free unlock f g m = inr f
  Move-free mv f g m = ground (arith, free)

  Move-set_once :
      {p p' : Pc A} {t : Shared A}
      → Move s p t p'
      → IsFresh s p
      → (q : ℕ) → t.pointer ≡ some q
      → HasObject t
  Move-set_once make f q e = ground (arith, set_once q)
  Move-set_once store f q e = ground arith
  Move-set_once mv f q e = ground (arith, set_once q)

  Move-once : {p p' : Pc A} {t : Shared A} → Move s p t p' → IsFresh s p → length t.made ≤ 1
  Move-once (make {a = a}) f = omega (arith, length-append s.made (a ∷ []), f.1)
  Move-once mv f = once

  -- What the mover knows after its move.
  Move-own : {p p' : Pc A} {t : Shared A} → Move s p t p' → IsFresh s p → IsFresh t p'
  Move-own (call a) f = tt
  Move-own (first_null h) f = tt
  Move-own (first_set {p = q} h) f = set_once q h
  Move-own (lock h) f = free h
  Move-own (second_null h) f = ground arith
  Move-own (second_set {p = q} h) f = set_once q h
  Move-own (make {a = a}) f = (f.1, f.0, omega (arith, length-append s.made (a ∷ []), f.1))
  Move-own store f = ground arith
  Move-own unlock f = f
  Move-own load f = ground arith
  Move-own again f = tt

  -- What another thread knows.
  Move-other :
      {p p' : Pc A} {t : Shared A}
      → Move s p t p'
      → IsFresh s p
      → (q : Pc A) → IsFresh s q
      → (holds p ≡ true → holds q ≡ true → ⊥)
      → IsFresh t q
  Move-other (make {a = a}) f q g apart =
      unset s (record s { made = s.made ++ a ∷ [] }) q f.0 g (apart refl)
  Move-other (store {p = r}) f q g apart =
      unset s (record s { pointer = some r }) q f.1 g (apart refl)
  Move-other (lock h) f q g apart = relock s true q g
  Move-other unlock f q g apart = relock s false q g
  Move-other mv f q g apart = g

  Move-IsFresh :
      {p' : Pc A} {t : Shared A} → Move s (pc i) t p' → (j : ℕ) → IsFresh t (update pc i p' j)
  Move-IsFresh {p'} {t} mv j = elim (Bool-cases (i == j)) [
    | inl same ↦ rw same (Move-own mv (fresh i))
    | inr other ↦
        rw other (Move-other mv (fresh i) (pc j) (fresh j) (λ a b. ground (arith, exclusive i j)))
  ]

  pub Move-Inv : {p' : Pc A} {t : Shared A} → Move s (pc i) t p' → Inv t (update pc i p')
  Move-Inv mv = record {
    exclusive = Move-exclusive mv refl;
    guarded = Move-guarded mv refl;
    free = Move-free mv (fresh i) (guarded i);
    set_once = Move-set_once mv (fresh i);
    fresh = Move-IsFresh mv;
    once = Move-once mv (fresh i);
  }

pub Reach-Inv : {A : Type 0} {s : System A} → Reach s → Inv s.shared s.pc
Reach-Inv start = Inv-init
Reach-Inv (later r (pick i mv)) = Move-Inv (Reach-Inv r) i mv

-- Whatever the threads do, at most one object is made.
pub made_once : {A : Type 0} {s : System A} → Reach s → length s.shared.made ≤ 1
made_once {s = s} r = (Reach-Inv r).once

-- Two calls of `instance` that have returned, by whatever threads, have returned the same object and
-- not `nullptr`, and it is the only one that was made.
pub instance_unique :
    {A : Type 0} {s : System A}
    → Reach s
    → (i j : ℕ) (p q : Option ℕ) → s.pc i ≡ returned p
    → s.pc j ≡ returned q
    → (p ≡ some 0) × (q ≡ p) × (length s.shared.made ≡ 1)
instance_unique r i j p q a b = ground (arith, (Reach-Inv r).fresh i, (Reach-Inv r).fresh j)
