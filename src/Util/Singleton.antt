-- ===== src/Util/Singleton.antt =====
-- include/util/Singleton.hpp: `Singleton<T>::instance`, double-checked locking, run by any number of
-- threads that are interleaved at each access to shared memory. `A` is the type of the arguments.
-- The class keeps one pair of statics for each type of arguments; the model is one such pair.
pub mod Safety
pub mod Progress
use zatestil.Prelude.{
  ℕ, ◌≡◌, Bool, true, false, Option, none, some, List, [], ◌∷◌, ◌++◌, ◌==◌, if◌then◌else◌, length,
}

-- The statics `mutex` and `instance`, and the arguments of every object that `new T` has made. A
-- pointer is the place of its object in `made`, and `none` is `nullptr`.
pub record Shared (A : Type 0) : Type 0 where
  pub mutex : Bool
  pub pointer : Option ℕ
  pub made : List A

-- Where a thread stands.
pub data Pc (A : Type 0) : Type 0 where
  idle : Pc A  -- outside of `instance`
  entered : A → Pc A  -- before the first load
  locking : A → Pc A  -- before the lock is taken
  locked : A → Pc A  -- before the second load
  making : A → Pc A  -- before `new T`
  storing : ℕ → Pc A  -- before the store
  unlocking : Pc A  -- at the end of the guarded block
  leaving : Pc A  -- before the load of `return instance`
  returned : Option ℕ → Pc A

-- One access of one thread.
pub data Move {A : Type 0} (s : Shared A) : Pc A → Shared A → Pc A → Type 0 where
  call : (a : A) → Move s idle s (entered a)
  first_null : {a : A} → s.pointer ≡ none → Move s (entered a) s (locking a)
  first_set : {a : A} {p : ℕ} → s.pointer ≡ some p → Move s (entered a) s leaving
  lock : {a : A} → s.mutex ≡ false → Move s (locking a) (record s { mutex = true }) (locked a)
  second_null : {a : A} → s.pointer ≡ none → Move s (locked a) s (making a)
  second_set : {a : A} {p : ℕ} → s.pointer ≡ some p → Move s (locked a) s unlocking
  make :
      {a : A} → Move s (making a) (record s { made = s.made ++ a ∷ [] }) (storing (length s.made))
  store : {p : ℕ} → Move s (storing p) (record s { pointer = some p }) unlocking
  unlock : Move s unlocking (record s { mutex = false }) leaving
  load : Move s leaving s (returned s.pointer)
  again : {r : Option ℕ} → Move s (returned r) s idle

abbrev pub update {ℓ} : {P : Type ℓ} → (ℕ → P) → ℕ → P → ℕ → P
update f i p j = if i == j then p else f j

pub record System (A : Type 0) : Type 0 where
  pub shared : Shared A
  pub pc : ℕ → Pc A

abbrev pub init : {A : Type 0} → System A
init = record { shared = record { mutex = false; pointer = none; made = [] }; pc = λ _. idle }

pub data Step {A : Type 0} (s : System A) : System A → Type 0 where
  pick :
      (i : ℕ) {t : Shared A} {p : Pc A}
      → Move s.shared (s.pc i) t p
      → Step s (record { shared = t; pc = update s.pc i p })

pub data Reach {A : Type 0} : System A → Type 0 where
  start : Reach init
  later : {s t : System A} → Reach s → Step s t → Reach t
