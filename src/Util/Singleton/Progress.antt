-- ===== src/Util/Singleton/Progress.antt =====
-- include/util/Singleton.hpp: the locking never blocks for good.
use zatestil.Prelude.{
  ℕ, ◌≡◌, refl, ◌⊎◌, inl, inr, Bool, true, false, none, some, arith, Bool-cases, Option-cases,
}
use zatestil.Util.Singleton.{
  Shared, Pc, idle, entered, locking, locked, making, storing, unlocking, leaving, returned, Move,
  first_null, first_set, lock, second_null, second_set, make, store, unlock, load, update, System,
  pick, Reach, start, later,
}
use zatestil.Util.Singleton.Safety.{holds}

-- Inside of a call of `instance`.
abbrev pub in_call : {A : Type 0} → Pc A → Bool
in_call idle = false
in_call (returned _) = false
in_call _ = true

-- A thread at `p` has a next access.
abbrev pub CanMove : {A : Type 0} → Shared A → Pc A → Type 0
CanMove {A} s p = (t : Shared A) × (p' : Pc A) × Move s p t p'

-- A taken lock has an owner.
abbrev Held : {A : Type 0} → Shared A → (ℕ → Pc A) → Type 0
Held s pc = s.mutex ≡ true → (i : ℕ) × (holds (pc i) ≡ true)

-- A move keeps the lock with its owner, or takes it, or gives it up.
owner_after :
    {A : Type 0} {s t : Shared A} {p p' : Pc A}
    → Move s p t p'
    → t.mutex ≡ true
    → ((s.mutex ≡ true) × (holds p ≡ holds p')) ⊎ (holds p' ≡ true)
owner_after (lock h) e = inr refl
owner_after unlock e = absurd (cc e)
owner_after mv e = inl (e, refl)

owner_stays :
    {A : Type 0} {s : Shared A} (pc : ℕ → Pc A) (i : ℕ) {t : Shared A} {p' : Pc A}
    → Move s (pc i) t p'
    → Held s pc
    → Held t (update pc i p')
owner_stays pc i {p' = p'} mv held e = elim (owner_after mv e) [
  | inr mine ↦ (i, ground arith)
  | inl (before, same) ↦ let (j, h) = held before in (j, ground arith)
]

Reach-Held : {A : Type 0} {s : System A} → Reach s → Held s.shared s.pc
Reach-Held start = λ e. absurd (cc e)
Reach-Held (later {s = s} r (pick i mv)) = owner_stays s.pc i mv (Reach-Held r)

load_moves :
    {A : Type 0} (s : Shared A) {p : Pc A}
    → (s.pointer ≡ none → CanMove s p)
    → ((q : ℕ) → s.pointer ≡ some q → CanMove s p)
    → CanMove s p
load_moves s null set = elim (Option-cases s.pointer) [ inl e ↦ null e | inr (q, e) ↦ set q e ]

holder_moves : {A : Type 0} (s : Shared A) (p : Pc A) → holds p ≡ true → CanMove s p
holder_moves s (locked a) h =
    load_moves s (λ e. (s, making a, second_null e)) (λ q e. (s, unlocking, second_set e))
holder_moves s (making a) h = (_, _, make)
holder_moves s (storing p) h = (_, _, store)
holder_moves s unlocking h = (_, _, unlock)
holder_moves s _ h = absurd (cc h)

call_moves :
    {A : Type 0} (s : Shared A) (p : Pc A)
    → in_call p ≡ true
    → (s.mutex ≡ true → holds p ≡ true)
    → CanMove s p
call_moves s (entered a) c h =
    load_moves s (λ e. (s, locking a, first_null e)) (λ q e. (s, leaving, first_set e))
call_moves s (locking a) c h = elim (Bool-cases s.mutex) [
  | inl taken ↦ absurd (cc (h taken))
  | inr open' ↦ (_, _, lock open')
]
call_moves s leaving c h = (_, _, load)
call_moves s (locked a) c h = holder_moves s (locked a) refl
call_moves s (making a) c h = holder_moves s (making a) refl
call_moves s (storing p) c h = holder_moves s (storing p) refl
call_moves s unlocking c h = holder_moves s unlocking refl
call_moves s _ c h = absurd (cc c)

in_call_of_holds : {A : Type 0} (p : Pc A) → holds p ≡ true → in_call p ≡ true
in_call_of_holds idle h = cc
in_call_of_holds _ h = ground arith

-- No deadlock: while a thread is inside of a call, some thread inside of a call has a next access.
pub instance_progress :
    {A : Type 0} {s : System A}
    → Reach s
    → (i : ℕ) → in_call (s.pc i) ≡ true
    → (j : ℕ) × (in_call (s.pc j) ≡ true) × CanMove s.shared (s.pc j)
instance_progress {s = s} r i c = elim (Bool-cases s.shared.mutex) [
  | inl taken ↦
      let (j, h) = Reach-Held r taken in
      (j, in_call_of_holds (s.pc j) h, holder_moves s.shared (s.pc j) h)
  | inr untaken ↦ (i, c, call_moves s.shared (s.pc i) c (λ taken. absurd (ground arith)))
]
