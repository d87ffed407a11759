-- ===== src/Util/OnScopeExit.antt =====
-- include/util/OnScopeExit.hpp and source/util/OnScopeExit.cpp.
use zatestil.Prelude.{Attempt}

-- Code that changes a state and may throw. What was written before a throw stays written.
abbrev pub Code : Type 0 → Type 0 → Type 0
Code S A = S → Attempt A × S

pub record OnScopeExit (S : Type 0) : Type 0 where
  pub function : Code S (Unit {0})

-- The constructor.
unfoldable pub make : {S : Type 0} → Code S (Unit {0}) → OnScopeExit S
make f = record { function = f }

-- The destructor: it calls the function and drops an exception.
unfoldable pub destroy : {S : Type 0} → OnScopeExit S → S → S
destroy guard s = (guard.function s).1

-- A block that begins with `util::OnScopeExit _ {…}`: the guard is destroyed when the block is left,
-- by a return or by an exception.
unfoldable pub scoped : {S A : Type 0} → OnScopeExit S → Code S A → Code S A
unfolding destroy
scoped guard body s = let (r, s') = body s in (r, destroy guard s')
