-- ===== src/Serde/Tests.antt =====
-- include/serde/serde.hpp: a comparison of three members.
use zatestil.Prelude.{◌≡◌, refl, true, false, [], ◌∷◌}
use zatestil.Serde.{equal, compare_all}

one_differs : equal (true ∷ false ∷ true ∷ []) ≡ false
unfolding equal compare_all
one_differs = refl
