-- ===== src/Database/Cursor/Comparing.antt =====
-- include/database/ConstCursor.hpp: when two cursors are equal.
use zatestil.Prelude.{
  ℕ, ◌≡◌, refl, sym, ap, ◌∙◌, ◌↔◌, true, false, Bool, Bool-cases, inl, inr, [], ◌∷◌, arith, ok,
  Bytes, bytes_eq, bytes_eq_refl, eq_of_bytes_eq,
}
use zatestil.Database.Rows.{Rows, joined}
use zatestil.Database.Rows.Parts.{ahead_unique}
use zatestil.Database.Mdbx.{Mdbx, Laws}
use zatestil.Database.Operation.{Reader}
use zatestil.Database.Cursor.{Cursor, equal}
use zatestil.Database.Cursor.Moving.{Stands, Views, Stands-Views}

abbrev first_key : Rows → Bytes
first_key [] = []
first_key (x ∷ rs) = x.key

abbrev first_value : Rows → Bytes
first_value [] = []
first_value (x ∷ rs) = x.value

module _ {m : Mdbx} (laws : Laws m) where
  open laws use {rows}

  -- By the laws of libmdbx, `equal` of two cursors on one map, each with all the rows of the map around it,
  -- throws nothing, and is true exactly if both stand on the same row or both are at the end.
  pub equal_lem :
      (r : Reader m) (c d : Cursor m) (p : ℕ) (b a b' a' : Rows)
      → Stands laws r c p b a
      → Stands laws r d p b' a'
      → rows r.txn p ≡ joined b a
      → rows r.txn p ≡ joined b' a'
      → (same : Bool) × (equal r c d ≡ ok same) × ((same ≡ true) ↔ (a ≡ a'))
  unfolding equal Views
  equal_lem r c d p b [] b' [] s t e f =
      (true, ground (arith, s.at_end, t.at_end), (λ _. refl, λ _. refl))
  equal_lem r c d p b [] b' (y ∷ a') s t e f =
      (false, ground (arith, s.at_end, t.at_end), (λ h. cc h, λ h. cc h))
  equal_lem r c d p b (x ∷ a) b' [] s t e f =
      (false, ground (arith, s.at_end, t.at_end), (λ h. cc h, λ h. cc h))
  equal_lem r c d p b (x ∷ a) b' (y ∷ a') s t e f =
      let (kc, vc) = Stands-Views laws r c (x ∷ a) s in
      let (kd, vd) = Stands-Views laws r d (y ∷ a') t in
      let live = s.at_end in
      let live' = t.at_end in
      elim (Bool-cases (bytes_eq x.key y.key)) [
        | inl k ↦
            let whole =
              ahead_unique (rows r.txn p) b x a b' y a' (laws.rows-IsSorted r.txn p) e f
                (eq_of_bytes_eq x.key y.key k) in
            let v : bytes_eq x.value y.value ≡ true =
              ap (λ w. bytes_eq x.value w) (sym (ap first_value whole)) ∙ bytes_eq_refl x.value in
            (true, ground arith, (λ _. whole, λ _. refl))
        | inr k ↦
            (false, ground arith, (λ h. cc h, λ h. cc (k, ap first_key h, bytes_eq_refl x.key)))
      ]
