-- ===== src/Database/Table/Walking.antt =====
-- include/database/{Table,ConstCursor}.hpp: a loop from `begin` to `end` over a table.
use zatestil.Database.Rows.{place_at, seek, seek-ahead, from_first}
use zatestil.Database.Table.{lower_bound}
use zatestil.Database.Table.Finding.{lower_bound_lem}
use zatestil.Prelude.{
  not, ◌≤◌, Bool, Bytes, bytes_lt, ℕ, zero, suc, ◌<◌, ◌≡◌, refl, ap, ◌∙◌, true, false, Option, none,
  some, List, [], ◌∷◌, arith, Attempt, ok, throw, ◌>>=◌, length,
}
use zatestil.Database.Rows.{Row, Rows, IsSorted}
use zatestil.Database.Mdbx.{Mdbx, Laws}
use zatestil.Database.Operation.{Reader}
use zatestil.Database.Cursor.{Cursor, make_cursor, key, raw_value, increment, equal_end}
use zatestil.Database.Cursor.Moving.{Stands, Views, Stands-Views, increment-Stands}
use zatestil.Database.Table.{Table, begin, next_round}
use zatestil.Database.Table.Lookup.{rows_of, opened, begin-Shows}

module _ {m : Mdbx} where
  abbrev pub row_at : Reader m → Cursor m → Attempt Row
  row_at r i = do k ← key r i; v ← raw_value r i; ok (record { key = k; value = v })

  -- The rows that `for (; not i.equal(end); ++i)` reads by `i.key()` and `i.rawValue()`, or the exception
  -- that ends it; `none` means that the fuel ran out.
  pub walk : ℕ → Reader m → Cursor m → Option (Attempt (List Row))
  walk zero r i = none
  walk (suc fuel) r i = elim (equal_end i) [
    | true ↦ some (ok [])
    | false ↦ elim (row_at r i) [
      | throw e ↦ some (throw e)
      | ok x ↦
          next_round (increment r i) (λ j. elim (walk fuel r j) [
            | none ↦ none
            | some rest ↦ some (do xs ← rest; ok (x ∷ xs))
          ])
    ]
  ]

abbrev pub not_below : Bytes → Bytes → Bool
not_below k j = not (bytes_lt j k)

length-from_first : (test : Bytes → Bool) (rs : Rows) → length (from_first test rs) ≤ length rs
unfolding from_first
length-from_first test [] = omega arith
length-from_first test (x ∷ rs) = ground (arith, length-from_first test rs)

module _ {m : Mdbx} (laws : Laws m) where
  walk-Stands :
      (fuel : ℕ) (r : Reader m) (c : Cursor m) {p : ℕ} {behind : Rows} (ahead : Rows)
      → length ahead < fuel
      → Stands laws r c p behind ahead
      → walk fuel r c ≡ some (ok ahead)
  unfolding walk Views equal_end
  walk-Stands zero r c ahead lt s = absurd (omega arith)
  walk-Stands (suc fuel) r c [] lt s = let e = s.at_end in rw e refl
  walk-Stands (suc fuel) r c (x ∷ after) lt s =
      let e = s.at_end in
      let (k, v) = Stands-Views laws r c (x ∷ after) s in
      let (d, steps, there) = increment-Stands laws r c x after s in
      let rest = walk-Stands fuel r d after (omega arith) there in ground arith

  pub begin-Stands :
      (t : Table) (r : Reader m) → Stands laws r (begin t r) t.handle [] (rows_of laws t r)
  unfolding begin make_cursor
  begin-Stands t r = record {
    there =
        laws.to_first-place r.txn (opened laws t r)
        ∙ ap (λ p. record { on_map = p; behind = []; ahead = laws.rows r.txn p; stale = false })
            (laws.open-map r.txn t.handle);
    at_end = (begin-Shows laws t r).at_end;
  }

  lower_bound-Stands :
      (t : Table) (r : Reader m) (k : Bytes)
      → Stands laws r
          (lower_bound t r k)
          t.handle
          (seek (not_below k) [] (rows_of laws t r)).0
          (from_first (not_below k) (rows_of laws t r))
  unfolding lower_bound make_cursor
  lower_bound-Stands t r k =
      let c = opened laws t r in
      let (hit, at) = laws.lower_bound-place r.txn c k in
      let there =
        at
        ∙ ap (λ p. place_at p (not_below k) (laws.rows r.txn p)) (laws.open-map r.txn t.handle) in
      let ahead = seek-ahead (not_below k) [] (rows_of laws t r) in
      record {
        there =
            there
            ∙ ap
                (λ a. record {
                  on_map = t.handle;
                  behind = (seek (not_below k) [] (rows_of laws t r)).0;
                  ahead = a;
                  stale = false;
                })
                ahead;
        at_end = (lower_bound_lem laws t r k).at_end;
      }

  -- By the laws of libmdbx, a loop from `begin` to `end` throws nothing and reads every row of the table once, and in
  -- the order of their keys, in as many rounds as there are rows and one test more. A loop from `lowerBound` of a key
  -- reads the same rows from the first on whose key is not below it.
  pub walk-rows :
      (t : Table) (r : Reader m) (fuel : ℕ) (k : Bytes)
      → length (rows_of laws t r) < fuel
      → (walk fuel r (begin t r) ≡ some (ok (rows_of laws t r)))
        × (walk fuel r (lower_bound t r k)
            ≡ some (ok (from_first (not_below k) (rows_of laws t r))))
        × IsSorted (rows_of laws t r)
  walk-rows t r fuel k lt = (
    walk-Stands fuel r (begin t r) (rows_of laws t r) lt (begin-Stands t r),
    walk-Stands fuel r (lower_bound t r k) (from_first (not_below k) (rows_of laws t r))
        (omega (arith, lt, length-from_first (not_below k) (rows_of laws t r)))
        (lower_bound-Stands t r k),
    laws.rows-IsSorted r.txn t.handle,
  )
