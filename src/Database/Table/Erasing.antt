-- ===== src/Database/Table/Erasing.antt =====
-- include/database/Table.hpp: `erase` of a key, of a range, and `clear`.
use mathlib.Core.Path.{subst, ap₂}
use zatestil.Prelude.{
  ℕ, zero, suc, ◌<◌, ◌≡◌, ◌≢◌, refl, sym, ap, ◌∙◌, inl, inr, true, false, not, none, some, [], ◌∷◌,
  arith, if◌then◌else◌, ok, Bytes, bytes_eq, eq_of_bytes_eq, Option-cases, length,
}
use zatestil.Database.Rows.{
  Row, Rows, lookup, erase_row, is_nil, rest, whole, place_at, is_key, joined, seek-ahead,
  seek-joined, from_first-lookup, seek-erase_row, lookup-erase_row, Place, forward,
}
use zatestil.Database.Mdbx.{Mdbx, Laws}
use zatestil.Database.Operation.{Reader}
use zatestil.Database.Cursor.{Cursor, make_cursor, increment, equal_end}
use zatestil.Database.Table.{Table, begin, empty, erase, erase_key, erase_range, clear}
use zatestil.Database.Table.Lookup.{
  rows_of, opened, found, Reads, get-Reads, empty-is_nil, begin-Shows,
}
use zatestil.Database.Table.{get}

module _ {m : Mdbx} (laws : Laws m) (t : Table) where
  open laws use {rows, place}

  -- What holds once the key `k` is erased: `get` finds it no longer, and all else is as it was.
  pub record Erased (r r' : Reader m) (k : Bytes) : Type 0 where
    pub kept : r'.result ≡ r.result
    pub looks :
        (j : Bytes)
        → lookup j (rows_of laws t r')
          ≡ (if bytes_eq k j then none else lookup j (rows_of laws t r))
    pub gets :
        (j : Bytes)
        → Reads laws t r'
            (get t r' j)
            j
            (if bytes_eq k j then none else lookup j (rows_of laws t r))
    pub others : (p : ℕ) → p ≢ t.handle → rows r'.txn p ≡ rows r.txn p
    pub mode : laws.writable r'.txn ≡ laws.writable r.txn
    pub only : r' ≡ record r { txn = r'.txn; result = r'.result }

  Erased-missing : (r : Reader m) (k : Bytes) → lookup k (rows_of laws t r) ≡ none → Erased r r k
  Erased-missing r k e = record {
    kept = refl;
    looks = λ j. ground (arith, eq_of_bytes_eq k j);
    gets = λ j.
        subst (Reads laws t r (get t r j) j) (ground (arith, eq_of_bytes_eq k j))
          (get-Reads laws t r j);
    others = λ p _. refl;
    mode = refl;
    only = refl;
  }

  abbrev erased : Reader m → m.Cursor → Reader m
  erased r c = record r { txn = (m.erase r.txn c).0 }

  -- `erase` of the cursor that stands on the row of a key.
  Erased-found :
      (r : Reader m) (k v : Bytes) (c : m.Cursor)
      → lookup k (rows_of laws t r) ≡ some v
      → place r.txn c ≡ place_at t.handle (is_key k) (rows_of laws t r)
      → Erased r (erase r (make_cursor r t.db t.table c false)).0 k
  unfolding erase make_cursor joined
  Erased-found r k v c e at =
      let rs = rows_of laws t r in
      let (x, after, f, _, _) = from_first-lookup k v rs e in
      let found_at = seek-ahead (is_key k) [] rs ∙ f in
      let ahead = ap (λ p. p.ahead) at ∙ found_at in
      let on_map = ap (λ p. p.on_map) at in
      let live : m.eof r.txn c ≡ false = laws.eof-nil r.txn c ∙ ap is_nil ahead in
      let coherent : rows r.txn (place r.txn c).on_map ≡ whole (place r.txn c) =
        ap (rows r.txn) on_map ∙ sym (ap whole at ∙ seek-joined (is_key k) [] rs) in
      let (_, now, others, mode) =
        laws.erase-place r.txn c x after ahead (ap (λ p. p.stale) at) coherent in
      let left : rows (m.erase r.txn c).0 t.handle ≡ erase_row k rs =
        ap (rows (m.erase r.txn c).0) (sym on_map)
        ∙ now
        ∙ ap₂ joined (ap (λ p. p.behind) at) (ap rest (sym found_at))
        ∙ seek-erase_row k [] rs in
      let sorted = laws.rows-IsSorted r.txn t.handle in
      rw live (record {
        kept = refl;
        looks = λ j. ap (lookup j) left ∙ lookup-erase_row k j rs sorted;
        gets = λ j.
            subst (Reads laws t (erased r c) (get t (erased r c) j) j)
              (ap (lookup j) left ∙ lookup-erase_row k j rs sorted)
              (get-Reads laws t (erased r c) j);
        others = λ p ne. others p (λ e. ne (e ∙ on_map));
        mode = mode;
        only = refl;
      })

  -- By the laws of libmdbx, `erase` of a key takes its row out of the table, if there is one, and
  -- changes no other row.
  pub erase_key_lem : (r : Reader m) (k : Bytes) → Erased r (erase_key t r k) k
  unfolding erase_key
  erase_key_lem r k = elim (Option-cases (lookup k (rows_of laws t r))) [
    | inl e ↦
        let missing =
          laws.find-missing r.txn (opened laws t r) k
            (ap (λ p. lookup k (rows r.txn p)) (laws.open-map r.txn t.handle) ∙ e) in
        rw missing (Erased-missing r k e)
    | inr (v, e) ↦
        let (hit, at) = found laws t r k v e in
        rw hit (Erased-found r k v (m.find r.txn (opened laws t r) k).0 e at)
  ]

module _ {m : Mdbx} (laws : Laws m) (t : Table) where
  open laws use {rows, place}

  -- A cursor on the first row of the table.
  record AtFirst (r : Reader m) (i : Cursor m) : Type 0 where
    at :
        place r.txn i.cursor
        ≡ record { on_map = t.handle; behind = []; ahead = rows_of laws t r; stale = false }
    ended : i.ended ≡ is_nil (rows_of laws t r)

  begin-AtFirst : (r : Reader m) → AtFirst r (begin t r)
  unfolding begin
  begin-AtFirst r = record {
    at =
        laws.to_first-place r.txn (opened laws t r)
        ∙ ap (λ p. record { on_map = p; behind = []; ahead = rows r.txn p; stale = false })
            (laws.open-map r.txn t.handle);
    ended = (begin-Shows laws t r).at_end;
  }

  -- One round of the loop: the first row goes, and the cursor comes to the next.
  pub record Round (r : Reader m) (q : Reader m × Cursor m) (after : Rows) : Type 0 where
    next : Cursor m
    steps : increment q.0 q.1 ≡ ok next
    left : rows_of laws t q.0 ≡ after
    first : AtFirst q.0 next
    kept : q.0.result ≡ r.result
    others : (p : ℕ) → p ≢ t.handle → rows q.0.txn p ≡ rows r.txn p

  erase_live :
      (r : Reader m) (i : Cursor m)
      → i.ended ≡ false
      → erase r i ≡ (
        record r { txn = (m.erase r.txn i.cursor).0 },
        record i { cursor = (m.erase r.txn i.cursor).1 },
      )
  unfolding erase
  erase_live r i e = ground arith

  -- A cursor that stands behind a deleted row steps onto the first row ahead.
  step_stale :
      (r : Reader m) (c : Cursor m) (after : Rows)
      → c.ended ≡ false
      → place r.txn c.cursor
        ≡ record { on_map = t.handle; behind = []; ahead = after; stale = true }
      → let n = (m.to_next r.txn c.cursor).0 in
        (increment r c ≡ ok (record c { ended = is_nil after; cursor = n }))
        × (place r.txn n ≡ record { on_map = t.handle; behind = []; ahead = after; stale = false })
  unfolding increment
  step_stale r c after e at =
      let n = (m.to_next r.txn c.cursor).0 in
      let there : place r.txn n
          ≡ record { on_map = t.handle; behind = []; ahead = after; stale = false } =
        laws.to_next-place r.txn c.cursor ∙ ap forward at in
      let end : m.eof r.txn n ≡ is_nil after =
        laws.eof-nil r.txn n ∙ ap (λ p. is_nil p.ahead) there in
      let found : (m.to_next r.txn c.cursor).1 ≡ not (is_nil after) =
        laws.to_next-found r.txn c.cursor ∙ ap (λ p. not (is_nil (forward p).ahead)) at in
      (ground arith, there)

  round :
      (r : Reader m) (i : Cursor m) (x : Row) (after : Rows)
      → rows_of laws t r ≡ x ∷ after
      → AtFirst r i
      → Round r (erase r i) after
  unfolding joined
  round r i x after e f =
      let at =
        f.at ∙ ap (λ rs. record { on_map = t.handle; behind = []; ahead = rs; stale = false }) e in
      let on_map = ap (λ p. p.on_map) at in
      let live : i.ended ≡ false = f.ended ∙ ap is_nil e in
      let (p, now, others, _) =
        laws.erase-place r.txn i.cursor x after (ap (λ p. p.ahead) at) (ap (λ p. p.stale) at)
          (ap (rows r.txn) on_map ∙ e ∙ sym (ap whole at)) in
      let r' = record r { txn = (m.erase r.txn i.cursor).0 } in
      let (steps, there) =
        step_stale r' (record i { cursor = (m.erase r.txn i.cursor).1 }) after live
          (p ∙ ap {A = Place} {B = Place} (λ q. record q { ahead = after; stale = true }) at) in
      let left : rows_of laws t r' ≡ after =
        ap (rows r'.txn) (sym on_map) ∙ now ∙ ap (λ b. joined b after) (ap (λ q. q.behind) at) in
      rw (erase_live r i live) (record {
        next = _;
        steps = steps;
        left = left;
        first = record {
          at =
              there
              ∙ ap (λ rs. record { on_map = t.handle; behind = []; ahead = rs; stale = false })
                  (sym left);
          ended = ap is_nil (sym left);
        };
        kept = refl;
        others = λ p ne. others p (λ e. ne (e ∙ on_map));
      })

  -- What `erase(begin, end)` and `clear` leave behind.
  pub record Cleared (r : Reader m) (q : Reader m × Cursor m) : Type 0 where
    pub none_left : empty t q.0 ≡ true
    pub no_rows : rows_of laws t q.0 ≡ []
    pub kept : q.0.result ≡ r.result
    pub others : (p : ℕ) → p ≢ t.handle → rows q.0.txn p ≡ rows r.txn p

  erase_range-step :
      (fuel : ℕ) (r : Reader m) (i : Cursor m) {next : Cursor m}
      → i.ended ≡ false
      → increment (erase r i).0 (erase r i).1 ≡ ok next
      → erase_range equal_end (suc fuel) r i ≡ erase_range equal_end fuel (erase r i).0 next
  unfolding erase_range equal_end
  erase_range-step fuel r i live steps = ground arith

  erase_rounds :
      (fuel : ℕ) (rs : Rows) (r : Reader m) (i : Cursor m)
      → rows_of laws t r ≡ rs
      → AtFirst r i
      → length rs < fuel
      → (q : Reader m × Cursor m) × (erase_range equal_end fuel r i ≡ some (ok q)) × Cleared r q
  unfolding erase_range equal_end
  erase_rounds zero rs r i e f h = elim h [ ]
  erase_rounds (suc fuel) [] r i e f h = (
    (r, i),
    rw (f.ended ∙ ap is_nil e) refl,
    record {
      none_left = empty-is_nil laws t r ∙ ap is_nil e;
      no_rows = e;
      kept = refl;
      others = λ p _. refl;
    },
  )
  erase_rounds (suc fuel) (x ∷ after) r i e f h =
      let once = round r i x after e f in
      let (q, runs, cleared) =
        erase_rounds fuel after (erase r i).0 once.next once.left once.first (omega arith) in
      (
        q,
        erase_range-step fuel r i (f.ended ∙ ap is_nil e) once.steps ∙ runs,
        record {
          none_left = cleared.none_left;
          no_rows = cleared.no_rows;
          kept = cleared.kept ∙ once.kept;
          others = λ p ne. cleared.others p ne ∙ once.others p ne;
        },
      )

  -- By the laws of libmdbx, with more fuel than the table has rows, `clear` ends, throws nothing,
  -- empties the table, and leaves the result of the operation and the other tables alone.
  pub clear_lem :
      (r : Reader m) (fuel : ℕ)
      → length (rows_of laws t r) < fuel
      → (q : Reader m × Cursor m) × (clear fuel t r ≡ some (ok q)) × Cleared r q
  unfolding clear
  clear_lem r fuel h = erase_rounds fuel (rows_of laws t r) r (begin t r) refl (begin-AtFirst r) h
