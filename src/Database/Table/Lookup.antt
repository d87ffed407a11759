-- ===== src/Database/Table/Lookup.antt =====
-- include/database/Table.hpp: `get`, `empty`, `lowerBound`, `insert`, `upsert`, `update` and
-- `erase` of a key against the rows of the map, on every branch.
use Prim.Native.String.{String}
use zatestil.Prelude.{
  ℕ, ◌≡◌, ◌≢◌, refl, sym, ap, ◌∙◌, ◌⊎◌, inl, inr, Bool, true, false, not, Option, none, some, [],
  ◌∷◌, arith, if◌then◌else◌, Attempt, ok, throw, Bytes, bytes_eq, bytes_eq_refl, Option-cases,
}
use mathlib.Core.Path.{subst, subst₂}
use zatestil.Util.Result.{error}
use zatestil.Database.Rows.{
  Row, Rows, lookup, is_nil, first, place_at, is_key, seek-ahead, from_first-lookup, lookup-put_row,
}
use zatestil.Database.Mdbx.{Mdbx, Laws, Written}
use zatestil.Database.Operation.{Reader}
use zatestil.Database.Cursor.{Cursor, make_cursor, key, raw_value}
use zatestil.Database.Table.{Table, begin, empty, get, written, insert, upsert, update}

pub not-not : (b : Bool) → (not (not b) ≡ false) ⊎ (b ≡ true)
not-not true = inr refl
not-not false = inl refl

module _ {m : Mdbx} (laws : Laws m) (t : Table) where
  open laws use {rows, place, writable}

  -- What an operation sees of the table.
  abbrev pub rows_of : Reader m → Rows
  rows_of r = rows r.txn t.handle

  abbrev pub opened : Reader m → m.Cursor
  opened r = m.open_cursor r.txn t.handle

  -- A cursor is at the end exactly if no row lies ahead of it, and else reads the first of them.
  pub record Shows (r : Reader m) (c : Cursor m) (ahead : Rows) : Type 0 where
    pub at_end : c.ended ≡ is_nil ahead
    pub here : m.current r.txn c.cursor ≡ first ahead

  pub Shows-make :
      (r : Reader m) (c : m.Cursor) (failed : Bool) (ahead : Rows)
      → (place r.txn c).ahead ≡ ahead
      → (failed ≡ false) ⊎ (is_nil ahead ≡ true)
      → Shows r (make_cursor r t.db t.table c failed) ahead
  unfolding make_cursor
  Shows-make r c failed ahead e f = record {
    at_end = ground (arith, laws.eof-nil r.txn c);
    here = rw (laws.current-first r.txn c, e);
  }

  pub begin-Shows : (r : Reader m) → Shows r (begin t r) (rows_of r)
  unfolding begin
  begin-Shows r =
      Shows-make r (m.to_first r.txn (opened r)).0 (not (m.to_first r.txn (opened r)).1) (rows_of r)
        (ap (λ p. p.ahead) (laws.to_first-place r.txn (opened r))
          ∙ ap (rows r.txn) (laws.open-map r.txn t.handle))
        (rw (laws.to_first-found r.txn (opened r), laws.open-map r.txn t.handle)
          (not-not (is_nil (rows_of r))))

  -- By the laws of libmdbx, `empty` is true exactly if the table has no row.
  pub empty-is_nil : (r : Reader m) → empty t r ≡ is_nil (rows_of r)
  unfolding empty
  empty-is_nil r = (begin-Shows r).at_end

  -- What a cursor says of the row of a key.
  abbrev pub Reads : Reader m → Cursor m → Bytes → Option Bytes → Type 0
  Reads r c k none = c.ended ≡ true
  Reads r c k (some v) = (c.ended ≡ false) × (key r c ≡ ok k) × (raw_value r c ≡ ok v)

  Shows-Reads :
      (r : Reader m) (c : Cursor m) (x : Row) (after : Rows)
      → Shows r c (x ∷ after)
      → Reads r c x.key (some x.value)
  unfolding key raw_value
  Shows-Reads r c x after s =
      (s.at_end, ground (arith, s.here, s.at_end), ground (arith, s.here, s.at_end))

  -- A cursor at the place of a key that is there.
  at_key :
      (r : Reader m) (c : m.Cursor) (k v : Bytes)
      → lookup k (rows_of r) ≡ some v
      → place r.txn c ≡ place_at t.handle (is_key k) (rows_of r)
      → Reads r (make_cursor r t.db t.table c false) k (some v)
  at_key r c k v e at =
      let (x, after, f, g, h) = from_first-lookup k v (rows_of r) e in
      subst₂ (λ a b. Reads r (make_cursor r t.db t.table c false) a (some b)) g h
        (Shows-Reads r _ x after (
          Shows-make r c false (x ∷ after)
            (ap (λ p. p.ahead) at ∙ seek-ahead (is_key k) [] (rows_of r) ∙ f) (inl refl)))

  pub found :
      (r : Reader m) (k v : Bytes)
      → lookup k (rows_of r) ≡ some v
      → ((m.find r.txn (opened r) k).1 ≡ true)
        × (place r.txn (m.find r.txn (opened r) k).0 ≡ place_at t.handle (is_key k) (rows_of r))
  found r k v e =
      let at = laws.open-map r.txn t.handle in
      let (hit, place) =
        laws.find-found r.txn (opened r) k v (ap (λ p. lookup k (rows r.txn p)) at ∙ e) in
      (hit, place ∙ ap (λ p. place_at p (is_key k) (rows r.txn p)) at)

  -- By the laws of libmdbx, `get` yields a cursor that reads the row of the key, or one at the end
  -- if there is none.
  pub get-Reads : (r : Reader m) (k : Bytes) → Reads r (get t r k) k (lookup k (rows_of r))
  unfolding get
  get-Reads r k = elim (Option-cases (lookup k (rows_of r))) [
    | inl e ↦
        let missing =
          laws.find-missing r.txn (opened r) k
            (ap (λ p. lookup k (rows r.txn p)) (laws.open-map r.txn t.handle) ∙ e) in
        rw (e, missing) refl
    | inr (v, e) ↦
        let (hit, at) = found r k v e in
        rw e (rw hit (at_key r (m.find r.txn (opened r) k).0 k v e at))
  ]

  -- What holds after a write of `v` under `k`: the result of the operation stays, the cursor reads
  -- the new row, every `get` reads the new value of `k` and the old ones of the other keys, and the
  -- other tables keep their rows.
  pub record Wrote (r r' : Reader m) (c : Cursor m) (k v : Bytes) : Type 0 where
    pub kept : r'.result ≡ r.result
    pub shown : Reads r' c k (some v)
    pub looks :
        (j : Bytes)
        → lookup j (rows_of r') ≡ (if bytes_eq k j then some v else lookup j (rows_of r))
    pub gets :
        (j : Bytes)
        → Reads r' (get t r' j) j (if bytes_eq k j then some v else lookup j (rows_of r))
    pub mode : laws.writable r'.txn ≡ laws.writable r.txn
    pub only : r' ≡ record r { txn = r'.txn; result = r'.result }
    pub others : (p : ℕ) → p ≢ t.handle → rows r'.txn p ≡ rows r.txn p

  -- What holds after a refused write: its message is the result of the operation, the cursor is at
  -- the end, and the transaction is as it was.
  pub record Refused (r r' : Reader m) (c : Cursor m) (message : String) : Type 0 where
    pub told : r'.result ≡ record { code = error; message = message }
    pub nothing : c.ended ≡ true
    pub same : r'.txn ≡ r.txn
    pub rest_same : r' ≡ record r { txn = r'.txn; result = r'.result }

  written-Wrote :
      (r : Reader m) (k v : Bytes) (q : m.Txn × m.Cursor)
      → Written m laws.view r.txn t.handle k v q
      → let (r', c) = written t r (opened r) (ok q) in Wrote r r' c k v
  unfolding written
  written-Wrote r k v q (now, at, others, mode) =
      let r' = record r { txn = q.0 } in
      let there : (j : Bytes)
          → lookup j (rows q.0 t.handle) ≡ (if bytes_eq k j then some v else lookup j (rows_of r)) =
        λ j. ap (lookup j) now ∙ lookup-put_row k j v (rows_of r) in
      record {
        kept = refl;
        shown =
            at_key r' q.1 k v (there k ∙ (rw (bytes_eq_refl k)))
              (at ∙ ap (place_at t.handle (is_key k)) (sym now));
        looks = there;
        gets = λ j. subst (Reads r' (get t r' j) j) (there j) (get-Reads r' j);
        mode = mode;
        only = refl;
        others = others;
      }

  on_table :
      (r : Reader m) (k : Bytes) {o : Option Bytes}
      → lookup k (rows_of r) ≡ o
      → lookup k (rows r.txn (place r.txn (opened r)).on_map) ≡ o
  on_table r k e = ap (λ p. lookup k (rows r.txn p)) (laws.open-map r.txn t.handle) ∙ e

  -- A write that libmdbx made, as the functions below finish it.
  finish_write :
      (r : Reader m) (k v : Bytes) (done : Attempt (m.Txn × m.Cursor))
      → ((q : m.Txn × m.Cursor) × (done ≡ ok q)
          × Written m laws.view r.txn (place r.txn (opened r)).on_map k v q)
      → let (r', c) = written t r (opened r) done in Wrote r r' c k v
  finish_write r k v done (q, e, w) = rw e (
      written-Wrote r k v q
        (subst (λ p. Written m laws.view r.txn p k v q) (laws.open-map r.txn t.handle) w))

  refuse_write :
      (r : Reader m) (done : Attempt (m.Txn × m.Cursor)) (message : String)
      → done ≡ throw message
      → let (r', c) = written t r (opened r) done in Refused r r' c message
  unfolding written
  refuse_write r done message e =
      rw (e, written) (record { told = refl; nothing = refl; same = refl; rest_same = refl })

  -- What `insert` has to yield, by whether the key is there.
  abbrev pub Inserts : Reader m → Reader m × Cursor m → Bytes → Bytes → Option Bytes → Type 0
  Inserts r q k v none = Wrote r q.0 q.1 k v
  Inserts r q k v (some w) = Refused r q.0 q.1 laws.key_exists

  -- By the laws of libmdbx, `insert` of a new key puts its row, with a cursor on it, keeps the other
  -- tables and the result. For a key that is there it puts the error into the result of the
  -- operation, yields a cursor at the end, and leaves every row as it is.
  pub insert_lem :
      (r : Reader m) (k v : Bytes)
      → writable r.txn ≡ true
      → Inserts r (insert t r k v) k v (lookup k (rows_of r))
  unfolding insert
  insert_lem r k v b = elim (Option-cases (lookup k (rows_of r))) [
    | inl e ↦
        subst (Inserts r (insert t r k v) k v) (sym e)
          (finish_write r k v _ (laws.insert-new r.txn (opened r) k v b (on_table r k e)))
    | inr (w, e) ↦ subst (Inserts r (insert t r k v) k v) (sym e) (
        refuse_write r _ laws.key_exists
          (laws.insert-old r.txn (opened r) k v w b (on_table r k e)))
  ]

  -- By the laws of libmdbx, `upsert` puts the row of a key, whether the key is there or not, with a
  -- cursor on it, and keeps the other tables and the result.
  pub upsert_lem :
      (r : Reader m) (k v : Bytes)
      → writable r.txn ≡ true
      → let (r', c) = upsert t r k v in Wrote r r' c k v
  unfolding upsert
  upsert_lem r k v b = finish_write r k v _ (laws.upsert-put r.txn (opened r) k v b)

  -- By the laws of libmdbx, `update` is refused for every key, whether it is there or not: the cursor that
  -- it opens stands on no row, and there is none to replace. The error goes into the result of the
  -- operation, the cursor is at the end, and every row is as it was.
  pub update_lem :
      (r : Reader m) (k v : Bytes)
      → writable r.txn ≡ true
      → let (r', c) = update t r k v in Refused r r' c laws.no_data
  unfolding update
  update_lem r k v b =
      refuse_write r _ laws.no_data
        (laws.update-nowhere r.txn (opened r) k v b (laws.open-current r.txn t.handle))
