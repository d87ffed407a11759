-- ===== src/Database/Table/Finding.antt =====
-- include/database/Table.hpp: the four overloads of `find`, and `lowerBound`.
use Prim.Native.String.{String}
use zatestil.Prelude.{
  ℕ, zero, suc, ◌<◌, ◌≡◌, refl, sym, ap, ◌∙◌, ◌⊎◌, inl, inr, Bool, true, false, not, ◌||◌, Option,
  none, some, [], ◌∷◌, arith, Attempt, ok, throw, ◌>>=◌, Bytes, bytes_lt, length,
}
use zatestil.Serde.{Yas, from_binary}
use zatestil.Util.Result.{Result, error}
use zatestil.Database.Rows.{Row, Rows, is_nil, first, from_first, seek-ahead}
use zatestil.Database.Mdbx.{Mdbx, Laws}
use zatestil.Database.Operation.{Reader}
use zatestil.Database.Cursor.{Cursor, make_cursor, increment, equal_end}
use zatestil.Database.Table.{Table, begin, find, finish, pair_condition, raw_condition, lower_bound}
use zatestil.Database.Table.Lookup.{rows_of, opened, Shows, Shows-make, begin-Shows, not-not}

-- The rows from the first that the condition accepts or throws on, and the exception.
pub scan : (Row → Attempt Bool) → Rows → Rows × Option String
scan says [] = ([], none)
scan says (x ∷ rs) = elim (says x) [
  | throw e ↦ (x ∷ rs, some e)
  | ok true ↦ (x ∷ rs, none)
  | ok false ↦ scan says rs
]

abbrev pub is_some : Option String → Bool
is_some none = false
is_some (some e) = true

-- An exception becomes the result of the operation.
abbrev pub noted : Option String → Result → Result
noted none result = result
noted (some e) result = record { code = error; message = e }

module _ {m : Mdbx} (laws : Laws m) where
  open laws use {place}

  -- A cursor on the first of the rows `rs`, or at the end if there are none.
  pub record OnRows (r : Reader m) (i : Cursor m) (rs : Rows) : Type 0 where
    pub ahead : (place r.txn i.cursor).ahead ≡ rs
    pub settled : (place r.txn i.cursor).stale ≡ false
    pub at_end : i.ended ≡ is_nil rs

  -- What `find` has to yield: it stands at the first of the rows `left`, and `e` is the exception.
  pub record Found (left : Rows) (e : Option String) (r r' : Reader m) (c : Cursor m) : Type 0 where
    pub stands : (place r'.txn c.cursor).ahead ≡ left
    pub over : c.ended ≡ (is_some e || is_nil left)
    pub result : r'.result ≡ noted e r.result
    pub same : r'.txn ≡ r.txn

  finish-Found :
      (left : Rows) (r : Reader m) (i : Cursor m) (e : Option String)
      → (place r.txn i.cursor).ahead ≡ left
      → Found left e r (finish r i e).0 (finish r i e).1
  unfolding make_cursor
  finish-Found left r i none a = record {
    stands = a;
    over = laws.eof-nil r.txn i.cursor ∙ ap is_nil a;
    result = refl;
    same = refl;
  }
  finish-Found left r i (some e) a = record { stands = a; over = refl; result = refl; same = refl }

  step_on :
      (r : Reader m) (i : Cursor m) (x : Row) (rs : Rows)
      → OnRows r i (x ∷ rs)
      → (i' : Cursor m) × (increment r i ≡ ok i') × OnRows r i' rs
  unfolding increment
  step_on r i x rs on =
      let n = (m.to_next r.txn i.cursor).0 in
      let moved = laws.to_next-place r.txn i.cursor in
      let there : (place r.txn n).ahead ≡ rs =
        ap (λ p. p.ahead) moved ∙ ground (arith, on.ahead, on.settled) in
      let settled : (place r.txn n).stale ≡ false =
        ap (λ p. p.stale) moved ∙ ground (arith, on.settled) in
      let end : m.eof r.txn n ≡ is_nil rs = laws.eof-nil r.txn n ∙ ap is_nil there in
      let found : (m.to_next r.txn i.cursor).1 ≡ not (is_nil rs) =
        laws.to_next-found r.txn i.cursor
        ∙ ap (λ q. not (is_nil q.ahead)) (sym moved)
        ∙ ap (λ q. not (is_nil q)) there in
      (
        record i { ended = is_nil rs; cursor = n },
        ground (arith, on.at_end),
        record { ahead = there; settled = settled; at_end = refl },
      )

-- The rounds of the loop, by what the condition does.
module _ {m : Mdbx} (ask : Reader m → Cursor m → Attempt Bool) (fuel : ℕ) (r : Reader m)
    (i : Cursor m) where
  find-end : i.ended ≡ true → find equal_end ask (suc fuel) r i ≡ some (finish r i none)
  unfolding find equal_end
  find-end e = ground arith

  find-throw :
      (e : String)
      → i.ended ≡ false
      → ask r i ≡ throw e
      → find equal_end ask (suc fuel) r i ≡ some (finish r i (some e))
  unfolding find equal_end
  find-throw e live a = ground arith

  find-hit :
      i.ended ≡ false
      → ask r i ≡ ok true
      → find equal_end ask (suc fuel) r i ≡ some (finish r i none)
  unfolding find equal_end
  find-hit live a = ground arith

  find-next :
      (i' : Cursor m)
      → i.ended ≡ false
      → ask r i ≡ ok false
      → increment r i ≡ ok i'
      → find equal_end ask (suc fuel) r i ≡ find equal_end ask fuel r i'
  unfolding find equal_end
  find-next i' live a steps = ground arith

answers : (a : Attempt Bool) → ((e : String) × (a ≡ throw e)) ⊎ ((a ≡ ok true) ⊎ (a ≡ ok false))
answers (throw e) = inl (e, refl)
answers (ok true) = inr (inl refl)
answers (ok false) = inr (inr refl)

-- The condition of a cursor depends on the row under it alone.
abbrev pub Asks : {m : Mdbx} → (Reader m → Cursor m → Attempt Bool) → (Row → Attempt Bool) → Type 0
Asks {m} ask says =
    (r : Reader m) (i : Cursor m) (x : Row)
    → i.ended ≡ false
    → m.current r.txn i.cursor ≡ some x
    → ask r i ≡ says x

module _ {m : Mdbx} (laws : Laws m) (ask : Reader m → Cursor m → Attempt Bool)
    (says : Row → Attempt Bool) (agree : Asks ask says) where
  find_rows :
      (fuel : ℕ) (rs : Rows) (r : Reader m) (i : Cursor m)
      → OnRows laws r i rs
      → length rs < fuel
      → (q : Reader m × Cursor m) × (find equal_end ask fuel r i ≡ some q)
        × Found laws (scan says rs).0 (scan says rs).1 r q.0 q.1
  unfolding scan
  find_rows zero rs r i on h = elim h [ ]
  find_rows (suc fuel) [] r i on h =
      (finish r i none, find-end ask fuel r i on.at_end, finish-Found laws [] r i none on.ahead)
  find_rows (suc fuel) (x ∷ rs) r i on h =
      let here = agree r i x on.at_end (laws.current-first r.txn i.cursor ∙ ap first on.ahead) in
      elim (answers (says x)) [
        | inl (e, a) ↦
            rw (a, scan)
              (
                finish r i (some e),
                find-throw ask fuel r i e on.at_end (here ∙ a),
                finish-Found laws (x ∷ rs) r i (some e) on.ahead,
              )
        | inr (inl a) ↦
            rw (a, scan)
              (
                finish r i none,
                find-hit ask fuel r i on.at_end (here ∙ a),
                finish-Found laws (x ∷ rs) r i none on.ahead,
              )
        | inr (inr a) ↦
            let (i', steps, on') = step_on laws r i x rs on in
            let (q, runs, found) = find_rows fuel rs r i' on' (omega arith) in
            rw (a, scan) (q, find-next ask fuel r i i' on.at_end (here ∙ a) steps ∙ runs, found)
      ]

-- The conditions of the overloads, as conditions on a row.
abbrev pub row_says : {V : Type 0} → Yas V → (Bytes → V → Attempt Bool) → Row → Attempt Bool
row_says yas cond x = from_binary yas x.value >>= cond x.key

abbrev pub raw_row_says : (Bytes → Bytes → Attempt Bool) → Row → Attempt Bool
raw_row_says cond x = cond x.key x.value

pair_condition-Asks :
    {m : Mdbx} {V : Type 0} (yas : Yas V) (cond : Bytes → V → Attempt Bool)
    → Asks {m = m} (pair_condition yas cond) (row_says yas cond)
unfolding pair_condition
pair_condition-Asks yas cond r i x live at = ground arith

raw_condition-Asks :
    {m : Mdbx} (cond : Bytes → Bytes → Attempt Bool)
    → Asks {m = m} (raw_condition cond) (raw_row_says cond)
unfolding raw_condition
raw_condition-Asks cond r i x live at = ground arith

module _ {m : Mdbx} (laws : Laws m) (t : Table) where
  open laws use {place}

  begin-OnRows : (r : Reader m) → OnRows laws r (begin t r) (rows_of laws t r)
  unfolding begin
  begin-OnRows r =
      let at = laws.to_first-place r.txn (opened laws t r) in
      record {
        ahead = ap (λ p. p.ahead) at ∙ ap (laws.rows r.txn) (laws.open-map r.txn t.handle);
        settled = ap (λ p. p.stale) at;
        at_end = (begin-Shows laws t r).at_end;
      }

  -- By the laws of libmdbx, with more fuel than the table has rows, `find` from `begin` to `end`
  -- ends. It stands at the first row, in the order of the keys, whose decoded value the condition
  -- accepts, and at the end if there is none; if a value before that does not decode, or the
  -- condition throws, the cursor is at the end too and the message of the exception is the result
  -- of the operation. The table stays as it is.
  pub find_lem :
      {V : Type 0} (yas : Yas V) (cond : Bytes → V → Attempt Bool) (r : Reader m) (fuel : ℕ)
      → length (rows_of laws t r) < fuel
      → let s = scan (row_says yas cond) (rows_of laws t r) in
        (q : Reader m × Cursor m) × (find equal_end (pair_condition yas cond) fuel r (begin t r)
          ≡ some q)
        × Found laws s.0 s.1 r q.0 q.1
  find_lem yas cond r fuel h =
      find_rows laws (pair_condition yas cond) (row_says yas cond) (pair_condition-Asks yas cond)
        fuel (rows_of laws t r) r (begin t r) (begin-OnRows r) h

  -- By the laws of libmdbx, with more fuel than the table has rows, `find` with a condition on the
  -- raw bytes of a value ends at the first row that the condition accepts, and at the end if there
  -- is none; if the condition throws before that, the cursor is at the end too and the message is
  -- the result of the operation. The table stays as it is.
  pub find_raw_lem :
      (cond : Bytes → Bytes → Attempt Bool) (r : Reader m) (fuel : ℕ)
      → length (rows_of laws t r) < fuel
      → let s = scan (raw_row_says cond) (rows_of laws t r) in
        (q : Reader m × Cursor m) × (find equal_end (raw_condition cond) fuel r (begin t r)
          ≡ some q)
        × Found laws s.0 s.1 r q.0 q.1
  find_raw_lem cond r fuel h =
      find_rows laws (raw_condition cond) (raw_row_says cond) (raw_condition-Asks cond) fuel
        (rows_of laws t r) r (begin t r) (begin-OnRows r) h

  -- By the laws of libmdbx, `lowerBound` stands at the first row whose key is not below the given
  -- one.
  pub lower_bound_lem :
      (r : Reader m) (k : Bytes)
      → Shows laws t r (lower_bound t r k) (from_first (λ j. not (bytes_lt j k)) (rows_of laws t r))
  unfolding lower_bound
  lower_bound_lem r k =
      let test = λ (j : Bytes). not (bytes_lt j k) in
      let (found, at) = laws.lower_bound-place r.txn (opened laws t r) k in
      let on_table =
        seek-ahead test [] (laws.rows r.txn (place r.txn (opened laws t r)).on_map)
        ∙ ap (λ p. from_first test (laws.rows r.txn p)) (laws.open-map r.txn t.handle) in
      Shows-make laws t r (m.lower_bound r.txn (opened laws t r) k).0
        (not (m.lower_bound r.txn (opened laws t r) k).1) (from_first test (rows_of laws t r))
        (ap (λ p. p.ahead) at ∙ on_table)
        (rw (found ∙ ap (λ rs. not (is_nil rs)) on_table)
          (not-not (is_nil (from_first test (rows_of laws t r)))))
