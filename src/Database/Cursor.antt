-- ===== src/Database/Cursor.antt =====
-- include/database/{ConstCursor,Cursor}.hpp. A `ConstCursor` and a `Cursor` are one record; the
-- operation that it refers to is an argument. The ids are the class's template arguments.
pub mod Comparing
pub mod Moving
pub mod Writing
use Prim.Native.String.{String}
use Prim.Native.String
use zatestil.Prelude.{
  Bool, true, false, not, ◌&&◌, ◌||◌, none, some, if◌then◌else◌, Attempt, ok, throw, ◌>>=◌, Bytes,
  bytes_eq,
}
use zatestil.Serde.{Yas, from_binary}
use zatestil.Database.Id.{DatabaseId, to_string}
use zatestil.Database.Rows.{Row}
use zatestil.Database.Mdbx.{Mdbx}
use zatestil.Database.Operation.{Reader}

pub record Cursor (m : Mdbx) : Type 0 where
  pub db : DatabaseId
  pub table : DatabaseId
  pub ended : Bool
  pub cursor : m.Cursor

-- `fmt::format("bad … db {} table {}", …)`
abbrev pub bad : String → DatabaseId → DatabaseId → String
bad what db table =
    String.◌++◌ what
      (String.◌++◌ " db " (String.◌++◌ (to_string db) (String.◌++◌ " table " (to_string table))))

abbrev same_bool : Bool → Bool → Bool
same_bool true b = b
same_bool false b = not b

module _ {m : Mdbx} where
  -- The constructor over a cursor of libmdbx, with whether its `error` is not `MDBX_SUCCESS`.
  unfoldable pub make_cursor :
      Reader m → DatabaseId → DatabaseId → m.Cursor → (failed : Bool) → Cursor m
  make_cursor r db table c failed = record {
    db = db;
    table = table;
    ended = failed || m.eof r.txn c;
    cursor = c;
  }

  -- The row under the cursor, or the exception that `key` and `rawValue` throw.
  unfoldable pub current_row : Reader m → Cursor m → Attempt Row
  current_row r c =
      if c.ended then throw (bad "bad cursor" c.db c.table) else elim (m.current r.txn c.cursor) [
        | none ↦ throw (bad "bad current" c.db c.table)
        | some row ↦ ok row
      ]

  unfoldable pub raw_value : Reader m → Cursor m → Attempt Bytes
  unfolding current_row
  raw_value r c = do row ← current_row r c; ok row.value

  unfoldable pub key : Reader m → Cursor m → Attempt Bytes
  unfolding current_row
  key r c = do row ← current_row r c; ok row.key

  unfoldable pub value : {V : Type 0} → Yas V → Reader m → Cursor m → Attempt V
  unfolding raw_value from_binary
  value yas r c = do raw ← raw_value r c; from_binary yas raw

  -- `equal(EndCursor const&)`
  unfoldable pub equal_end : Cursor m → Bool
  equal_end c = c.ended

  -- `equal(ConstCursor const&)`; `and` leaves the values out when the keys differ.
  unfoldable pub equal : Reader m → Cursor m → Cursor m → Attempt Bool
  unfolding key raw_value
  equal r c d = if c.ended || d.ended then ok (same_bool c.ended d.ended) else (do
    k ← key r c
    l ← key r d
    if bytes_eq k l then (do v ← raw_value r c; w ← raw_value r d; ok (bytes_eq v w)) else ok false)

  -- What `operator++` and `operator--` do with the cursor that libmdbx has moved.
  unfoldable pub moved : Reader m → Cursor m → String → m.Cursor × Bool → Attempt (Cursor m)
  moved r c what (c', found) =
      let at_end = m.eof r.txn c' in
      if not found && not at_end
      then throw (bad what c.db c.table)
      else ok (record c { ended = at_end; cursor = c' })

  unfoldable pub increment : Reader m → Cursor m → Attempt (Cursor m)
  unfolding moved
  increment r c =
      if c.ended
      then throw (bad "bad cursor" c.db c.table)
      else moved r c "bad next" (m.to_next r.txn c.cursor)

  unfoldable pub decrement : Reader m → Cursor m → Attempt (Cursor m)
  unfolding moved
  decrement r c =
      if c.ended
      then throw (bad "bad cursor" c.db c.table)
      else moved r c "bad prev" (m.to_previous r.txn c.cursor)

  abbrev after_put : Reader m → Cursor m → m.Txn × m.Cursor × Bool → Attempt (Reader m × Cursor m)
  after_put r c (txn, c', done) =
      if done
      then ok (record r { txn = txn }, record c { cursor = c' })
      else throw (bad "bad put" c.db c.table)

  -- `Cursor::setRawValue`
  unfoldable pub set_raw_value : Reader m → Cursor m → Bytes → Attempt (Reader m × Cursor m)
  unfolding current_row
  set_raw_value r c v = do row ← current_row r c; after_put r c (m.put r.txn c.cursor row.key v)
