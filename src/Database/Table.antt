-- ===== src/Database/Table.antt =====
-- include/database/Table.hpp. The operation that a member function takes is passed and returned;
-- a member function on a `Reader` and its twin on a `Writer` are one definition. A function that
-- is `noexcept` and throws ends the process: the model keeps the throw.
pub mod Erasing
pub mod Finding
pub mod Lookup
pub mod Commands
pub mod Refinement
pub mod Transactions
pub mod Walking
pub mod Persistence
pub mod Values
pub mod Schedules
pub mod Serializability
pub mod Tests
use Prim.Native.String.{String}
use zatestil.Prelude.{
  ℕ, zero, suc, Bool, true, false, not, Option, none, some, if◌then◌else◌, Attempt, ok, throw,
  ◌>>=◌, Bytes,
}
use zatestil.Serde.{Yas, to_binary}
use zatestil.Util.Result.{error}
use zatestil.Database.Id.{DatabaseId}
use zatestil.Database.Mdbx.{Mdbx}
use zatestil.Database.Operation.{Reader}
use zatestil.Database.Cursor.{Cursor, make_cursor, key, raw_value, value, increment, equal_end}

pub record Table : Type 0 where
  pub db : DatabaseId
  pub table : DatabaseId
  pub name : String
  pub handle : ℕ

-- The body of the loop of `find`, after its condition was asked.
abbrev pub asked :
    {A : Type 0} → Attempt Bool → (Option String → Option A) → (Unit {0} → Option A) → Option A
asked (throw e) leave again = leave (some e)
asked (ok true) leave again = leave none
asked (ok false) leave again = again tt

module _ {m : Mdbx} where
  -- A cursor that was opened and moved: the second part of `at` is the result of the move.
  abbrev placed : Table → Reader m → m.Cursor × Bool → Cursor m
  placed t r at = make_cursor r t.db t.table at.0 (not at.1)

  pub begin : Table → Reader m → Cursor m
  unfolding make_cursor
  begin t r = placed t r (m.to_first r.txn (m.open_cursor r.txn t.handle))

  -- `begin(reader).equal(end(reader))`
  pub empty : Table → Reader m → Bool
  unfolding begin equal_end
  empty t r = equal_end (begin t r)

  -- `erase(Cursor&)`
  pub erase : Reader m → Cursor m → Reader m × Cursor m
  erase r c =
      if c.ended
      then (r, c)
      else (let (txn, c', done) = m.erase r.txn c.cursor in
          (record r { txn = txn }, record c { cursor = c' }))

  -- What `operator++` leaves to the next round.
  abbrev pub next_round :
      {A : Type 0} → Attempt (Cursor m) → (Cursor m → Option (Attempt A)) → Option (Attempt A)
  next_round (throw e) f = some (throw e)
  next_round (ok c) f = f c

  -- `erase(begin, end)`, where `stop` is `i.equal(end)`; `none` means that the fuel ran out.
  pub erase_range :
      (Cursor m → Bool) → ℕ → Reader m → Cursor m → Option (Attempt (Reader m × Cursor m))
  erase_range stop zero r i = none
  erase_range stop (suc fuel) r i = elim (stop i) [
    | true ↦ some (ok (r, i))
    | false ↦
        next_round (increment (erase r i).0 (erase r i).1) (erase_range stop fuel (erase r i).0)
  ]

  pub clear : ℕ → Table → Reader m → Option (Attempt (Reader m × Cursor m))
  clear fuel t r = erase_range equal_end fuel r (begin t r)

  -- `erase(writer, key)`
  pub erase_key : Table → Reader m → Bytes → Reader m
  unfolding make_cursor erase
  erase_key t r k =
      let (c, found) = m.find r.txn (m.open_cursor r.txn t.handle) k in
      if found then (erase r (make_cursor r t.db t.table c false)).0 else r

  abbrev failed : Reader m → String → Reader m
  failed r message = record r { result = record { code = error; message = message } }

  -- The end of `find`: the cursor moves into the result, and an exception becomes the result of the
  -- operation.
  abbrev pub finish : Reader m → Cursor m → Option String → Reader m × Cursor m
  finish r i none = (r, make_cursor r i.db i.table i.cursor false)
  finish r i (some message) =
      (failed r message, make_cursor (failed r message) i.db i.table i.cursor true)

  abbrev pub stepped :
      {A : Type 0}
      → Attempt (Cursor m)
      → (Option String → Option A)
      → (Cursor m → Option A)
      → Option A
  stepped (throw e) leave again = leave (some e)
  stepped (ok c) leave again = again c

  -- The loop of `find` on the cursors of a writer, with `cond` of the row under a cursor; `none`
  -- means that the fuel ran out.
  pub find :
      (Cursor m → Bool)
      → (Reader m → Cursor m → Attempt Bool)
      → ℕ
      → Reader m
      → Cursor m
      → Option (Reader m × Cursor m)
  find stop cond zero r i = none
  find stop cond (suc fuel) r i = elim (stop i) [
    | true ↦ some (finish r i none)
    | false ↦
        asked (cond r i) (λ e. some (finish r i e))
          (λ _. stepped (increment r i) (λ e. some (finish r i e)) (find stop cond fuel r))
  ]

  -- `cond({i.key(), i.value()})` and `cond({i.key(), i.rawValue()})`
  pub pair_condition :
      {V : Type 0} → Yas V → (Bytes → V → Attempt Bool) → Reader m → Cursor m → Attempt Bool
  unfolding key value
  pair_condition yas cond r i = do k ← key r i; v ← value yas r i; cond k v

  pub raw_condition : (Bytes → Bytes → Attempt Bool) → Reader m → Cursor m → Attempt Bool
  unfolding key raw_value
  raw_condition cond r i = do k ← key r i; v ← raw_value r i; cond k v

  pub lower_bound : Table → Reader m → Bytes → Cursor m
  unfolding make_cursor
  lower_bound t r k = placed t r (m.lower_bound r.txn (m.open_cursor r.txn t.handle) k)

  pub get : Table → Reader m → Bytes → Cursor m
  unfolding make_cursor
  get t r k = placed t r (m.find r.txn (m.open_cursor r.txn t.handle) k)

  -- What `insert`, `upsert` and `update` do with what libmdbx did. An exception leaves `cursor` as
  -- the call found it.
  pub written : Table → Reader m → m.Cursor → Attempt (m.Txn × m.Cursor) → Reader m × Cursor m
  unfolding make_cursor
  written t r opened (ok (txn, c)) =
      (record r { txn = txn }, make_cursor (record r { txn = txn }) t.db t.table c false)
  written t r opened (throw message) =
      (failed r message, make_cursor (failed r message) t.db t.table opened true)

  pub insert : Table → Reader m → Bytes → Bytes → Reader m × Cursor m
  unfolding written
  insert t r k v = let c = m.open_cursor r.txn t.handle in written t r c (m.insert r.txn c k v)

  pub upsert : Table → Reader m → Bytes → Bytes → Reader m × Cursor m
  unfolding written
  upsert t r k v = let c = m.open_cursor r.txn t.handle in written t r c (m.upsert r.txn c k v)

  pub update : Table → Reader m → Bytes → Bytes → Reader m × Cursor m
  unfolding written
  update t r k v = let c = m.open_cursor r.txn t.handle in written t r c (m.update r.txn c k v)

  -- The overloads for a `Value`.
  module _ {V : Type 0} (yas : Yas V) where
    pub insert_value : Table → Reader m → Bytes → V → Reader m × Cursor m
    unfolding insert to_binary
    insert_value t r k v = insert t r k (to_binary yas v)

    pub upsert_value : Table → Reader m → Bytes → V → Reader m × Cursor m
    unfolding upsert to_binary
    upsert_value t r k v = upsert t r k (to_binary yas v)

    pub update_value : Table → Reader m → Bytes → V → Reader m × Cursor m
    unfolding update to_binary
    update_value t r k v = update t r k (to_binary yas v)
