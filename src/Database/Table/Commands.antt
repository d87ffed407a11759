-- ===== src/Database/Table/Commands.antt =====
-- include/database/Table.hpp: sequences of calls on one table, and the same calls on a map from keys
-- to values that is a function.
use zatestil.Prelude.{
  Bool, true, false, not, ◌&&◌, Option, none, some, List, [], ◌∷◌, if◌then◌else◌, Attempt, ok,
  throw, Bytes, bytes_eq,
}
use zatestil.Database.Mdbx.{Mdbx}
use zatestil.Database.Operation.{Reader}
use zatestil.Database.Cursor.{Cursor, raw_value}
use zatestil.Database.Table.{Table, get, insert, upsert, update, erase_key}

-- A call of `insert`, `upsert`, `update`, `erase` or `get`.
pub data Command : Type 0 where
  add put replace : Bytes → Bytes → Command
  remove read : Bytes → Command

abbrev pub writes : Command → Bool
writes (read k) = false
writes _ = true

-- What the caller learns.
pub data Reply : Type 0 where
  done refused missing : Reply
  found : Bytes → Reply

abbrev pub is_refused : Reply → Bool
is_refused refused = true
is_refused _ = false

abbrev pub accepted : List Reply → Bool
accepted [] = true
accepted (r ∷ rs) = not (is_refused r) && accepted rs

abbrev pub KeyMap : Type 0
KeyMap = Bytes → Option Bytes

abbrev pub change : KeyMap → Bytes → Option Bytes → KeyMap
change f k o j = if bytes_eq k j then o else f j

abbrev pub added : KeyMap → Bytes → Bytes → Option Bytes → KeyMap × Reply
added f k v none = (change f k (some v), done)
added f k v (some w) = (f, refused)

abbrev pub answer : Option Bytes → Reply
answer none = missing
answer (some v) = found v

-- A call on the function. `update` is always refused: it replaces the row under a cursor that it has just opened.
abbrev pub perform_on : KeyMap → Command → KeyMap × Reply
perform_on f (add k v) = added f k v (f k)
perform_on f (put k v) = (change f k (some v), done)
perform_on f (replace k v) = (f, refused)
perform_on f (remove k) = (change f k none, done)
perform_on f (read k) = (f, answer (f k))

unfoldable pub replay : List Command → KeyMap → KeyMap × List Reply
replay [] f = (f, [])
replay (c ∷ cs) f =
    let (f', reply) = perform_on f c in let (g, replies) = replay cs f' in (g, reply ∷ replies)

abbrev pub value_reply : Attempt Bytes → Reply
value_reply (ok v) = found v
value_reply (throw e) = missing

module _ {m : Mdbx} where
  abbrev pub write_reply : Reader m × Cursor m → Reader m × Reply
  write_reply (r, c) = (r, if c.ended then refused else done)

  abbrev pub read_reply : Reader m → Cursor m → Reply
  read_reply r c = if c.ended then missing else value_reply (raw_value r c)

  -- A call on the table.
  abbrev pub perform : Table → Reader m → Command → Reader m × Reply
  perform t r (add k v) = write_reply (insert t r k v)
  perform t r (put k v) = write_reply (upsert t r k v)
  perform t r (replace k v) = write_reply (update t r k v)
  perform t r (remove k) = (erase_key t r k, done)
  perform t r (read k) = (r, read_reply r (get t r k))

  unfoldable pub run : Table → List Command → Reader m → Reader m × List Reply
  run t [] r = (r, [])
  run t (c ∷ cs) r =
      let (r', reply) = perform t r c in let (q, replies) = run t cs r' in (q, reply ∷ replies)
