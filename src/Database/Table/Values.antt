-- ===== src/Database/Table/Values.antt =====
-- include/database/Table.hpp: the overloads of `insert`, `upsert` and `update` for a
-- `Value`, and what is read back.
use zatestil.Prelude.{
  true, ◌≡◌, refl, ◌∙◌, ◌>>=◌, false, Option, none, some, ok, Bytes, bytes_eq, bytes_eq_refl,
  if◌then◌else◌,
}
use mathlib.Core.Path.{subst}
use zatestil.Serde.{Yas, IsFaithful, from_binary}
use zatestil.Database.Rows.{lookup}
use zatestil.Database.Mdbx.{Mdbx, Laws}
use zatestil.Database.Operation.{Reader}
use zatestil.Database.Cursor.{Cursor, value}
use zatestil.Database.Table.{Table, get, insert_value, upsert_value, update_value}
use zatestil.Database.Table.Lookup.{
  rows_of, Reads, Wrote, Refused, Inserts, insert_lem, upsert_lem, update_lem,
}

module _ {m : Mdbx} (laws : Laws m) (t : Table) {V : Type 0} (yas : Yas V)
    (faithful : IsFaithful yas) where
  -- What holds after a write of the value `v` under `k`: its cursor and `get` yield `v`, and the other keys
  -- have the bytes that they had.
  pub record Holds (r : Reader m) (q : Reader m × Cursor m) (k : Bytes) (v : V) : Type 0 where
    pub here : value yas q.0 q.1 ≡ ok v
    pub got : value yas q.0 (get t q.0 k) ≡ ok v
    pub others :
        (j : Bytes)
        → bytes_eq k j ≡ false
        → lookup j (rows_of laws t q.0) ≡ lookup j (rows_of laws t r)
    pub kept : q.0.result ≡ r.result

  pub Reads-value :
      (r : Reader m) (c : Cursor m) (k : Bytes) (v : V)
      → Reads laws t r c k (some (yas.save_binary v))
      → value yas r c ≡ ok v
  unfolding value from_binary
  Reads-value r c k v s =
      (λ i. do raw ← s.2 i; from_binary yas raw) ∙ faithful.binary_back yas.initial v

  Wrote-Holds :
      (r : Reader m) (q : Reader m × Cursor m) (k : Bytes) (v : V)
      → Wrote laws t r q.0 q.1 k (yas.save_binary v)
      → Holds r q k v
  Wrote-Holds r q k v w =
      let at : Reads laws t q.0 (get t q.0 k) k (some (yas.save_binary v)) =
        subst
          (λ b.
            Reads laws t q.0 (get t q.0 k) k
              (if b then some (yas.save_binary v) else lookup k (rows_of laws t r)))
          (bytes_eq_refl k) (w.gets k) in
      record {
        here = Reads-value q.0 q.1 k v w.shown;
        got = Reads-value q.0 (get t q.0 k) k v at;
        others = λ j e. w.looks j ∙ rw e refl;
        kept = w.kept;
      }

  -- What `insert` has to yield.
  pub IfMissing : Reader m → Reader m × Cursor m → Bytes → V → Option Bytes → Type 0
  IfMissing r q k v none = Holds r q k v
  IfMissing r q k v (some w) = Refused laws t r q.0 q.1 laws.key_exists

  missing :
      (r : Reader m) (q : Reader m × Cursor m) (k : Bytes) (v : V) (o : Option Bytes)
      → Inserts laws t r q k (yas.save_binary v) o
      → IfMissing r q k v o
  unfolding IfMissing
  missing r q k v none i = Wrote-Holds r q k v i
  missing r q k v (some w) i = i

  -- By the laws of libmdbx, and if yas reads back what it writes, a value that `insert` puts under a new key, or that
  -- `upsert` puts under any key, through a writer, is the value that the cursor and `get` yield after it, and the other
  -- keys keep what they had. `insert` under a key that is there, and `update` under any key, change no row and put the
  -- error of libmdbx into the result.
  pub values_back :
      (r : Reader m) (k : Bytes) (v : V)
      → laws.writable r.txn ≡ true
      → let (updated, c) = update_value yas t r k v in
        IfMissing r (insert_value yas t r k v) k v (lookup k (rows_of laws t r))
        × Refused laws t r updated c laws.no_data
        × Holds r (upsert_value yas t r k v) k v
  unfolding insert_value update_value upsert_value
  values_back r k v writes = (
    missing r _ k v _ (insert_lem laws t r k (yas.save_binary v) writes),
    update_lem laws t r k (yas.save_binary v) writes,
    Wrote-Holds r _ k v (upsert_lem laws t r k (yas.save_binary v) writes),
  )
