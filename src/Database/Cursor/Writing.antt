-- ===== src/Database/Cursor/Writing.antt =====
-- include/database/Cursor.hpp: what is read after `setRawValue`.
use zatestil.Prelude.{◌≡◌, ◌≢◌, ℕ, ok, Bytes}
use zatestil.Database.Rows.{put_row}
use zatestil.Database.Mdbx.{Mdbx, Laws}
use zatestil.Database.Operation.{Reader}
use zatestil.Database.Cursor.{Cursor, key, raw_value}

module _ {m : Mdbx} (laws : Laws m) where
  open laws use {rows, place}

  -- What `setRawValue` of `v` has to yield, on the row of `k`.
  pub record Replaced (r : Reader m) (c : Cursor m) (k v : Bytes) (q : Reader m × Cursor m)
      : Type 0 where
    pub same_key : key q.0 q.1 ≡ ok k
    pub new_value : raw_value q.0 q.1 ≡ ok v
    pub put :
        rows q.0.txn (place r.txn c.cursor).on_map
        ≡ put_row k v (rows r.txn (place r.txn c.cursor).on_map)
    pub others : (p : ℕ) → p ≢ (place r.txn c.cursor).on_map → rows q.0.txn p ≡ rows r.txn p
