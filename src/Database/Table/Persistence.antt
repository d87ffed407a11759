-- ===== src/Database/Table/Persistence.antt =====
-- include/database/{Table,Reader,Writer}.hpp: what a writer leaves for the readers that come after it.
use mathlib.Core.Path.{subst}
use zatestil.Prelude.{
  ℕ, ◌≡◌, refl, ap, ◌∙◌, true, false, some, [], ◌∷◌, ok, Bytes, bytes_eq, bytes_eq_refl, arith, ◌+◌,
}
use zatestil.Serde.{Yas, IsFaithful, to_binary}
use zatestil.Util.Result.{succeeded}
use zatestil.Database.Rows.{lookup}
use zatestil.Database.Mdbx.{Mdbx, Laws}
use zatestil.Database.Operation.{
  Database, Reader, make_reader, make_writer, destroy, lock_shared, shared_lock,
}
use zatestil.Database.Operation.Lifecycle.{make_writer-eq-some}
use zatestil.Database.Cursor.{value}
use zatestil.Database.Table.{Table, get, upsert_value}
use zatestil.Database.Table.Commands.{put, run, replay}
use zatestil.Database.Table.Lookup.{rows_of, Reads, get-Reads}
use zatestil.Database.Table.Transactions.{view_of, transaction}
use zatestil.Database.Table.Values.{Reads-value}

-- The reader of a database that no writer holds.
make_reader-free :
    {m : Mdbx} (number : ℕ) (db : Database m)
    → db.mutex.writer ≡ false
    → make_reader number db
      ≡ some (
        record {
          id = number;
          txn = m.start_read db.env;
          is_open = true;
          lock = shared_lock true;
          result = succeeded;
        },
        record db { mutex = record { readers = db.mutex.readers + 1; writer = false } },
      )
unfolding make_reader lock_shared
make_reader-free number db e = ground arith

module _ {m : Mdbx} (laws : Laws m) (t : Table) {V : Type 0} (yas : Yas V)
    (faithful : IsFaithful yas) where
  -- By the laws of libmdbx, and if yas reads back what it writes, a value outlives its writer. When a writer has
  -- put it under a key and is destroyed, a reader that is made after that is not kept waiting, and `get` of the
  -- key through it yields the value, while the other keys have what they had before the writer.
  pub persisted :
      (number later : ℕ) (db locked : Database m) (w : Reader m) (k : Bytes) (v : V)
      → make_writer number db ≡ some (w, locked)
      → (closed : Reader m) × (after : Database m) × (destroy (upsert_value yas t w k v).0 locked
          ≡ ok (closed, after))
        × (r : Reader m) × (reading : Database m) × (make_reader later after ≡ some (r, reading))
        × (value yas r (get t r k) ≡ ok v)
        × ((j : Bytes)
            → bytes_eq k j ≡ false
            → lookup j (rows_of laws t r) ≡ lookup j (laws.stored db.env t.handle))
  unfolding upsert_value run replay to_binary
  persisted number later db locked w k v e =
      let (closed, after, destroys, mutex, _, disk) =
        transaction laws t number db locked w (put k (yas.save_binary v) ∷ []) e in
      let (free, _, _, _) = make_writer-eq-some number db e in
      let r : Reader m = record {
        id = later;
        txn = m.start_read after.env;
        is_open = true;
        lock = shared_lock true;
        result = succeeded;
      } in
      let sees = ap view_of (laws.start_read-rows after.env t.handle) ∙ disk in
      let at : lookup k (rows_of laws t r) ≡ some (yas.save_binary v) =
        ap (λ f. f k) sees ∙ rw (bytes_eq_refl k) refl in
      (
        closed,
        after,
        destroys,
        r,
        _,
        make_reader-free later after (ap (λ x. x.writer) mutex ∙ free),
        Reads-value laws t yas faithful r (get t r k) k v
            (subst (Reads laws t r (get t r k) k) at (get-Reads laws t r k)),
        λ j other. ap (λ f. f j) sees ∙ rw other refl,
      )
