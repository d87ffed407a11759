-- ===== src/Database/Tests.antt =====
-- source/database: the theorems on operations at concrete ones.
use zatestil.Prelude.{ℕ, ◌≡◌, refl, ◌⊎◌, true, false, List, [], ◌∷◌, ok}
use zatestil.Util.Result.{succeeded, is_ok}
use zatestil.Database.Id.{id_0}
use zatestil.Database.Rows.{joined}
use zatestil.Database.Memory.{memory, memory_laws}
use zatestil.Database.Operation.{
  Database, Reader, shared_lock, unique_lock, make_reader, make_writer, destroy, next_operation_id,
}
use zatestil.Database.Operation.Lifecycle.{writer_atomic}
use zatestil.Database.Operation.Isolation.{isolation}
use zatestil.Database.Operation.Interleaving.{System, open_reader, Reach, start, later}
use zatestil.Database.Cursor.{Cursor}
use zatestil.Database.Cursor.{increment}
use zatestil.Prelude.{Bool, ◌↔◌}
use zatestil.Database.Cursor.{equal}
use zatestil.Database.Cursor.Comparing.{equal_lem}
use zatestil.Database.Cursor.Moving.{Views, Returns, decrement-increment}
use zatestil.Database.Rows.{Row}
use zatestil.Database.Samples.{two_rows, disk, idle_database, writer, reader}

abbrev busy_writer : Database memory
busy_writer = record { env = disk; mutex = record { readers = 0; writer = true } }

abbrev busy_reader : Database memory
busy_reader = record { env = disk; mutex = record { readers = 1; writer = false } }

writer_atomic_example :
    (closed : Reader memory) × (after : Database memory) × (destroy writer busy_writer
      ≡ ok (closed, after))
    × (after.mutex ≡ idle_database.mutex)
    × ((p : ℕ) → memory_laws.stored after.env p ≡ (disk p).held)
unfolding make_writer is_ok
writer_atomic_example =
    writer_atomic memory_laws 1 idle_database busy_writer writer writer.txn succeeded refl refl

abbrev one_reader : System memory
one_reader = record { database = busy_reader; operations = reader ∷ []; operation_id = 2 }

one_reader-Reach : Reach memory_laws disk one_reader
unfolding make_reader next_operation_id
one_reader-Reach = later (start 1) (open_reader refl)

isolation_example :
    (((reader.lock ≡ shared_lock true)
        × ((p : ℕ) → memory_laws.rows reader.txn p ≡ memory_laws.stored disk p))
      ⊎ ((reader.lock ≡ unique_lock true) × (◌≡◌ {A = List (Reader memory)} [] [])))
    × ((q : Reader memory × Database memory) × (destroy reader busy_reader ≡ ok q))
isolation_example = isolation memory_laws one_reader-Reach [] reader [] refl

-- A cursor on the first row of map 0.
abbrev on_first : Cursor memory
on_first = record {
  db = id_0;
  table = id_0;
  ended = false;
  cursor = record { on_map = 0; behind = []; ahead = two_rows; stale = false };
}

abbrev row_7 : Row
row_7 = record { key = 7 ∷ []; value = 70 ∷ [] }

decrement-increment_example :
    (d : Cursor memory) × (increment reader on_first ≡ ok d)
    × Views memory_laws reader d (row_7 ∷ [])
    × Returns memory_laws reader d 0 [] (record { key = 5 ∷ []; value = 50 ∷ [] }) (row_7 ∷ [])
decrement-increment_example =
    decrement-increment memory_laws reader on_first 0 [] (record { key = 5 ∷ []; value = 50 ∷ [] })
      (row_7 ∷ []) (record { there = refl; at_end = refl })

-- A cursor on the last row.
abbrev on_last : Cursor memory
on_last = record on_first {
  cursor = record {
    on_map = 0;
    behind = record { key = 5 ∷ []; value = 50 ∷ [] } ∷ [];
    ahead = row_7 ∷ [];
    stale = false;
  };
}

equal_lem_example :
    (same : Bool) × (equal reader on_first on_last ≡ ok same)
    × ((same ≡ true) ↔ (two_rows ≡ row_7 ∷ []))
unfolding joined
equal_lem_example =
    equal_lem memory_laws reader on_first on_last 0 [] two_rows
      (record { key = 5 ∷ []; value = 50 ∷ [] } ∷ []) (row_7 ∷ [])
      (record { there = refl; at_end = refl }) (record { there = refl; at_end = refl }) refl refl
