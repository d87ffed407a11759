-- ===== src/Database/Table/Tests.antt =====
-- include/database/Table.hpp on the store in memory: tests, and the theorems at concrete operations.
use zatestil.Prelude.{
  ℕ, ◌≡◌, refl, Bool, false, some, [], ◌∷◌, arith, ◌==◌, Attempt, ok, Bytes, bytes_eq, bytes_lt,
}
use zatestil.Database.Rows.{lookup, put_row, seek}
use zatestil.Database.Memory.{memory, memory_laws, put_shelf}
use zatestil.Database.Operation.{Reader}
use zatestil.Database.Cursor.{Cursor, equal_end}
use zatestil.Database.Table.{begin, get, insert, clear, find, pair_condition}
use zatestil.Database.Rows.{IsSorted}
use zatestil.Database.Samples.{byte_yas-IsFaithful}
use zatestil.Database.Table.{insert_value, update_value, upsert_value}
use zatestil.Database.Table.Lookup.{Refused}
use zatestil.Database.Table.Values.{Holds, IfMissing, values_back}
use zatestil.Database.Operation.{make_reader}
use zatestil.Database.Rows.{from_first}
use zatestil.Database.Table.{lower_bound}
use zatestil.Database.Cursor.{value}
use zatestil.Database.Table.Lookup.{rows_of}
use zatestil.Database.Table.Persistence.{persisted}
use zatestil.Database.Table.Walking.{not_below, walk, walk-rows}
use zatestil.Database.Table.Erasing.{Cleared, clear_lem}
use zatestil.Database.Table.Finding.{scan, Found, row_says, find_lem}
use zatestil.Database.Table.Commands.{
  Command, add, replace, remove, read, done, refused, found, accepted, replay, run,
}
use zatestil.Database.Table.Refinement.{Refines, view, run-Refines}
use zatestil.Database.Table.Transactions.{view_of, transaction}
use zatestil.Database.Operation.{Database, make_writer, lock_unique, destroy}
use zatestil.Prelude.{true, List, if◌then◌else◌}
use zatestil.Database.Samples.{two_rows, idle_database}
use zatestil.Database.Samples.{byte_yas, disk, foo, writer, reader}

insert_seen : (get foo (insert foo writer (6 ∷ []) (60 ∷ [])).0 (6 ∷ [])).ended ≡ false
unfolding get insert put_shelf put_row lookup bytes_eq bytes_lt seek
insert_seen = refl

clear_lem_example :
    (q : Reader memory × Cursor memory) × (clear 3 foo writer ≡ some (ok q))
    × Cleared memory_laws foo writer q
clear_lem_example = clear_lem memory_laws foo writer 3 (omega arith)

abbrev is_70 : Bytes → ℕ → Attempt Bool
is_70 k v = ok (v == 70)

abbrev is_7 : Bytes → Bytes → Attempt Bool
is_7 k v = ok (bytes_eq k (7 ∷ []))

find_lem_example :
    let s = scan (row_says byte_yas is_70) (disk 0).held in
    (q : Reader memory × Cursor memory) × (find equal_end
        (pair_condition byte_yas is_70)
        3
        reader
        (begin foo reader)
      ≡ some q)
    × Found memory_laws s.0 s.1 reader q.0 q.1
find_lem_example = find_lem memory_laws foo byte_yas is_70 reader 3 (omega arith)

abbrev locked_database : Database memory
locked_database = record { env = disk; mutex = record { readers = 0; writer = true } }

abbrev calls : List Command
calls = add (6 ∷ []) (60 ∷ []) ∷ remove (5 ∷ []) ∷ read (7 ∷ []) ∷ replace (7 ∷ []) (1 ∷ []) ∷ []

-- The last call is refused.
calls_replies : (replay calls (view_of two_rows)).1 ≡ done ∷ done ∷ found (70 ∷ []) ∷ refused ∷ []
unfolding replay lookup bytes_eq
calls_replies = refl

run-Refines_example :
    let (map, replies) = replay calls (view memory_laws foo writer) in
    Refines memory_laws foo writer (run foo calls writer).0 map (accepted replies)
    × ((run foo calls writer).1 ≡ replies)
run-Refines_example = run-Refines memory_laws foo calls writer refl

transaction_example :
    let (map, replies) = replay calls (view_of two_rows) in
    (closed : Reader memory) × (after : Database memory) × (destroy
        (run foo calls writer).0
        locked_database
      ≡ ok (closed, after))
    × (after.mutex ≡ idle_database.mutex)
    × ((run foo calls writer).1 ≡ replies)
    × (view_of (memory_laws.stored after.env 0)
        ≡ (if accepted replies then map else view_of two_rows))
unfolding make_writer lock_unique
transaction_example = transaction memory_laws foo 1 idle_database locked_database writer calls refl

walk-rows_example :
    (walk 3 reader (begin foo reader) ≡ some (ok two_rows))
    × (walk 3 reader (lower_bound foo reader (6 ∷ []))
        ≡ some (ok (from_first (not_below (6 ∷ [])) two_rows)))
    × IsSorted two_rows
walk-rows_example = walk-rows memory_laws foo reader 3 (6 ∷ []) (omega arith)

values_back_example :
    IfMissing memory_laws foo byte_yas byte_yas-IsFaithful writer
      (insert_value byte_yas foo writer (6 ∷ []) 60)
      (6 ∷ [])
      60
      (lookup (6 ∷ []) two_rows)
    × Refused memory_laws foo writer
        (update_value byte_yas foo writer (6 ∷ []) 60).0
        (update_value byte_yas foo writer (6 ∷ []) 60).1
        memory_laws.no_data
    × Holds memory_laws foo byte_yas byte_yas-IsFaithful writer
        (upsert_value byte_yas foo writer (6 ∷ []) 60)
        (6 ∷ [])
        60
values_back_example =
    values_back memory_laws foo byte_yas byte_yas-IsFaithful writer (6 ∷ []) 60 refl

persisted_example :
    (closed : Reader memory) × (after : Database memory) × (destroy
        (upsert_value byte_yas foo writer (6 ∷ []) 60).0
        locked_database
      ≡ ok (closed, after))
    × (r : Reader memory) × (reading : Database memory) × (make_reader 2 after ≡ some (r, reading))
    × (value byte_yas r (get foo r (6 ∷ [])) ≡ ok 60)
    × ((j : Bytes)
        → bytes_eq (6 ∷ []) j ≡ false
        → lookup j (rows_of memory_laws foo r) ≡ lookup j two_rows)
unfolding make_writer lock_unique
persisted_example =
    persisted memory_laws foo byte_yas byte_yas-IsFaithful 1 2 idle_database locked_database writer
      (6 ∷ []) 60 refl
