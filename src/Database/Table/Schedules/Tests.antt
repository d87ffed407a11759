-- ===== src/Database/Table/Schedules/Tests.antt =====
-- include/database/{Table,Reader,Writer}.hpp: a writer and then two readers at once, in memory.
use zatestil.Util.Result.{succeeded}
use zatestil.Database.Rows.{put_row, seek}
use zatestil.Database.Cursor.{make_cursor}
use zatestil.Database.Table.{upsert}
use zatestil.Prelude.{bytes_lt, ◌≡◌, refl, true, false, [], ◌∷◌, All, bytes_eq}
use zatestil.Database.Memory.{memory, memory_laws}
use zatestil.Database.Operation.{
  Reader, next_operation_id, make_reader, make_writer, lock_shared, lock_unique, shared_lock,
  unique_lock,
}
use zatestil.Database.Samples.{disk, foo}
use zatestil.Database.Table.Commands.{put, read, done, replay, perform}
use zatestil.Database.Table.Transactions.{view_of}
use zatestil.Database.Table.Schedules.{
  Job, Run, opened, called, opens_reader, opens_writer, calls, closes, idle, Reach, start, later,
  IsSerial,
}
use zatestil.Database.Table.Serializability.{serializability}
use zatestil.Database.Operation.Isolation.{destroy_writing}
use zatestil.Database.Operation.Lifecycle.{outcome}

abbrev begun : Run memory
begun = idle disk 4

abbrev writer : Reader memory
writer = record {
  id = 5;
  txn = memory.start_write disk;
  is_open = true;
  lock = unique_lock true;
  result = succeeded;
}

abbrev writing : Run memory
writing = record begun {
  database = record { env = disk; mutex = record { readers = 0; writer = true } };
  jobs = opened writer ∷ [];
  operation_id = 5;
}

abbrev has_put : Run memory
has_put = record writing { jobs = called foo (opened writer) (put (6 ∷ []) (60 ∷ [])) ∷ [] }

has_put-Reach : Reach foo disk has_put
unfolding next_operation_id make_writer lock_unique
has_put-Reach =
    later {u = has_put} (later {u = writing} (start 4) (opens_writer refl))
      (calls [] (opened writer) [] (put (6 ∷ []) (60 ∷ [])) refl tt)

abbrev wrote : Run memory
wrote = record has_put {
  database = record {
    env =
        outcome memory disk (perform foo writer (put (6 ∷ []) (60 ∷ []))).0.txn
          (perform foo writer (put (6 ∷ []) (60 ∷ []))).0.result;
    mutex = record { readers = 0; writer = false };
  };
  jobs = [];
  history = ((put (6 ∷ []) (60 ∷ []) ∷ []), (done ∷ [])) ∷ [];
}

wrote-Reach : Reach foo disk wrote
unfolding upsert make_cursor seek put_row bytes_eq bytes_lt
wrote-Reach = later {u = wrote} has_put-Reach (
    closes [] (called foo (opened writer) (put (6 ∷ []) (60 ∷ []))) [] refl
      (destroy_writing (perform foo writer (put (6 ∷ []) (60 ∷ []))).0 has_put.database refl refl))

abbrev reader : Reader memory
reader = record {
  id = 6;
  txn = memory.start_read wrote.database.env;
  is_open = true;
  lock = shared_lock true;
  result = succeeded;
}

abbrev reading : Run memory
reading = record wrote {
  database = record wrote.database { mutex = record { readers = 1; writer = false } };
  jobs = opened reader ∷ [];
  operation_id = 6;
}

-- The writer is closed, and a reader has asked for the key it wrote.
abbrev has_read : Run memory
has_read = record reading { jobs = called foo (opened reader) (read (6 ∷ [])) ∷ [] }

has_read-Reach : Reach foo disk has_read
unfolding next_operation_id make_reader lock_shared
has_read-Reach =
    later {u = has_read} (later {u = reading} wrote-Reach (opens_reader refl))
      (calls [] (opened reader) [] (read (6 ∷ [])) refl tt)

serializability_example :
    IsSerial has_read.history
      (view_of (memory_laws.stored disk 0))
      (view_of (memory_laws.stored has_read.database.env 0))
    × All
        (λ (j : Job memory).
          j.replies ≡ (replay j.calls (view_of (memory_laws.stored has_read.database.env 0))).1)
        has_read.jobs
serializability_example = serializability memory_laws foo has_read-Reach
