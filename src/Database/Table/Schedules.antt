-- ===== src/Database/Table/Schedules.antt =====
-- include/database/{Table,Reader,Writer}.hpp: the transactions of any number of threads on one table,
-- call by call, in any order that the mutex of their database allows.
pub mod Invariant
pub mod Working
pub mod Tests
use zatestil.Prelude.{ℕ, ◌≡◌, false, some, List, [], ◌∷◌, ◌++◌, if◌then◌else◌, ok}
use zatestil.Database.Mdbx.{Mdbx}
use zatestil.Database.Operation.{
  Lock, shared_lock, unique_lock, Database, Reader, next_operation_id, make_reader, make_writer,
  destroy,
}
use zatestil.Database.Table.{Table}
use zatestil.Database.Table.Commands.{Command, read, Reply, accepted, KeyMap, replay, perform}

-- An open operation with its calls so far and what they replied, the oldest first.
pub record Job (m : Mdbx) : Type 0 where
  pub op : Reader m
  pub calls : List Command
  pub replies : List Reply

-- The database, the open operations, and those that are over, the oldest first.
pub record Run (m : Mdbx) : Type 0 where
  pub database : Database m
  pub jobs : List (Job m)
  pub operation_id : ℕ
  pub history : List (List Command × List Reply)

-- The calls that take a `Writer` are not for a `Reader`.
abbrev pub MayCall : Lock → Command → Type 0
MayCall (unique_lock owned) c = Unit
MayCall (shared_lock owned) (read k) = Unit
MayCall (shared_lock owned) _ = ⊥

abbrev pub opened : {m : Mdbx} → Reader m → Job m
opened r = record { op = r; calls = []; replies = [] }

abbrev pub called : {m : Mdbx} → Table → Job m → Command → Job m
called t j c = record {
  op = (perform t j.op c).0;
  calls = j.calls ++ c ∷ [];
  replies = j.replies ++ (perform t j.op c).1 ∷ [];
}

pub data Step {m : Mdbx} (t : Table) (s : Run m) : Run m → Type 0 where
  opens_reader :
      {r : Reader m} {db : Database m}
      → make_reader (next_operation_id s.operation_id) s.database ≡ some (r, db)
      → Step t s (record s {
        database = db;
        jobs = opened r ∷ s.jobs;
        operation_id = next_operation_id s.operation_id;
      })
  opens_writer :
      {r : Reader m} {db : Database m}
      → make_writer (next_operation_id s.operation_id) s.database ≡ some (r, db)
      → Step t s (record s {
        database = db;
        jobs = opened r ∷ s.jobs;
        operation_id = next_operation_id s.operation_id;
      })
  calls :
      (pre : List (Job m)) (j : Job m) (post : List (Job m)) (c : Command)
      → s.jobs ≡ pre ++ j ∷ post
      → MayCall j.op.lock c
      → Step t s (record s { jobs = pre ++ called t j c ∷ post })
  closes :
      (pre : List (Job m)) (j : Job m) (post : List (Job m)) {closed : Reader m} {db : Database m}
      → s.jobs ≡ pre ++ j ∷ post
      → destroy j.op s.database ≡ ok (closed, db)
      → Step t s (record s {
        database = db;
        jobs = pre ++ post;
        history = s.history ++ (j.calls, j.replies) ∷ [];
      })

abbrev pub idle : {m : Mdbx} → m.Env → ℕ → Run m
idle env number = record {
  database = record { env = env; mutex = record { readers = 0; writer = false } };
  jobs = [];
  operation_id = number;
  history = [];
}

pub data Reach {m : Mdbx} (t : Table) (env : m.Env) : Run m → Type 0 where
  start : (number : ℕ) → Reach t env (idle env number)
  later : {s u : Run m} → Reach t env s → Step t s u → Reach t env u

-- What a transaction of these calls leaves of a map if it runs alone.
abbrev pub committed : List Command → KeyMap → KeyMap
committed cs f = if accepted (replay cs f).1 then (replay cs f).0 else f

-- These transactions, one after the other, each alone, lead from one map to the other and reply so.
abbrev pub IsSerial : List (List Command × List Reply) → KeyMap → KeyMap → Type 0
IsSerial [] f g = f ≡ g
IsSerial ((cs, replies) ∷ h) f g = (replies ≡ (replay cs f).1) × IsSerial h (committed cs f) g
