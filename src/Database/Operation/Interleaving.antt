-- ===== src/Database/Operation/Interleaving.antt =====
-- include/database/{Reader,Writer}.hpp and source/database/{Reader,Writer}.cpp: the steps of any
-- number of operations on one database.
use zatestil.Prelude.{ℕ, ◌≡◌, ◌⊎◌, true, false, some, List, [], ◌∷◌, ◌++◌, ok}
use zatestil.Util.Result.{Result}
use zatestil.Database.Mdbx.{Mdbx, Laws}
use zatestil.Database.Operation.{
  unique_lock, Database, Reader, next_operation_id, make_reader, make_writer, destroy,
}

-- One database and the operations that are open on it.
pub record System (m : Mdbx) : Type 0 where
  pub database : Database m
  pub operations : List (Reader m)
  pub operation_id : ℕ

-- Only an owner of the exclusive lock writes to its transaction.
abbrev pub MayBecome : {m : Mdbx} → Laws m → Reader m → m.Txn → Type 0
MayBecome laws r txn =
    ((r.lock ≡ unique_lock true) × (laws.writable txn ≡ laws.writable r.txn)) ⊎ (txn ≡ r.txn)

pub data Step {m : Mdbx} (laws : Laws m) (s : System m) : System m → Type 0 where
  open_reader :
      {r : Reader m} {db : Database m}
      → make_reader (next_operation_id s.operation_id) s.database ≡ some (r, db)
      → Step laws s (record {
        database = db;
        operations = r ∷ s.operations;
        operation_id = next_operation_id s.operation_id;
      })
  open_writer :
      {r : Reader m} {db : Database m}
      → make_writer (next_operation_id s.operation_id) s.database ≡ some (r, db)
      → Step laws s (record {
        database = db;
        operations = r ∷ s.operations;
        operation_id = next_operation_id s.operation_id;
      })
  work :
      (pre : List (Reader m)) (r : Reader m) (post : List (Reader m)) (txn : m.Txn)
      (result : Result)
      → s.operations ≡ pre ++ r ∷ post
      → MayBecome laws r txn
      → Step laws s
          (record s { operations = pre ++ record r { txn = txn; result = result } ∷ post })
  close :
      (pre : List (Reader m)) (r : Reader m) (post : List (Reader m)) {closed : Reader m}
      {db : Database m}
      → s.operations ≡ pre ++ r ∷ post
      → destroy r s.database ≡ ok (closed, db)
      → Step laws s (record s { database = db; operations = pre ++ post })

pub data Reach {m : Mdbx} (laws : Laws m) (env : m.Env) : System m → Type 0 where
  start :
      (number : ℕ)
      → Reach laws env (record {
        database = record { env = env; mutex = record { readers = 0; writer = false } };
        operations = [];
        operation_id = number;
      })
  later : {s t : System m} → Reach laws env s → Step laws s t → Reach laws env t
