-- ===== src/Storage.antt =====
-- source/storage/Storage.cpp and include/storage/Storage.hpp: the constructor of the storage. What
-- libmdbx opens in a directory under a name is a parameter, and so is which directories are there.
pub mod Opening
pub mod Tests
use Prim.Native.String.{String}
use text.Mathlib.Text.{◌==◌}
use zatestil.Prelude.{ℕ, Bool, true, Option, none, some, Attempt, ok, throw, if◌then◌else◌}
use zatestil.Config.{Configuration, get, data_dir}
use zatestil.Database.Id.{id_0, id_1}
use zatestil.Database.Mdbx.{Mdbx}
use zatestil.Database.Operation.{Database, opened_database, open_table, next_operation_id}
use zatestil.Database.Table.{Table}

abbrev pub Directories : Type 0
Directories = String → Bool

-- `fs::create_directories`
abbrev pub create_directories : String → Directories → Directories
create_directories root there = λ path. if path == root then true else there path

pub record Storage (m : Mdbx) : Type 0 where
  pub root : String
  pub main : Database m
  pub blocks : Table
  pub accounts : Table

module _ {m : Mdbx} (open_env : String → String → m.Env) where
  -- `openTable` of `accounts`, when `blocks` was opened. `none`: an exception leaves a function that is `noexcept`,
  -- or the database is in use, and the constructor waits.
  abbrev pub with_accounts : String → ℕ → Attempt (ℕ × Database m) → Option (Storage m)
  with_accounts root blocks (throw message) = none
  with_accounts root blocks (ok (accounts, main)) = some (record {
    root = root;
    main = main;
    blocks = record { db = id_0; table = id_0; name = "blocks"; handle = blocks };
    accounts = record { db = id_0; table = id_1; name = "accounts"; handle = accounts };
  })

  abbrev pub awaited : String → ℕ → Option (Attempt (ℕ × Database m)) → Option (Storage m)
  awaited root blocks none = none
  awaited root blocks (some opened) = with_accounts root blocks opened

  abbrev pub with_blocks : String → ℕ → Option (Attempt (ℕ × Database m)) → Option (Storage m)
  with_blocks root number none = none
  with_blocks root number (some (throw message)) = none
  with_blocks root number (some (ok (blocks, main))) =
      awaited root blocks (open_table (next_operation_id number) "accounts" main)

  -- The database of `MainDb::instance`, in its first call.
  abbrev pub main_database : String → Database m
  main_database root = opened_database (open_env root "main")

  -- The constructor, with what its configuration has under `DataDir`.
  abbrev pub opened_at : Option String → ℕ → Directories → Option (Directories × Option (Storage m))
  opened_at none number there = none
  opened_at (some root) number there = some (
    if there root then there else create_directories root there,
    with_blocks root (next_operation_id number)
        (open_table (next_operation_id number) "blocks" (main_database root)),
  )

  -- `Storage::Storage`, by the counter of operations: the directories after it, and the storage.
  unfoldable pub open_storage :
      Configuration → ℕ → Directories → Option (Directories × Option (Storage m))
  unfolding get
  open_storage config number there = opened_at (get config data_dir) number there
