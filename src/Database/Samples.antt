-- ===== src/Database/Samples.antt =====
-- A database in memory with two rows in map 0, and operations on it, for the tests.
use zatestil.Prelude.{ℕ, refl, true, false, [], ◌∷◌, Attempt, ok, throw, Bytes, bytes_lt}
use zatestil.Serde.{Yas, IsFaithful}
use zatestil.Util.Result.{succeeded}
use zatestil.Database.Id.{id_0}
use zatestil.Database.Rows.{IsSorted, Rows}
use zatestil.Database.Memory.{Shelves, memory}
use zatestil.Database.Operation.{Database, Reader, shared_lock, unique_lock}
use zatestil.Database.Table.{Table}

abbrev pub two_rows : Rows
two_rows = record { key = 5 ∷ []; value = 50 ∷ [] } ∷ record { key = 7 ∷ []; value = 70 ∷ [] } ∷ []

pub two_rows-IsSorted : IsSorted two_rows
unfolding bytes_lt
two_rows-IsSorted = ((refl, tt), (tt, tt))

abbrev pub disk : Shelves
disk _ = record { held = two_rows; sorted = two_rows-IsSorted }

abbrev pub idle_database : Database memory
idle_database = record { env = disk; mutex = record { readers = 0; writer = false } }

abbrev pub foo : Table
foo = record { db = id_0; table = id_0; name = "foo"; handle = 0 }

abbrev pub writer : Reader memory
writer = record {
  id = 1;
  txn = record { shelves = disk; can_write = true };
  is_open = true;
  lock = unique_lock true;
  result = succeeded;
}

abbrev pub reader : Reader memory
reader = record {
  id = 2;
  txn = record { shelves = disk; can_write = false };
  is_open = true;
  lock = shared_lock true;
  result = succeeded;
}

abbrev pub first_byte : Bytes → Attempt ℕ
first_byte [] = throw "no byte"
first_byte (b ∷ bs) = ok b

-- Values are single bytes.
abbrev pub byte_yas : Yas ℕ
byte_yas = record {
  initial = 0;
  save_binary = λ v. v ∷ [];
  load_binary = λ _ b. first_byte b;
  save_json = λ v. v ∷ [];
  load_json = λ _ b. first_byte b;
}

pub byte_yas-IsFaithful : IsFaithful byte_yas
byte_yas-IsFaithful = record { binary_back = λ v w. refl; json_back = λ v w. refl }
