-- ===== src/Database/Operation.antt =====
-- include/database/{Reader,Writer,Database}.hpp and source/database/{Reader,Writer,Database}.cpp:
-- the life of a read or write operation on one database. A `Reader` and a `Writer` are one record;
-- the lock it holds tells them apart. `std::shared_mutex` is modelled by who holds it.
pub mod Lifecycle
pub mod Interleaving
pub mod Invariant
pub mod Isolation
use Prim.Native.String.{String}
use zatestil.Prelude.{
  ℕ, ◌+◌, ◌-◌, ◌%◌, ◌^◌, Bool, true, false, Option, none, some, ◌==◌, if◌then◌else◌, Attempt, ok,
  throw, ◌>>=◌,
}
use zatestil.Util.Result.{Result, succeeded, is_ok}
use zatestil.Database.Mdbx.{Mdbx}

-- `std::shared_mutex`: the number of shared owners, and whether there is an exclusive one.
pub record SharedMutex : Type 0 where
  pub readers : ℕ
  pub writer : Bool

-- `std::variant<SharedLock, UniqueLock>`, each with whether it owns the mutex.
pub data Lock : Type 0 where
  shared_lock : Bool → Lock
  unique_lock : Bool → Lock

-- `SharedLock {mutex}` and `UniqueLock {mutex}`: `none` is a call that has to wait.
unfoldable pub lock_shared : SharedMutex → Option SharedMutex
lock_shared x = if x.writer then none else some (record x { readers = x.readers + 1 })

unfoldable pub lock_unique : SharedMutex → Option SharedMutex
lock_unique x =
    if x.writer then none else if x.readers == 0 then some (record x { writer = true }) else none

pub record Database (m : Mdbx) : Type 0 where
  pub env : m.Env
  pub mutex : SharedMutex

pub record Reader (m : Mdbx) : Type 0 where
  pub id : ℕ
  pub txn : m.Txn
  pub is_open : Bool
  pub lock : Lock
  pub result : Result

-- `++operation_id` on a `std::atomic_uint64_t`.
unfoldable pub next_operation_id : ℕ → ℕ
next_operation_id n = (n + 1) % 2 ^ 64

-- `unlock` of a lock that owns nothing throws `std::system_error`.
release : Lock → SharedMutex → Attempt (Lock × SharedMutex)
release (unique_lock true) x = ok (unique_lock false, record x { writer = false })
release (shared_lock true) x = ok (shared_lock false, record x { readers = x.readers - 1 })
release _ x = throw "Operation not permitted"

-- `Database::Database`, over the environment that libmdbx has opened.
abbrev pub opened_database : {m : Mdbx} → m.Env → Database m
opened_database env = record { env = env; mutex = record { readers = 0; writer = false } }

module _ {m : Mdbx} where
  -- `Reader(Database<id>&)`, with the number of the operation.
  unfoldable pub make_reader : ℕ → Database m → Option (Reader m × Database m)
  unfolding lock_shared
  make_reader number db = elim (lock_shared db.mutex) [
    | none ↦ none
    | some held ↦ some (
      record {
        id = number;
        txn = m.start_read db.env;
        is_open = true;
        lock = shared_lock true;
        result = succeeded;
      },
      record db { mutex = held },
    )
  ]

  -- `Writer(Database<id>&)`
  unfoldable pub make_writer : ℕ → Database m → Option (Reader m × Database m)
  unfolding lock_unique
  make_writer number db = elim (lock_unique db.mutex) [
    | none ↦ none
    | some held ↦ some (
      record {
        id = number;
        txn = m.start_write db.env;
        is_open = true;
        lock = unique_lock true;
        result = succeeded;
      },
      record db { mutex = held },
    )
  ]

  -- `Reader<id>::unlock`
  pub unlock : Reader m → Database m → Attempt (Reader m × Database m)
  unfolding release
  unlock r db = do
    (lock, mutex) ← release r.lock db.mutex
    ok (record r { lock = lock }, record db { mutex = mutex })

  -- `Reader<id>::commit`
  pub commit : Reader m → Database m → Attempt (Reader m × Database m)
  unfolding unlock
  commit r db =
      if r.is_open
      then unlock (record r { is_open = false }) (record db { env = m.commit db.env r.txn })
      else ok (r, db)

  -- `Reader<id>::abort`, which leaves `m_isOpen` to the destructor.
  pub abort : Reader m → Database m → Attempt (Reader m × Database m)
  unfolding unlock
  abort r db = if r.is_open then unlock r (record db { env = m.abort db.env r.txn }) else ok (r, db)

  -- `~Reader`
  pub destroy : Reader m → Database m → Attempt (Reader m × Database m)
  unfolding commit abort is_ok
  destroy r db = do
    (r', db') ← (if is_ok r.result then commit r db else abort r db)
    ok (record r' { is_open = false }, db')

  -- `operator<<`
  pub set_result : Reader m → Result → Reader m
  set_result r result = record r { result = result }

  -- `Database<id>::openTable` up to the `Table`: the map's number, and the database after the
  -- destructor of the local `Writer`.
  pub open_table : ℕ → String → Database m → Option (Attempt (ℕ × Database m))
  unfolding make_writer commit destroy
  open_table number name db = elim (make_writer number db) [
    | none ↦ none
    | some (w, locked) ↦ some (do
      let (txn, handle) = m.create_map w.txn name
      (w', written) ← commit (record w { txn = txn }) locked
      (w'', closed) ← destroy w' written
      ok (handle, closed))
  ]
