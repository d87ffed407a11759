-- ===== src/Database/Operation/Lifecycle.antt =====
-- source/database/{Reader,Writer,Database}.cpp: an operation from its constructor to its destructor.
use Prim.Native.String.{String}
use zatestil.Prelude.{
  ℕ, ◌+◌, ◌<◌, ◌≡◌, refl, ◌∙◌, ◌⊎◌, true, false, none, some, arith, if◌then◌else◌, ok, Bool-cases,
  inl, inr,
}
use zatestil.Util.Result.{Result, succeeded, is_ok}
use zatestil.Database.Mdbx.{Mdbx, Laws}
use zatestil.Database.Operation.{
  shared_lock, unique_lock, Database, Reader, make_reader, make_writer, destroy, open_table,
}

-- What the destructor leaves on disk: the transaction, or nothing of it.
abbrev pub outcome : (m : Mdbx) → m.Env → m.Txn → Result → m.Env
outcome m env txn result = if is_ok result then m.commit env txn else m.abort env txn

-- The writer and the locked database that a call of `make_writer` may yield, and when.
pub make_writer-eq-some :
    {m : Mdbx} (number : ℕ) (db : Database m) {w : Reader m} {locked : Database m}
    → make_writer number db ≡ some (w, locked)
    → (db.mutex.writer ≡ false)
      × (db.mutex.readers ≡ 0)
      × (w ≡ record {
        id = number;
        txn = m.start_write db.env;
        is_open = true;
        lock = unique_lock true;
        result = succeeded;
      })
      × (locked ≡ record db { mutex = record { readers = 0; writer = true } })
unfolding make_writer
make_writer-eq-some number db e = ground arith

pub make_reader-eq-some :
    {m : Mdbx} (number : ℕ) (db : Database m) {r : Reader m} {locked : Database m}
    → make_reader number db ≡ some (r, locked)
    → (db.mutex.writer ≡ false)
      × (r ≡ record {
        id = number;
        txn = m.start_read db.env;
        is_open = true;
        lock = shared_lock true;
        result = succeeded;
      })
      × (locked ≡ record db { mutex = record { readers = db.mutex.readers + 1; writer = false } })
unfolding make_reader
make_reader-eq-some number db e = ground arith

module _ {m : Mdbx} (number : ℕ) (db locked : Database m) (w : Reader m) where
  -- Whatever a writer did to its transaction and its result, its destructor throws nothing, commits
  -- if and only if the result is a success and aborts otherwise, and leaves the mutex as it was
  -- before the constructor.
  pub destroy-make_writer :
      (txn : m.Txn) (result : Result)
      → make_writer number db ≡ some (w, locked)
      → destroy (record w { txn = txn; result = result }) locked
        ≡ ok (
          record w { txn = txn; result = result; is_open = false; lock = unique_lock false },
          record { env = outcome m db.env txn result; mutex = db.mutex },
        )
  unfolding destroy
  destroy-make_writer txn result e =
      let (free, none_reads, made, held) = make_writer-eq-some number db e in
      rw (made, held) (ground arith)

  -- The same for a reader, on the shared side of the mutex.
  pub destroy-make_reader :
      (txn : m.Txn) (result : Result)
      → make_reader number db ≡ some (w, locked)
      → destroy (record w { txn = txn; result = result }) locked
        ≡ ok (
          record w { txn = txn; result = result; is_open = false; lock = shared_lock false },
          record { env = outcome m db.env txn result; mutex = db.mutex },
        )
  unfolding destroy
  destroy-make_reader txn result e =
      let (free, made, held) = make_reader-eq-some number db e in rw (made, held) (ground arith)

module _ {m : Mdbx} (laws : Laws m) (number : ℕ) (db locked : Database m) (w : Reader m) where
  open laws use {stored, writable, rows, commit-write, commit-read, abort-stored, create_map-rows}
  open laws use {create_map-writable, start_write-rows, start_write-writable}

  -- By the laws of libmdbx, a write operation is atomic. Whatever its writable transaction and its
  -- result have become, the destructor of a writer throws nothing, gives the mutex back as the
  -- constructor found it, and leaves on disk all the rows of the transaction, if the result is a
  -- success, and exactly the rows from before otherwise.
  pub writer_atomic :
      (txn : m.Txn) (result : Result)
      → make_writer number db ≡ some (w, locked)
      → writable txn ≡ true
      → (closed : Reader m) × (after : Database m) × (destroy
            (record w { txn = txn; result = result })
            locked
          ≡ ok (closed, after))
        × (after.mutex ≡ db.mutex)
        × ((p : ℕ) → stored after.env p ≡ (if is_ok result then rows txn p else stored db.env p))
  writer_atomic txn result e wr = (
    _,
    _,
    destroy-make_writer number db locked w txn result e,
    refl,
    λ p. elim (Bool-cases (is_ok result)) [
      | inl good ↦ rw good (commit-write db.env txn p wr)
      | inr bad ↦ rw bad (abort-stored db.env txn p)
    ],
  )

  -- By the laws of libmdbx, the destructor of a reader, whose transaction is not writable, throws
  -- nothing, gives its share of the mutex back, and changes nothing on disk, whatever its result.
  pub reader_harmless :
      (txn : m.Txn) (result : Result)
      → make_reader number db ≡ some (w, locked)
      → writable txn ≡ false
      → (closed : Reader m) × (after : Database m) × (destroy
            (record w { txn = txn; result = result })
            locked
          ≡ ok (closed, after))
        × (after.mutex ≡ db.mutex)
        × ((p : ℕ) → stored after.env p ≡ stored db.env p)
  reader_harmless txn result e wr = (
    _,
    _,
    destroy-make_reader number db locked w txn result e,
    refl,
    λ p. elim (Bool-cases (is_ok result)) [
      | inl good ↦ rw good (commit-read db.env txn p wr)
      | inr bad ↦ rw bad (abort-stored db.env txn p)
    ],
  )

module _ {m : Mdbx} (laws : Laws m) (number : ℕ) (name : String) (db : Database m) where
  open laws use {stored, commit-write, create_map-rows, create_map-writable, start_write-rows}
  open laws use {start_write-writable}

  -- By the laws of libmdbx, opening a table of a database that nobody uses yields the map that
  -- libmdbx creates, throws nothing although `commit` runs a second time in the destructor of the
  -- writer, gives the mutex back, and changes no rows.
  pub open_table_lem :
      (db.mutex.writer ≡ false)
      → (db.mutex.readers ≡ 0)
      → (after : Database m) × (open_table number name db
          ≡ some (ok ((m.create_map (m.start_write db.env) name).1, after)))
        × (after.mutex ≡ db.mutex)
        × ((p : ℕ) → stored after.env p ≡ stored db.env p)
  unfolding open_table
  open_table_lem free none_reads = (
    record { env = m.commit db.env (m.create_map (m.start_write db.env) name).0; mutex = db.mutex },
    ground arith,
    refl,
    λ p.
        commit-write db.env (m.create_map (m.start_write db.env) name).0 p
          (create_map-writable (m.start_write db.env) name ∙ start_write-writable db.env)
        ∙ create_map-rows (m.start_write db.env) name p
        ∙ start_write-rows db.env p,
  )

  -- While somebody uses the database, opening a table waits.
  open_table_waits :
      (db.mutex.writer ≡ true) ⊎ (0 < db.mutex.readers) → open_table number name db ≡ none
  unfolding open_table
  open_table_waits busy = ground arith
