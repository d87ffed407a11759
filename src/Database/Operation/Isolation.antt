-- ===== src/Database/Operation/Isolation.antt =====
-- include/database/{Reader,Writer}.hpp and source/database/{Reader,Writer}.cpp: any number of read
-- and write operations on one database, in any order that the mutex allows.
use zatestil.Prelude.{
  ℕ, ◌-◌, ◌≡◌, refl, sym, ap, ◌⊎◌, inl, inr, true, false, List, [], ◌∷◌, ◌++◌, arith, ok,
  All-middle, All-map, total-middle, Bool-cases,
}
use mathlib.Core.Path.{subst}
use zatestil.Util.Result.{Result, is_ok}
use zatestil.Database.Mdbx.{Mdbx, Laws}
use zatestil.Database.Operation.{
  shared_lock, unique_lock, Database, Reader, next_operation_id, destroy,
}
use zatestil.Database.Operation.Lifecycle.{outcome}
use zatestil.Database.Operation.Interleaving.{
  System, Step, open_reader, open_writer, work, close, Reach, start, later,
}
use zatestil.Database.Operation.Invariant.{
  shares, owns, writers, alone, OperationInv, Inv, IsReading, IsWriting, kinds, LockInv-env,
  Inv-open_reader, Inv-open_writer, Inv-work,
}

module _ {m : Mdbx} where
  -- The destructors of the two kinds, on a database in any state.
  pub destroy_reading :
      (r : Reader m) (db : Database m)
      → r.is_open ≡ true
      → r.lock ≡ shared_lock true
      → destroy r db
        ≡ ok (
          record r { is_open = false; lock = shared_lock false },
          record {
            env = outcome m db.env r.txn r.result;
            mutex = record db.mutex { readers = db.mutex.readers - 1 };
          },
        )
  unfolding destroy
  destroy_reading r db e l = ground arith

  pub destroy_writing :
      (r : Reader m) (db : Database m)
      → r.is_open ≡ true
      → r.lock ≡ unique_lock true
      → destroy r db
        ≡ ok (
          record r { is_open = false; lock = unique_lock false },
          record {
            env = outcome m db.env r.txn r.result;
            mutex = record db.mutex { writer = false };
          },
        )
  unfolding destroy
  destroy_writing r db e l = ground arith

module _ {m : Mdbx} (laws : Laws m) where
  pub reading_outcome :
      (env : m.Env) (txn : m.Txn) (result : Result)
      → laws.writable txn ≡ false
      → (p : ℕ) → laws.stored (outcome m env txn result) p ≡ laws.stored env p
  reading_outcome env txn result w p = elim (Bool-cases (is_ok result)) [
    | inl good ↦ rw good (laws.commit-read env txn p w)
    | inr bad ↦ rw bad (laws.abort-stored env txn p)
  ]

  -- The others, once an operation of each kind is over.
  Inv-close_reading :
      {db : Database m} (pre : List (Reader m)) (r : Reader m) (post : List (Reader m))
      → IsReading laws db.env r.txn r.lock
      → Inv laws db (pre ++ r ∷ post)
      → Inv laws
          (record {
            env = outcome m db.env r.txn r.result;
            mutex = record db.mutex { readers = db.mutex.readers - 1 };
          })
          (pre ++ post)
  Inv-close_reading {db} pre r post kind inv = record {
    counted =
        omega (arith, inv.counted, total-middle (λ x. shares x.lock) pre r post, ap shares kind.0);
    exclusive =
        omega (arith, inv.exclusive, total-middle (λ x. owns x.lock) pre r post, ap owns kind.0);
    apart = λ w. omega (arith, inv.apart w);
    each =
        All-map (OperationInv laws db.env) (OperationInv laws (outcome m db.env r.txn r.result))
          (λ x i. (
            i.0,
            LockInv-env laws db.env _ (reading_outcome db.env r.txn r.result kind.1) x.txn x.lock
                i.1,
          ))
          (pre ++ post) (All-middle (OperationInv laws db.env) pre r post inv.each).1;
  }

  pub sole_writer :
      {db : Database m} (pre : List (Reader m)) (r : Reader m) (post : List (Reader m))
      → r.lock ≡ unique_lock true
      → Inv laws db (pre ++ r ∷ post)
      → (db.mutex.readers ≡ 0) × (pre ++ post ≡ [])
  sole_writer {db} pre r post excl inv =
      let ours = total-middle (λ x. owns x.lock) pre r post in
      let theirs = total-middle (λ x. shares x.lock) pre r post in
      elim (Bool-cases db.mutex.writer) [
        | inl taken ↦
            let one : writers (pre ++ r ∷ post) ≡ 1 = rw taken at inv.exclusive in
            (
              inv.apart taken,
              alone (pre ++ post) (omega (arith, inv.counted, inv.apart taken, theirs))
                  (omega (arith, one, ours, ap owns excl)),
            )
        | inr untaken ↦
            let zero_writers : writers (pre ++ r ∷ post) ≡ 0 = rw untaken at inv.exclusive in
            absurd (omega (arith, zero_writers, ours, ap owns excl))
      ]

  Inv-close_writing :
      {db : Database m} (pre : List (Reader m)) (r : Reader m) (post : List (Reader m))
      → IsWriting laws r.txn r.lock
      → Inv laws db (pre ++ r ∷ post)
      → Inv laws
          (record {
            env = outcome m db.env r.txn r.result;
            mutex = record db.mutex { writer = false };
          })
          (pre ++ post)
  Inv-close_writing {db} pre r post kind inv =
      let (none_reads, quiet) = sole_writer pre r post kind.0 inv in
      rw quiet (record {
        counted = sym none_reads;
        exclusive = refl;
        apart = λ w. absurd (cc w);
        each = tt;
      })

  pub Inv-close :
      {db db' : Database m} (pre : List (Reader m)) (r : Reader m) (post : List (Reader m))
      {closed : Reader m}
      → destroy r db ≡ ok (closed, db')
      → Inv laws db (pre ++ r ∷ post)
      → Inv laws db' (pre ++ post)
  Inv-close {db} {db'} pre r post e inv =
      let here = (All-middle (OperationInv laws db.env) pre r post inv.each).0 in
      elim (kinds laws db.env r.txn r.lock here.1) [
        | inl reads ↦
            subst (λ d. Inv laws d (pre ++ post)) (cc (destroy_reading r db here.0 reads.0))
              (Inv-close_reading pre r post reads inv)
        | inr writes ↦
            subst (λ d. Inv laws d (pre ++ post)) (cc (destroy_writing r db here.0 writes.0))
              (Inv-close_writing pre r post writes inv)
      ]

  Step-Inv :
      {s t : System m}
      → Step laws s t
      → Inv laws s.database s.operations
      → Inv laws t.database t.operations
  Step-Inv {s} (open_reader e) inv =
      Inv-open_reader laws (next_operation_id s.operation_id) s.operations e inv
  Step-Inv {s} (open_writer e) inv =
      Inv-open_writer laws (next_operation_id s.operation_id) s.operations e inv
  Step-Inv {s} (work pre r post txn result e may) inv =
      Inv-work laws pre r post txn result may (rw e at inv)
  Step-Inv {s} (close pre r post e d) inv = Inv-close pre r post d (rw e at inv)

  pub Reach-Inv : {env : m.Env} {s : System m} → Reach laws env s → Inv laws s.database s.operations
  Reach-Inv (start number) = record {
    counted = refl;
    exclusive = refl;
    apart = λ w. refl;
    each = tt;
  }
  Reach-Inv (later r st) = Step-Inv st (Reach-Inv r)

  -- By the laws of libmdbx, in every interleaving of operations on one database, an open operation
  -- either is a read, and sees in every map exactly the rows on disk, or is a write, and is the only
  -- open operation. In both cases its destructor throws nothing.
  pub isolation :
      {env : m.Env} {s : System m}
      → Reach laws env s
      → (pre : List (Reader m)) (r : Reader m) (post : List (Reader m))
      → s.operations ≡ pre ++ r ∷ post
      → (((r.lock ≡ shared_lock true)
            × ((p : ℕ) → laws.rows r.txn p ≡ laws.stored s.database.env p))
          ⊎ ((r.lock ≡ unique_lock true) × (pre ++ post ≡ [])))
        × ((q : Reader m × Database m) × (destroy r s.database ≡ ok q))
  isolation {s = s} reached pre r post e =
      let inv = rw e at (Reach-Inv reached) in
      let here = (All-middle (OperationInv laws s.database.env) pre r post inv.each).0 in
      elim (kinds laws s.database.env r.txn r.lock here.1) [
        | inl reads ↦ (inl (reads.0, reads.2), (_, destroy_reading r s.database here.0 reads.0))
        | inr writes ↦ (
          inr (writes.0, (sole_writer pre r post writes.0 inv).1),
          (_, destroy_writing r s.database here.0 writes.0),
        )
      ]
