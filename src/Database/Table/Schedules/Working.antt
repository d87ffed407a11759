-- ===== src/Database/Table/Schedules/Working.antt =====
-- include/database/{Table,Reader,Writer}.hpp: the invariant of interleaved
-- transactions on one table holds while operations open and work.
use mathlib.Core.Path.{subst}
use mathlib.Core.List.{map-append}
use zatestil.Prelude.{◌≡◌, sym, ap, ◌∙◌, List, ◌∷◌, ◌++◌, map, some, All, All-middle, All-insert}
use zatestil.Database.Mdbx.{Mdbx, Laws}
use zatestil.Database.Operation.{Database, Reader, next_operation_id, make_reader, make_writer}
use zatestil.Database.Operation.Invariant.{
  Inv, OperationInv, Inv-open_reader, Inv-open_writer, Inv-work,
}
use zatestil.Database.Operation.Lifecycle.{make_reader-eq-some, make_writer-eq-some}
use zatestil.Database.Table.{Table}
use zatestil.Database.Table.Commands.{Command, KeyMap, perform}
use zatestil.Database.Table.Refinement.{view, perform_refines}
use zatestil.Database.Table.Transactions.{view_of}
use zatestil.Database.Table.Schedules.Invariant.{
  JobInv, RunInv, disk, opened-JobInv, called-JobInv, call_writable, call-MayBecome,
}
use zatestil.Database.Table.Schedules.{Job, Run, MayCall, opened, called, IsSerial}

-- The operations of the jobs, around one of them.
pub ops-append :
    {m : Mdbx} (pre : List (Job m)) (j : Job m) (post : List (Job m))
    → map (λ j. j.op) (pre ++ j ∷ post) ≡ map (λ j. j.op) pre ++ j.op ∷ map (λ j. j.op) post
ops-append pre j post = map-append (λ j. j.op) pre (j ∷ post)

module _ {m : Mdbx} (laws : Laws m) (t : Table) where
  open laws use {stored, rows}

  pub opens_reader-RunInv :
      {f : KeyMap} (s : Run m) {r : Reader m} {db : Database m}
      → make_reader (next_operation_id s.operation_id) s.database ≡ some (r, db)
      → RunInv laws t f s
      → RunInv laws t f (record s {
        database = db;
        jobs = opened r ∷ s.jobs;
        operation_id = next_operation_id s.operation_id;
      })
  opens_reader-RunInv {f} s {r} {db} e inv =
      let (_, made, held) = make_reader-eq-some (next_operation_id s.operation_id) s.database e in
      let env : db.env ≡ s.database.env = ap (λ d. d.env) held in
      let new =
        opened-JobInv laws t s.database.env r
          (ap (view laws t) made ∙ ap view_of (laws.start_read-rows s.database.env t.handle))
          (ap (λ x. x.result) made) in
      record {
        operations =
            Inv-open_reader laws (next_operation_id s.operation_id) (map (λ j. j.op) s.jobs) e
              inv.operations;
        each =
            subst (λ x. All (JobInv laws t (disk laws t x)) (opened r ∷ s.jobs)) (sym env)
              (new, inv.each);
        serial = subst (λ x. IsSerial s.history f (disk laws t x)) (sym env) inv.serial;
      }

  pub opens_writer-RunInv :
      {f : KeyMap} (s : Run m) {r : Reader m} {db : Database m}
      → make_writer (next_operation_id s.operation_id) s.database ≡ some (r, db)
      → RunInv laws t f s
      → RunInv laws t f (record s {
        database = db;
        jobs = opened r ∷ s.jobs;
        operation_id = next_operation_id s.operation_id;
      })
  opens_writer-RunInv {f} s {r} {db} e inv =
      let (_, _, made, held) =
        make_writer-eq-some (next_operation_id s.operation_id) s.database e in
      let env : db.env ≡ s.database.env = ap (λ d. d.env) held in
      let new =
        opened-JobInv laws t s.database.env r
          (ap (view laws t) made ∙ ap view_of (laws.start_write-rows s.database.env t.handle))
          (ap (λ x. x.result) made) in
      record {
        operations =
            Inv-open_writer laws (next_operation_id s.operation_id) (map (λ j. j.op) s.jobs) e
              inv.operations;
        each =
            subst (λ x. All (JobInv laws t (disk laws t x)) (opened r ∷ s.jobs)) (sym env)
              (new, inv.each);
        serial = subst (λ x. IsSerial s.history f (disk laws t x)) (sym env) inv.serial;
      }

  pub calls-RunInv :
      {f : KeyMap} (s : Run m) (pre : List (Job m)) (j : Job m) (post : List (Job m)) (c : Command)
      → s.jobs ≡ pre ++ j ∷ post
      → MayCall j.op.lock c
      → RunInv laws t f s
      → RunInv laws t f (record s { jobs = pre ++ called t j c ∷ post })
  calls-RunInv s pre j post c e may inv =
      let ops =
        subst (Inv laws s.database) (ap (map (λ j. j.op)) e ∙ ops-append pre j post)
          inv.operations in
      let here =
        (All-middle (OperationInv laws s.database.env) (map (λ j. j.op) pre) j.op
          (map (λ j. j.op) post) ops.each).0 in
      let (job, others) =
        All-middle (JobInv laws t (disk laws t s.database.env)) pre j post
          (subst (All (JobInv laws t (disk laws t s.database.env))) e inv.each) in
      let writer = call_writable laws t s.database.env j.op c here may in
      record {
        operations = subst (Inv laws s.database) (sym (ops-append pre (called t j c) post)) (
            subst (λ o. Inv laws s.database (map (λ j. j.op) pre ++ o ∷ map (λ j. j.op) post))
              (sym (perform_refines laws t j.op c writer).0.only)
              (Inv-work laws (map (λ j. j.op) pre) j.op (map (λ j. j.op) post)
                (perform t j.op c).0.txn (perform t j.op c).0.result
                (call-MayBecome laws t s.database.env j.op c here may) ops));
        each =
            All-insert (JobInv laws t (disk laws t s.database.env)) pre (called t j c) post
              (called-JobInv laws t (disk laws t s.database.env) j c writer job) others;
        serial = inv.serial;
      }
