-- ===== src/Database/Table/Serializability.antt =====
-- include/database/{Table,Reader,Writer}.hpp: interleaved transactions on one
-- table are as good as transactions one after the other.
use mathlib.Core.Path.{subst}
use mathlib.Core.List.{map-append}
use zatestil.Prelude.{
  ℕ, ◌≡◌, refl, sym, ap, ◌∙◌, Bool, true, false, List, [], ◌∷◌, ◌++◌, map, if◌then◌else◌, ok, All,
  All-middle, All-map, inl, inr, Bool-cases,
}
use zatestil.Util.Result.{Result, is_ok}
use zatestil.Database.Mdbx.{Mdbx, Laws}
use zatestil.Database.Operation.{Database, Reader, destroy}
use zatestil.Database.Operation.Invariant.{Inv, OperationInv, kinds, IsReading}
use zatestil.Database.Operation.Lifecycle.{outcome}
use zatestil.Database.Operation.Isolation.{
  destroy_reading, destroy_writing, reading_outcome, sole_writer, Inv-close,
}
use zatestil.Database.Table.{Table}
use zatestil.Database.Table.Commands.{accepted, KeyMap, replay}
use zatestil.Database.Table.Transactions.{view_of, disk_view}
use zatestil.Database.Table.Schedules.Invariant.{JobInv, RunInv, disk, IsSerial-snoc}
use zatestil.Database.Table.Schedules.Working.{
  ops-append, opens_reader-RunInv, opens_writer-RunInv, calls-RunInv,
}
use zatestil.Database.Table.Schedules.{
  Job, Run, Step, opens_reader, opens_writer, calls, closes, Reach, start, later, committed,
  IsSerial,
}

same_if : (b : Bool) (f g : KeyMap) → f ≡ g → (if b then f else g) ≡ g
same_if true f g e = e
same_if false f g e = refl

map-nil : {A B : Type 0} (h : A → B) (xs : List A) → map h xs ≡ [] → xs ≡ []
map-nil h [] e = refl
map-nil h (x ∷ xs) e = absurd (cc e)

module _ {m : Mdbx} (laws : Laws m) (t : Table) where
  open laws use {stored, rows}

  -- What the destructor of a writer leaves on disk.
  writing_outcome :
      (env : m.Env) (txn : m.Txn) (result : Result)
      → laws.writable txn ≡ true
      → (p : ℕ)
      → stored (outcome m env txn result) p ≡ (if is_ok result then rows txn p else stored env p)
  writing_outcome env txn result w p = elim (Bool-cases (is_ok result)) [
    | inl good ↦ rw good (laws.commit-write env txn p w)
    | inr bad ↦ rw bad (laws.abort-stored env txn p)
  ]

  -- The disk after a job is the one that its calls commit.
  disk-reading :
      (env : m.Env) (j : Job m)
      → JobInv laws t (disk laws t env) j
      → IsReading laws env j.op.txn j.op.lock
      → (disk laws t (outcome m env j.op.txn j.op.result) ≡ disk laws t env)
        × (committed j.calls (disk laws t env) ≡ disk laws t env)
  disk-reading env j inv reading = (
    ap view_of (reading_outcome laws env j.op.txn j.op.result reading.1 t.handle),
    same_if (accepted (replay j.calls (disk laws t env)).1) _ _
        (sym inv.shows ∙ ap view_of (reading.2 t.handle)),
  )

  disk-writing :
      (env : m.Env) (j : Job m)
      → JobInv laws t (disk laws t env) j
      → laws.writable j.op.txn ≡ true
      → disk laws t (outcome m env j.op.txn j.op.result) ≡ committed j.calls (disk laws t env)
  disk-writing env j inv writes =
      ap view_of (writing_outcome env j.op.txn j.op.result writes t.handle)
      ∙ disk_view (is_ok j.op.result) (accepted (replay j.calls (disk laws t env)).1) _ _ _
          (inv.good ∙ ap accepted inv.told) inv.shows

  -- The environment after a destructor, by what the destructor is.
  closed-env :
      (r : Reader m) (db : Database m) {closed closed' : Reader m} {after after' : Database m}
      → destroy r db ≡ ok (closed, after)
      → destroy r db ≡ ok (closed', after')
      → after.env ≡ after'.env
  closed-env r db {after = after} {after' = after'} d e =
      let same : after ≡ after' = cc (d, e) in ap (λ q. q.env) same

  closes-RunInv :
      {f : KeyMap} (s : Run m) (pre : List (Job m)) (j : Job m) (post : List (Job m))
      {closed : Reader m} {db : Database m}
      → s.jobs ≡ pre ++ j ∷ post
      → destroy j.op s.database ≡ ok (closed, db)
      → RunInv laws t f s
      → RunInv laws t f (record s {
        database = db;
        jobs = pre ++ post;
        history = s.history ++ (j.calls, j.replies) ∷ [];
      })
  closes-RunInv {f} s pre j post {db = db} e d inv =
      let env = s.database.env in
      let ops =
        subst (Inv laws s.database) (ap (map (λ j. j.op)) e ∙ ops-append pre j post)
          inv.operations in
      let here =
        (All-middle (OperationInv laws env) (map (λ j. j.op) pre) j.op (map (λ j. j.op) post)
          ops.each).0 in
      let (job, others) =
        All-middle (JobInv laws t (disk laws t env)) pre j post
          (subst (All (JobInv laws t (disk laws t env))) e inv.each) in
      let now =
        subst (Inv laws db) (sym (map-append (λ j. j.op) pre post))
          (Inv-close laws (map (λ j. j.op) pre) j.op (map (λ j. j.op) post) d ops) in
      let told =
        IsSerial-snoc s.history j.calls j.replies f (disk laws t env) inv.serial job.told in
      elim (kinds laws env j.op.txn j.op.lock here.1) [
        | inl reading ↦
            let (same, alone) = disk-reading env j job reading in
            let after : disk laws t db.env ≡ disk laws t env =
              ap (disk laws t)
                (closed-env j.op s.database d (destroy_reading j.op s.database here.0 reading.0))
              ∙ same in
            record {
              operations = now;
              each = subst (λ g. All (JobInv laws t g) (pre ++ post)) (sym after) others;
              serial =
                  subst (IsSerial (s.history ++ (j.calls, j.replies) ∷ []) f) (alone ∙ sym after)
                    told;
            }
        | inr writing ↦
            let after : disk laws t db.env ≡ committed j.calls (disk laws t env) =
              ap (disk laws t)
                (closed-env j.op s.database d (destroy_writing j.op s.database here.0 writing.0))
              ∙ disk-writing env j job writing.1 in
            let quiet : pre ++ post ≡ [] =
              map-nil (λ j. j.op) (pre ++ post)
                (map-append (λ j. j.op) pre post
                  ∙ (sole_writer laws (map (λ j. j.op) pre) j.op (map (λ j. j.op) post) writing.0
                      ops).1) in
            record {
              operations = now;
              each = subst (All (JobInv laws t (disk laws t db.env))) (sym quiet) tt;
              serial = subst (IsSerial (s.history ++ (j.calls, j.replies) ∷ []) f) (sym after) told;
            }
      ]

  Step-RunInv : {f : KeyMap} {s u : Run m} → Step t s u → RunInv laws t f s → RunInv laws t f u
  Step-RunInv {s = s} (opens_reader e) inv = opens_reader-RunInv laws t s e inv
  Step-RunInv {s = s} (opens_writer e) inv = opens_writer-RunInv laws t s e inv
  Step-RunInv {s = s} (calls pre j post c e may) inv = calls-RunInv laws t s pre j post c e may inv
  Step-RunInv {s = s} (closes pre j post e d) inv = closes-RunInv s pre j post e d inv

  Reach-RunInv : {env : m.Env} {s : Run m} → Reach t env s → RunInv laws t (disk laws t env) s
  Reach-RunInv (start number) = record {
    operations = record { counted = refl; exclusive = refl; apart = λ w. refl; each = tt };
    each = tt;
    serial = refl;
  }
  Reach-RunInv (later r st) = Step-RunInv st (Reach-RunInv r)

  -- By the laws of libmdbx, transactions on one table are serializable. However the calls of any number of
  -- open operations interleave, the operations that are over have replied, and have left the table,
  -- as if each had run alone, one after the other in the order in which they were closed, where a
  -- transaction with a refused call leaves nothing. An operation that is still open has replied as if it had run
  -- alone after them.
  pub serializability :
      {env : m.Env} {s : Run m}
      → Reach t env s
      → IsSerial s.history
          (view_of (stored env t.handle))
          (view_of (stored s.database.env t.handle))
        × All
            (λ (j : Job m).
              j.replies ≡ (replay j.calls (view_of (stored s.database.env t.handle))).1)
            s.jobs
  serializability {env} {s} r =
      let inv = Reach-RunInv r in
      (
        inv.serial,
        All-map (JobInv laws t (disk laws t s.database.env))
            (λ j. j.replies ≡ (replay j.calls (disk laws t s.database.env)).1) (λ j i. i.told)
            s.jobs inv.each,
      )
