-- ===== src/Database/Table/Transactions.antt =====
-- include/database/{Table,Writer}.hpp: a transaction on one table, from the constructor of its writer
-- to the destructor.
use zatestil.Prelude.{ℕ, ◌≡◌, refl, ap, ◌∙◌, Bool, true, false, ◌&&◌, some, List, if◌then◌else◌, ok}
use zatestil.Util.Result.{is_ok}
use zatestil.Database.Rows.{Rows, lookup}
use zatestil.Database.Mdbx.{Mdbx, Laws}
use zatestil.Database.Operation.{Database, Reader, make_writer, destroy}
use zatestil.Database.Operation.Lifecycle.{make_writer-eq-some, writer_atomic}
use zatestil.Database.Table.{Table}
use zatestil.Database.Table.Commands.{Command, accepted, KeyMap, replay, run}
use zatestil.Database.Table.Refinement.{view, run_on}

abbrev pub view_of : Rows → KeyMap
view_of rs k = lookup k rs

pub disk_view :
    (good accept : Bool) (new old : Rows) (f : KeyMap)
    → good ≡ accept
    → view_of new ≡ f
    → view_of (if good then new else old) ≡ (if accept then f else view_of old)
disk_view true true new old f e g = g
disk_view false false new old f e g = refl
disk_view true false new old f e g = absurd (cc e)
disk_view false true new old f e g = absurd (cc e)

module _ {m : Mdbx} (laws : Laws m) (t : Table) where
  open laws use {rows, writable}

  -- By the laws of libmdbx, a transaction is all or nothing. Take a writer of a database, run any calls
  -- on a table through it, and destroy it. Nothing is thrown, the mutex is as before, and the table on
  -- disk is the map that the calls leave, if none was refused, and else what it was before.
  pub transaction :
      (number : ℕ) (db locked : Database m) (w : Reader m) (cs : List Command)
      → make_writer number db ≡ some (w, locked)
      → let (map, replies) = replay cs (view_of (laws.stored db.env t.handle)) in
        (closed : Reader m) × (after : Database m) × (destroy (run t cs w).0 locked
          ≡ ok (closed, after))
        × (after.mutex ≡ db.mutex)
        × ((run t cs w).1 ≡ replies)
        × (view_of (laws.stored after.env t.handle)
            ≡ (if accepted replies then map else view_of (laws.stored db.env t.handle)))
  unfolding is_ok
  transaction number db locked w cs e =
      let (_, _, made, _) = make_writer-eq-some number db e in
      let old = laws.stored db.env t.handle in
      let starts : view laws t w ≡ view_of old =
        ap (λ x. view laws t x) made ∙ ap view_of (laws.start_write-rows db.env t.handle) in
      let q = (run t cs w).0 in
      let writes = ap (λ x. writable x.txn) made ∙ laws.start_write-writable db.env in
      let (refines, replies) = run_on laws t cs w (view_of old) starts writes in
      let (closed, after, destroys, mutex, disk) =
        writer_atomic laws number db locked w q.txn q.result e (refines.mode ∙ writes) in
      let good : is_ok q.result ≡ accepted (replay cs (view_of old)).1 =
        refines.outcome ∙ ap (λ x. is_ok x.result && accepted (replay cs (view_of old)).1) made in
      (
        closed,
        after,
        ap (λ x. destroy x locked) refines.only ∙ destroys,
        mutex,
        replies,
        ap view_of (disk t.handle)
            ∙ disk_view (is_ok q.result) _ (rows q.txn t.handle) old _ good refines.shows,
      )
