-- ===== src/Database/Table/Schedules/Invariant.antt =====
-- include/database/{Table,Reader,Writer}.hpp: the invariant of interleaved
-- transactions on one table.
use mathlib.Core.Path.{subst}
use zatestil.Prelude.{
  ◌≡◌, refl, sym, ap, ◌∙◌, true, not, ◌&&◌, List, [], ◌∷◌, ◌++◌, map, All, inl, inr,
}
use zatestil.Util.Result.{is_ok, succeeded}
use zatestil.Database.Mdbx.{Mdbx, Laws}
use zatestil.Database.Operation.{shared_lock, Reader}
use zatestil.Database.Operation.Interleaving.{MayBecome}
use zatestil.Database.Operation.Invariant.{Inv, OperationInv, kinds}
use zatestil.Database.Table.{Table}
use zatestil.Database.Table.Commands.{
  Command, add, put, replace, remove, read, Reply, is_refused, accepted, KeyMap, perform_on, replay,
  perform, writes,
}
use zatestil.Database.Table.Refinement.{view, Refines, perform_refines, and-true, and_assoc}
use zatestil.Database.Table.Transactions.{view_of}
use zatestil.Database.Table.Schedules.{Job, Run, MayCall, opened, called, committed, IsSerial}

replay-snoc :
    (cs : List Command) (c : Command) (f : KeyMap)
    → let (g, replies) = replay cs f in
      replay (cs ++ c ∷ []) f ≡ ((perform_on g c).0, replies ++ (perform_on g c).1 ∷ [])
unfolding replay
replay-snoc [] c f = refl
replay-snoc (d ∷ cs) c f =
    let (g, reply) = perform_on f d in
    ap {A = KeyMap × List Reply} {B = KeyMap × List Reply} (λ q. (q.0, reply ∷ q.1))
      (replay-snoc cs c g)

accepted-snoc :
    (replies : List Reply) (r : Reply)
    → accepted (replies ++ r ∷ []) ≡ (accepted replies && not (is_refused r))
accepted-snoc [] r = sym (and-true (not (is_refused r)))
accepted-snoc (q ∷ replies) r =
    ap (◌&&◌ (not (is_refused q))) (accepted-snoc replies r)
    ∙ sym (and_assoc (not (is_refused q)) (accepted replies) (not (is_refused r)))

pub IsSerial-snoc :
    (h : List (List Command × List Reply)) (cs : List Command) (replies : List Reply) (f g : KeyMap)
    → IsSerial h f g
    → replies ≡ (replay cs g).1
    → IsSerial (h ++ (cs, replies) ∷ []) f (committed cs g)
IsSerial-snoc [] cs replies f g s e = (e ∙ ap (λ x. (replay cs x).1) (sym s), ap (committed cs) s)
IsSerial-snoc ((ds, rs) ∷ h) cs replies f g s e =
    (s.0, IsSerial-snoc h cs replies (committed ds f) g s.1 e)

-- The results of an open operation are those of its calls on the map `f`.
pub record JobInv {m : Mdbx} (laws : Laws m) (t : Table) (f : KeyMap) (j : Job m) : Type 0 where
  pub shows : view laws t j.op ≡ (replay j.calls f).0
  pub told : j.replies ≡ (replay j.calls f).1
  pub good : is_ok j.op.result ≡ accepted j.replies

pub record RunInv {m : Mdbx} (laws : Laws m) (t : Table) (f : KeyMap) (s : Run m) : Type 0 where
  pub operations : Inv laws s.database (map (λ j. j.op) s.jobs)
  pub each : All (JobInv laws t (view_of (laws.stored s.database.env t.handle))) s.jobs
  pub serial : IsSerial s.history f (view_of (laws.stored s.database.env t.handle))

module _ {m : Mdbx} (laws : Laws m) (t : Table) where
  abbrev pub disk : m.Env → KeyMap
  disk env = view_of (laws.stored env t.handle)

  pub opened-JobInv :
      (env : m.Env) (r : Reader m)
      → view laws t r ≡ disk env
      → r.result ≡ succeeded
      → JobInv laws t (disk env) (opened r)
  unfolding replay is_ok
  opened-JobInv env r e s = record { shows = e; told = refl; good = ap is_ok s }

  pub called-JobInv :
      (f : KeyMap) (j : Job m) (c : Command)
      → (writes c ≡ true → laws.writable j.op.txn ≡ true)
      → JobInv laws t f j
      → JobInv laws t f (called t j c)
  called-JobInv f j c writer inv =
      let (refines, replies) =
        subst
          (λ g.
            Refines laws t j.op (perform t j.op c).0 (perform_on g c).0
              (not (is_refused (perform_on g c).1))
            × ((perform t j.op c).1 ≡ (perform_on g c).1))
          inv.shows (perform_refines laws t j.op c writer) in
      let grown = replay-snoc j.calls c f in
      record {
        shows = refines.shows ∙ sym (ap (λ q. q.0) grown);
        told = (λ i. inv.told i ++ replies i ∷ []) ∙ sym (ap (λ q. q.1) grown);
        good =
            refines.outcome
            ∙ (λ i. inv.good i && not (is_refused (sym replies i)))
            ∙ sym (accepted-snoc j.replies (perform t j.op c).1);
      }

  reader_writes : (c : Command) → MayCall (shared_lock true) c → writes c ≡ true → ⊥
  reader_writes (add k v) may w = may
  reader_writes (put k v) may w = may
  reader_writes (replace k v) may w = may
  reader_writes (remove k) may w = may
  reader_writes (read k) may w = cc w

  -- A reader only reads.
  reader_reads :
      (r : Reader m) (c : Command) → MayCall (shared_lock true) c → (perform t r c).0.txn ≡ r.txn
  reader_reads r (add k v) may = absurd may
  reader_reads r (put k v) may = absurd may
  reader_reads r (replace k v) may = absurd may
  reader_reads r (remove k) may = absurd may
  reader_reads r (read k) may = refl

  -- What writes is called through a writer.
  pub call_writable :
      (env : m.Env) (r : Reader m) (c : Command)
      → OperationInv laws env r
      → MayCall r.lock c
      → writes c ≡ true
      → laws.writable r.txn ≡ true
  call_writable env r c inv may w = elim (kinds laws env r.txn r.lock inv.1) [
    | inl reading ↦ absurd (reader_writes c (subst (λ l. MayCall l c) reading.0 may) w)
    | inr writing ↦ writing.1
  ]

  pub call-MayBecome :
      (env : m.Env) (r : Reader m) (c : Command)
      → OperationInv laws env r
      → MayCall r.lock c
      → MayBecome laws r (perform t r c).0.txn
  call-MayBecome env r c inv may = elim (kinds laws env r.txn r.lock inv.1) [
    | inl reading ↦ inr (reader_reads r c (subst (λ l. MayCall l c) reading.0 may))
    | inr writing ↦ inl (writing.0, (perform_refines laws t r c (λ _. writing.1)).0.mode)
  ]
