-- ===== src/Database/Table/Refinement.antt =====
-- include/database/Table.hpp: a table refines a map from keys to values.
use mathlib.Core.Path.{subst, fun_ext}
use Prim.Native.String.{String}
use zatestil.Prelude.{
  ℕ, ◌≡◌, ◌≢◌, refl, sym, ap, ◌∙◌, Bool, true, false, not, ◌&&◌, Option, none, some, List, [], ◌∷◌,
  Bytes,
}
use zatestil.Util.Result.{Result, is_ok}
use zatestil.Database.Rows.{lookup}
use zatestil.Database.Mdbx.{Mdbx, Laws}
use zatestil.Database.Operation.{Reader}
use zatestil.Database.Cursor.{Cursor}
use zatestil.Database.Table.{Table, get, insert, upsert, update}
use zatestil.Database.Table.Lookup.{
  rows_of, Reads, get-Reads, Wrote, Refused, Inserts, insert_lem, upsert_lem, update_lem,
}
use zatestil.Database.Table.Erasing.{erase_key_lem}
use zatestil.Database.Table.Commands.{
  Command, add, put, replace, remove, read, Reply, done, refused, is_refused, accepted, KeyMap,
  change, added, answer, writes, perform_on, replay, write_reply, read_reply, perform, run,
}

pub and-true : (b : Bool) → b ≡ (b && true)
and-true true = refl
and-true false = refl

and-false : (b : Bool) → (b && false) ≡ false
and-false true = refl
and-false false = refl

pub and_assoc : (a b c : Bool) → ((a && b) && c) ≡ (a && (b && c))
and_assoc true b c = refl
and_assoc false b c = refl

module _ {m : Mdbx} (laws : Laws m) (t : Table) where
  open laws use {rows, writable}

  -- The table as a function.
  abbrev pub view : Reader m → KeyMap
  view r k = lookup k (rows_of laws t r)

  -- `q` refines `s`: the operation shows the map, only its transaction and result have changed, and
  -- its result is a success if it was one and the call is not refused.
  pub record Refines (r : Reader m) (q : Reader m) (s : KeyMap) (good : Bool) : Type 0 where
    pub shows : view q ≡ s
    pub only : q ≡ record r { txn = q.txn; result = q.result }
    pub mode : writable q.txn ≡ writable r.txn
    pub others : (p : ℕ) → p ≢ t.handle → rows q.txn p ≡ rows r.txn p
    pub outcome : is_ok q.result ≡ (is_ok r.result && good)

  -- One call refines the call on the function, and replies as it does.
  abbrev pub Performs : Reader m → Reader m × Reply → KeyMap × Reply → Type 0
  Performs r q s = Refines r q.0 s.0 (not (is_refused s.1)) × (q.1 ≡ s.1)

  ok_kept : {a b : Result} → a ≡ b → is_ok a ≡ (is_ok b && true)
  ok_kept {b = b} e = rw e (and-true (is_ok b))

  write_done :
      (r r' : Reader m) (c : Cursor m) (k v : Bytes)
      → Wrote laws t r r' c k v
      → Performs r (write_reply (r', c)) (change (view r) k (some v), done)
  write_done r r' c k v w = (
    record {
      shows = fun_ext w.looks;
      only = w.only;
      mode = w.mode;
      others = w.others;
      outcome = ok_kept w.kept;
    },
    rw (w.shown.0) refl,
  )

  write_refused :
      (r r' : Reader m) (c : Cursor m) (message : String)
      → Refused laws t r r' c message
      → Performs r (write_reply (r', c)) (view r, refused)
  unfolding is_ok
  write_refused r r' c message w = (
    record {
      shows = ap (λ x k. lookup k (rows x t.handle)) w.same;
      only = w.rest_same;
      mode = ap writable w.same;
      others = λ p _. ap (λ x. rows x p) w.same;
      outcome = ap is_ok w.told ∙ sym (and-false (is_ok r.result));
    },
    rw w.nothing refl,
  )

  add-Performs :
      (r : Reader m) (q : Reader m × Cursor m) (k v : Bytes) (o : Option Bytes)
      → Inserts laws t r q k v o
      → Performs r (write_reply q) (added (view r) k v o)
  add-Performs r q k v none w = write_done r q.0 q.1 k v w
  add-Performs r q k v (some _) w = write_refused r q.0 q.1 laws.key_exists w

  same_state : (r : Reader m) → Refines r r (view r) true
  same_state r = record {
    shows = refl;
    only = refl;
    mode = refl;
    others = λ p _. refl;
    outcome = and-true (is_ok r.result);
  }

  read-Performs :
      (r : Reader m) (c : Cursor m) (k : Bytes) (o : Option Bytes)
      → Reads laws t r c k o
      → Performs r (r, read_reply r c) (view r, answer o)
  read-Performs r c k none h = (same_state r, rw h refl)
  read-Performs r c k (some v) (live, _, value) = (same_state r, simp (live, value))

  pub perform_refines :
      (r : Reader m) (c : Command)
      → (writes c ≡ true → writable r.txn ≡ true)
      → Performs r (perform t r c) (perform_on (view r) c)
  perform_refines r (add k v) may =
      add-Performs r (insert t r k v) k v (view r k) (insert_lem laws t r k v (may refl))
  perform_refines r (put k v) may =
      write_done r (upsert t r k v).0 (upsert t r k v).1 k v (upsert_lem laws t r k v (may refl))
  perform_refines r (replace k v) may =
      write_refused r (update t r k v).0 (update t r k v).1 laws.no_data
        (update_lem laws t r k v (may refl))
  perform_refines r (remove k) may =
      let gone = erase_key_lem laws t r k in
      (
        record {
          shows = fun_ext gone.looks;
          only = gone.only;
          mode = gone.mode;
          others = gone.others;
          outcome = ok_kept gone.kept;
        },
        refl,
      )
  perform_refines r (read k) may = read-Performs r (get t r k) k (view r k) (get-Reads laws t r k)

  chain :
      (r q q' : Reader m) (f g : KeyMap) (a b : Bool)
      → Refines r q f a
      → Refines q q' g b
      → Refines r q' g (a && b)
  chain r q q' f g a b x y = record {
    shows = y.shows;
    only =
        y.only
        ∙ ap {A = Reader m} {B = Reader m} (λ z. record z { txn = q'.txn; result = q'.result })
            x.only;
    mode = y.mode ∙ x.mode;
    others = λ p ne. y.others p ne ∙ x.others p ne;
    outcome = y.outcome ∙ ap (λ z. z && b) x.outcome ∙ and_assoc (is_ok r.result) a b;
  }

  pub run_on :
      (cs : List Command) (r : Reader m) (f : KeyMap)
      → view r ≡ f
      → writable r.txn ≡ true
      → Refines r (run t cs r).0 (replay cs f).0 (accepted (replay cs f).1)
        × ((run t cs r).1 ≡ (replay cs f).1)
  unfolding run replay
  run_on [] r f e may = (subst (λ g. Refines r r g true) e (same_state r), refl)
  run_on (c ∷ cs) r f e may =
      let (first, reply) =
        subst (λ g. Performs r (perform t r c) (perform_on g c)) e
          (perform_refines r c (λ _. may)) in
      let (later, replies) =
        run_on cs (perform t r c).0 (perform_on f c).0 first.shows (first.mode ∙ may) in
      (
        chain r (perform t r c).0 (run t cs (perform t r c).0).0 _ _ _ _ first later,
        λ i. reply i ∷ replies i,
      )

  -- By the laws of libmdbx, any sequence of calls of `insert`, `upsert`, `update`, `erase` and `get`
  -- refines the same calls on a map from keys to values: it replies what they reply, and leaves the
  -- table as they leave the map. The other tables keep their rows, and the result of the operation
  -- stays a success if it was one and no call was refused. On the map `update` is refused for every key. The
  -- operation is a writer: its transaction may write.
  pub run-Refines :
      (cs : List Command) (r : Reader m)
      → writable r.txn ≡ true
      → let (map, replies) = replay cs (view r) in
        Refines r (run t cs r).0 map (accepted replies) × ((run t cs r).1 ≡ replies)
  run-Refines cs r may = run_on cs r (view r) refl may
