-- ===== src/Database/Operation/Invariant.antt =====
-- include/database/{Reader,Writer}.hpp and source/database/{Reader,Writer}.cpp: the invariant of the
-- operations on one database, while operations open and work.
use zatestil.Prelude.{
  ℕ, ◌+◌, ◌≡◌, refl, sym, ◌∙◌, ◌⊎◌, inl, inr, Bool, true, false, some, List, [], ◌∷◌, ◌++◌, arith,
  All, All-middle, All-insert, total, total-middle,
}
use zatestil.Util.Result.{Result}
use zatestil.Database.Mdbx.{Mdbx, Laws}
use zatestil.Database.Operation.{
  Lock, shared_lock, unique_lock, Database, Reader, make_reader, make_writer,
}
use zatestil.Database.Operation.Lifecycle.{make_writer-eq-some, make_reader-eq-some}
use zatestil.Database.Operation.Interleaving.{MayBecome}

abbrev pub shares : Lock → ℕ
shares (shared_lock _) = 1
shares (unique_lock _) = 0

abbrev pub owns : Lock → ℕ
owns (shared_lock _) = 0
owns (unique_lock _) = 1

abbrev pub bit : Bool → ℕ
bit true = 1
bit false = 0

pub one_kind : (l : Lock) → shares l + owns l ≡ 1
one_kind (shared_lock _) = refl
one_kind (unique_lock _) = refl

module _ {m : Mdbx} where
  abbrev pub readers : List (Reader m) → ℕ
  readers = total (λ r. shares r.lock)

  abbrev pub writers : List (Reader m) → ℕ
  writers = total (λ r. owns r.lock)

  pub alone : (ops : List (Reader m)) → readers ops ≡ 0 → writers ops ≡ 0 → ops ≡ []
  alone [] a b = refl
  alone (r ∷ ops) a b = absurd (omega (arith, one_kind r.lock))

module _ {m : Mdbx} (laws : Laws m) where
  -- An open reader sees what is on disk.
  abbrev pub LockInv : m.Env → m.Txn → Lock → Type 0
  LockInv env txn (shared_lock true) =
      (laws.writable txn ≡ false) × ((p : ℕ) → laws.rows txn p ≡ laws.stored env p)
  LockInv env txn (unique_lock true) = laws.writable txn ≡ true
  LockInv env txn _ = ⊥

  abbrev pub OperationInv : m.Env → Reader m → Type 0
  OperationInv env r = (r.is_open ≡ true) × LockInv env r.txn r.lock

  pub record Inv (db : Database m) (ops : List (Reader m)) : Type 0 where
    pub counted : readers ops ≡ db.mutex.readers
    pub exclusive : writers ops ≡ bit db.mutex.writer
    pub apart : db.mutex.writer ≡ true → db.mutex.readers ≡ 0
    pub each : All (OperationInv db.env) ops

  abbrev pub IsReading : m.Env → m.Txn → Lock → Type 0
  IsReading env txn l =
      (l ≡ shared_lock true)
      × (laws.writable txn ≡ false)
      × ((p : ℕ) → laws.rows txn p ≡ laws.stored env p)

  abbrev pub IsWriting : m.Txn → Lock → Type 0
  IsWriting txn l = (l ≡ unique_lock true) × (laws.writable txn ≡ true)

  -- An open operation is of one of the two kinds.
  pub kinds :
      (env : m.Env) (txn : m.Txn) (l : Lock)
      → LockInv env txn l
      → IsReading env txn l ⊎ IsWriting txn l
  kinds env txn (shared_lock true) inv = inl (refl, inv.0, inv.1)
  kinds env txn (unique_lock true) inv = inr (refl, inv)
  kinds env txn _ inv = absurd inv

  -- What is on disk may be described in two ways.
  pub LockInv-env :
      (env env' : m.Env)
      → ((p : ℕ) → laws.stored env' p ≡ laws.stored env p)
      → (txn : m.Txn) (l : Lock) → LockInv env txn l
      → LockInv env' txn l
  LockInv-env env env' same txn (shared_lock true) inv = (inv.0, λ p. inv.1 p ∙ sym (same p))
  LockInv-env env env' same txn (unique_lock true) inv = inv
  LockInv-env env env' same txn _ inv = absurd inv

  -- New numbers for a transaction that the kind of the operation allows.
  pub LockInv-work :
      (env : m.Env) (r : Reader m) (txn : m.Txn)
      → MayBecome laws r txn
      → LockInv env r.txn r.lock
      → LockInv env txn r.lock
  LockInv-work env r txn (inl (excl, same)) inv = rw excl (same ∙ (rw excl at inv))
  LockInv-work env r txn (inr same) inv = rw same inv

  pub Inv-open_reader :
      (number : ℕ) {db db' : Database m} {r : Reader m} (ops : List (Reader m))
      → make_reader number db ≡ some (r, db')
      → Inv db ops
      → Inv db' (r ∷ ops)
  Inv-open_reader number {db} ops e inv =
      let (free, made, held) = make_reader-eq-some number db e in
      let none_writes : writers ops ≡ 0 = rw free at inv.exclusive in
      rw (made, held)
        (record {
          counted = omega (arith, inv.counted);
          exclusive = omega (arith, none_writes);
          apart = λ w. absurd (cc w);
          each = ((refl, (laws.start_read-writable db.env, laws.start_read-rows db.env)), inv.each);
        })

  pub Inv-open_writer :
      (number : ℕ) {db db' : Database m} {r : Reader m} (ops : List (Reader m))
      → make_writer number db ≡ some (r, db')
      → Inv db ops
      → Inv db' (r ∷ ops)
  Inv-open_writer number {db} ops e inv =
      let (free, none_reads, made, held) = make_writer-eq-some number db e in
      let none_writes : writers ops ≡ 0 = rw free at inv.exclusive in
      rw (made, held)
        (record {
          counted = omega (arith, inv.counted);
          exclusive = omega (arith, none_writes);
          apart = λ _. refl;
          each = ((refl, laws.start_write-writable db.env), inv.each);
        })

  pub Inv-work :
      {db : Database m} (pre : List (Reader m)) (r : Reader m) (post : List (Reader m))
      (txn : m.Txn) (result : Result)
      → MayBecome laws r txn
      → Inv db (pre ++ r ∷ post)
      → Inv db (pre ++ record r { txn = txn; result = result } ∷ post)
  Inv-work {db} pre r post txn result may inv =
      let (here, others) = All-middle (OperationInv db.env) pre r post inv.each in
      record {
        counted = omega (
          arith,
          inv.counted,
          total-middle (λ x. shares x.lock) pre r post,
          total-middle (λ x. shares x.lock) pre r' post,
        );
        exclusive = omega (
          arith,
          inv.exclusive,
          total-middle (λ x. owns x.lock) pre r post,
          total-middle (λ x. owns x.lock) pre r' post,
        );
        apart = inv.apart;
        each =
            All-insert (OperationInv db.env) pre r' post
              (here.0, LockInv-work db.env r txn may here.1) others;
      }
    where
      r' : Reader m
      r' = record r { txn = txn; result = result }
