-- ===== src/Websocket/Session/Safety.antt =====
-- source/websocket/client/Session.cpp: what holds of a session in every order of the events.
use mathlib.Core.Path.{subst}
use Prim.Native.String.{String}
use zatestil.Prelude.{
  ℕ, ◌+◌, ◌<◌, ◌≤◌, ◌%◌, ◌^◌, ◌≡◌, refl, sym, ◌∙◌, ap, Bool, true, false, Option, List, [], ◌∷◌,
  ◌++◌, append_assoc, map, arith, Bytes, inl, inr, Bool-cases,
}
use zatestil.Util.Result.{is_ok}
use zatestil.Util.OnScopeExit.{scoped, make, destroy}
use zatestil.Websocket.Handles.{
  insert, IsSorted, Below, insert-IsSorted, erase-IsSorted, Below-insert, Below-erase, Below-trans,
}
use zatestil.Websocket.Session.{
  Session, ReadEnd, closed, failed, received, start_read, open_session, close, set_handle,
  unset_handle, on_read, on_async_read, send, write_next, run_write, System, ended, Step, opens,
  closes, reads_closed, reads_failed, reads_failed_open, reads_message, sends, writes, sets, unsets,
  runs, Reach, start, later,
}

pub record Inv {H : Type 0} (s : System H) : Type 0 where
  pub reads : s.session.reading ≤ 1
  pub open_reads : s.session.is_open ≡ true → s.session.reading ≡ 1
  pub uncalled : s.called ≡ false → (s.session.is_open ≡ false) × (s.session.reading ≡ 0)
  pub sorted : IsSorted s.session.handles
  pub below : Below s.handle_id s.session.handles
  pub in_order : map (λ q. q.0) s.session.written ++ s.session.strand ≡ s.log

map-append :
    {A B : Type 0} (f : A → B) (xs : List A) (x : A) (ys : List B)
    → map f (xs ++ x ∷ []) ++ ys ≡ map f xs ++ f x ∷ ys
map-append f [] x ys = refl
map-append f (y ∷ xs) x ys = ap (◌∷◌ (f y)) (map-append f xs x ys)

pub next_counter : (n : ℕ) → n + 1 < 2 ^ 64 → (n + 1) % 2 ^ 64 ≡ n + 1
next_counter n h = omega (arith, h)

module _ {H : Type 0} where
  -- The part of the invariant that is about reads.
  abbrev ReadsOnce : Session H → Type 0
  ReadsOnce s = (s.reading ≤ 1) × (s.is_open ≡ true → s.reading ≡ 1)

  start_read-ReadsOnce : (s : Session H) → s.reading ≡ 0 → ReadsOnce (start_read s)
  unfolding start_read
  start_read-ReadsOnce s e = ground arith

  open_session-ReadsOnce :
      (a b c : Option String) (s : Session H)
      → s.is_open ≡ false
      → s.reading ≡ 0
      → ReadsOnce (open_session a b c s).1
  unfolding open_session start_read
  open_session-ReadsOnce a b c s e f = ground arith

  -- A read that is no longer pending is followed by the next one if the stream is open.
  on_async_read-ReadsOnce :
      (end : ReadEnd) (s : Session H)
      → s.reading ≡ 0
      → (end ≡ closed → s.is_open ≡ false)
      → ReadsOnce (on_async_read end s)
  unfolding on_async_read on_read scoped make destroy start_read is_ok
  on_async_read-ReadsOnce closed s e f = ground (arith, f refl)
  on_async_read-ReadsOnce (failed message) s e f = ground arith
  on_async_read-ReadsOnce (received raw) s e f = ground arith

  -- A read changes neither the handles nor what was written.
  abbrev Keeps : Session H → Session H → Type 0
  Keeps s t = (t.handles ≡ s.handles) × (t.strand ≡ s.strand) × (t.written ≡ s.written)

  on_async_read-Keeps : (end : ReadEnd) (s : Session H) → Keeps s (on_async_read end s)
  unfolding on_async_read on_read scoped make destroy start_read is_ok
  on_async_read-Keeps closed s = (refl, refl, refl)
  on_async_read-Keeps (failed message) s = ground arith
  on_async_read-Keeps (received raw) s = ground arith

  open_session-Keeps : (a b c : Option String) (s : Session H) → Keeps s (open_session a b c s).1
  unfolding open_session start_read
  open_session-Keeps a b c s = ground arith

  after_read :
      {s : System H} (t : Session H)
      → Inv s
      → s.called ≡ true
      → ReadsOnce t
      → Keeps s.session t
      → Inv (record s { session = t })
  after_read {s = s} t inv called (once, open') (same, strand, written) = record {
    reads = once;
    open_reads = open';
    uncalled = λ e. absurd (cc (e, called));
    sorted = subst IsSorted (sym same) inv.sorted;
    below = subst (Below s.handle_id) (sym same) inv.below;
    in_order = rw (strand, written) inv.in_order;
  }

  called_reading : {s : System H} → Inv s → 0 < s.session.reading → s.called ≡ true
  called_reading {s = s} inv h = elim (Bool-cases s.called) [
    | inl e ↦ e
    | inr e ↦ absurd (omega (arith, h, (inv.uncalled e).1))
  ]

  -- A pending read ends.
  read_ends :
      {s : System H} (end : ReadEnd) (is_open : Bool)
      → Inv s
      → 0 < s.session.reading
      → (end ≡ closed → is_open ≡ false)
      → Inv (record s { session = on_async_read end (ended s.session is_open) })
  read_ends {s = s} end is_open inv h f =
      after_read (on_async_read end (ended s.session is_open)) inv (called_reading inv h)
        (on_async_read-ReadsOnce end (ended s.session is_open) (omega (arith, inv.reads, h)) f)
        (on_async_read-Keeps end (ended s.session is_open))

  opens-Inv :
      {s : System H} (a b c : Option String)
      → Inv s
      → s.called ≡ false
      → Inv (record s { session = (open_session a b c s.session).1; called = true })
  opens-Inv {s = s} a b c inv e =
      let (shut, idle) = inv.uncalled e in
      let (once, open') = open_session-ReadsOnce a b c s.session shut idle in
      let (same, strand, written) = open_session-Keeps a b c s.session in
      record {
        reads = once;
        open_reads = open';
        uncalled = λ h. absurd (cc h);
        sorted = subst IsSorted (sym same) inv.sorted;
        below = subst (Below s.handle_id) (sym same) inv.below;
        in_order = rw (strand, written) inv.in_order;
      }

  -- Only the queue and the log of writes change, and in step with one another.
  write_next-in_order :
      (end : Option String) (s : Session H) (log : List Bytes) (strand : List Bytes)
      → s.strand ≡ strand
      → map (λ q. q.0) s.written ++ s.strand ≡ log
      → let t = write_next end s strand in
        (map (λ q. q.0) t.written ++ t.strand ≡ log)
        × (t.handles ≡ s.handles)
        × (t.reading ≡ s.reading)
        × (t.is_open ≡ s.is_open)
  write_next-in_order end s log [] f e = (e, refl, refl, refl)
  write_next-in_order end s log (d ∷ next) f e = (
    map-append (λ q. q.0) s.written (d, end) next
        ∙ ap (λ l. map (λ q. q.0) s.written ++ l) (sym f)
        ∙ e,
    refl,
    refl,
    refl,
  )

  run_write-Inv :
      {s : System H} (end : Option String)
      → Inv s
      → Inv (record s { session = run_write end s.session })
  unfolding run_write
  run_write-Inv {s = s} end inv =
      let (queue, same, reads, open') =
        write_next-in_order end s.session s.log s.session.strand refl inv.in_order in
      record {
        reads = omega (arith, reads, inv.reads);
        open_reads = λ e. reads ∙ inv.open_reads (sym open' ∙ e);
        uncalled = λ e. (open' ∙ (inv.uncalled e).0, reads ∙ (inv.uncalled e).1);
        sorted = subst IsSorted (sym same) inv.sorted;
        below = subst (Below s.handle_id) (sym same) inv.below;
        in_order = queue;
      }

  pub Step-Inv : {s t : System H} → Step s t → Inv s → Inv t
  unfolding close set_handle unset_handle send
  Step-Inv (opens a b c e) inv = opens-Inv a b c inv e
  Step-Inv (closes end) inv = record {
    reads = inv.reads;
    open_reads = λ e. absurd (cc e);
    uncalled = λ e. (refl, (inv.uncalled e).1);
    sorted = tt;
    below = tt;
    in_order = inv.in_order;
  }
  Step-Inv (reads_closed h) inv = read_ends closed false inv h (λ _. refl)
  Step-Inv (reads_failed message h) inv = read_ends (failed message) false inv h (λ _. refl)
  Step-Inv {s = s} (reads_failed_open message h) inv =
      read_ends (failed message) s.session.is_open inv h (λ e. absurd (cc e))
  Step-Inv {s = s} (reads_message raw h) inv =
      read_ends (received raw) s.session.is_open inv h (λ e. absurd (cc e))
  Step-Inv {s = s} (sends d) inv = record {
    reads = inv.reads;
    open_reads = inv.open_reads;
    uncalled = inv.uncalled;
    sorted = inv.sorted;
    below = inv.below;
    in_order =
        sym (append_assoc (map (λ q. q.0) s.session.written) s.session.strand (d ∷ []))
        ∙ ap (λ l. l ++ d ∷ []) inv.in_order;
  }
  Step-Inv (writes end) inv = run_write-Inv end inv
  Step-Inv {s = s} (sets h small) inv = record {
    reads = inv.reads;
    open_reads = inv.open_reads;
    uncalled = inv.uncalled;
    sorted = insert-IsSorted s.handle_id h s.session.handles inv.sorted;
    below =
        subst (λ n. Below n (insert s.handle_id h s.session.handles))
          (sym (next_counter s.handle_id small))
          (Below-insert (s.handle_id + 1) s.handle_id h s.session.handles
            (Below-trans s.handle_id (s.handle_id + 1) s.session.handles inv.below (omega arith))
            (omega arith));
    in_order = inv.in_order;
  }
  Step-Inv {s = s} (unsets id) inv = record {
    reads = inv.reads;
    open_reads = inv.open_reads;
    uncalled = inv.uncalled;
    sorted = erase-IsSorted id s.session.handles inv.sorted;
    below = Below-erase s.handle_id id s.session.handles inv.below;
    in_order = inv.in_order;
  }
  Step-Inv (runs before after task e) inv = record {
    reads = inv.reads;
    open_reads = inv.open_reads;
    uncalled = inv.uncalled;
    sorted = inv.sorted;
    below = inv.below;
    in_order = inv.in_order;
  }

  pub Reach-Inv : {s : System H} → Reach s → Inv s
  Reach-Inv start = record {
    reads = omega arith;
    open_reads = λ e. absurd (cc e);
    uncalled = λ _. (refl, refl);
    sorted = tt;
    below = tt;
    in_order = refl;
  }
  Reach-Inv (later r st) = Step-Inv st (Reach-Inv r)

  -- In every order of events, the stream never has two reads pending at once, which boost::beast
  -- forbids.
  pub one_read : {s : System H} → Reach s → s.session.reading ≤ 1
  one_read r = (Reach-Inv r).reads

  -- While the stream is open, a read is pending: after each message and each error the loop of reads
  -- goes on.
  pub reads_go_on : {s : System H} → Reach s → s.session.is_open ≡ true → s.session.reading ≡ 1
  reads_go_on r = (Reach-Inv r).open_reads

  -- The texts given to `send` are written one by one in the order of the calls of `send`: those that
  -- were written, followed by those that wait on the strand, are all of them.
  pub writes_in_order :
      {s : System H} → Reach s → map (λ q. q.0) s.session.written ++ s.session.strand ≡ s.log
  writes_in_order r = (Reach-Inv r).in_order
