-- ===== src/Websocket/Server/Safety.antt =====
-- source/websocket/server: what holds of a server and its sessions in every order of the events.
use mathlib.Core.Path.{subst}
use Prim.Native.String.{String}
use zatestil.Prelude.{
  ℕ, ◌-◌, ◌<◌, ◌≤◌, ◌≡◌, refl, sym, ◌∙◌, ◌⊎◌, inl, inr, Bool, true, false, Option, none, some, List,
  [], ◌∷◌, ◌++◌, append-nil, arith, if◌then◌else◌, Attempt, ok, throw, All, All-middle, All-insert,
  Bool-cases, Bytes,
}
use zatestil.Util.Result.{is_ok}
use zatestil.Util.OnScopeExit.{scoped, make, destroy}
use zatestil.Websocket.Session.{ReadEnd, closed, failed, received}
use zatestil.Websocket.ServerSession.{
  Session, Waiting, for_handshake, for_accept, for_nothing, result_of, made, open_session, on_open,
  on_handshake, start_read, on_accept as on_accept_session, on_read, on_async_read, post_all,
  set_handle, unset_handle, send, write_next, run_write, close,
}
use zatestil.Websocket.Server.{
  Server, start_accept, run, on_accept, on_async_accept, ended, SessionStep, dispatched, shaken,
  accepted, reads_closed, reads_failed, reads_message, sends, writes, unsets, closes, Step, accepts,
  moves, sets, Reach, start, later,
}

-- The accept failed, and the socket has no endpoint to report.
abbrev pub is_lost : Option String → Attempt String → Bool
is_lost (some e) (throw t) = true
is_lost _ _ = false

small_if : (b : Bool) (n : ℕ) → n ≡ (if b then 0 else 1) → n ≤ 1
small_if b n e = ground arith

module _ {H : Type 0} where
  -- A session that still opens is not open and reads nothing.
  abbrev pub Opening : Session H → Type 0
  Opening s = (s.is_open ≡ false) × (s.reading ≡ 0)

  pub record IsSane (s : Session H) : Type 0 where
    pub one_read : s.reading ≤ 1
    pub open_reads : s.is_open ≡ true → s.reading ≡ 1
    pub opening : (s.waiting ≡ for_nothing) ⊎ Opening s

  still-Opening :
      (s : Session H) {w : Waiting} → IsSane s → s.waiting ≡ w → (w ≡ for_nothing → ⊥) → Opening s
  still-Opening s sane e ne = elim sane.opening [ inl f ↦ absurd (ne (sym e ∙ f)) | inr o ↦ o ]

  -- A session that waits for an event of its opening, after that event.
  Opening-IsSane : (s : Session H) (w : Waiting) → Opening s → IsSane (record s { waiting = w })
  Opening-IsSane s w (shut, idle) = record {
    one_read = omega (arith, idle);
    open_reads = λ e. absurd (cc (e, shut));
    opening = inr (shut, idle);
  }

  read-IsSane : (s : Session H) → s.reading ≡ 0 → s.waiting ≡ for_nothing → IsSane (start_read s)
  unfolding start_read
  read-IsSane s idle e = elim (Bool-cases s.is_open) [
    | inl o ↦ record {
      one_read = ground arith;
      open_reads = ground arith;
      opening = inl (ground arith);
    }
    | inr o ↦ record {
      one_read = ground arith;
      open_reads = ground arith;
      opening = inl (ground arith);
    }
  ]

  settled : (s : Session H) → IsSane s → 0 < s.reading → s.waiting ≡ for_nothing
  settled s sane h = elim sane.opening [ inl e ↦ e | inr o ↦ absurd (omega (arith, h, o.1)) ]

  close-open : (s : Session H) → s.is_open ≡ true → close s ≡ record s { is_open = false }
  unfolding close
  close-open s e = ground arith

  close-shut : (s : Session H) → s.is_open ≡ false → close s ≡ s
  unfolding close
  close-shut s e = ground arith

  -- A step that leaves the opening, the stream and the reads alone.
  like :
      (s t : Session H)
      → IsSane s
      → t.waiting ≡ s.waiting
      → t.is_open ≡ s.is_open
      → t.reading ≡ s.reading
      → IsSane t
  like s t sane w o r = record {
    one_read = omega (arith, r, sane.one_read);
    open_reads = λ e. r ∙ sane.open_reads (sym o ∙ e);
    opening = elim sane.opening [ inl f ↦ inl (w ∙ f) | inr f ↦ inr (o ∙ f.0, r ∙ f.1) ];
  }

  write_next-same :
      (end : Option String) (s : Session H) (strand : List Bytes)
      → let t = write_next end s strand in
        (t.waiting ≡ s.waiting) × (t.is_open ≡ s.is_open) × (t.reading ≡ s.reading)
  write_next-same end s [] = (refl, refl, refl)
  write_next-same end s (d ∷ next) = (refl, refl, refl)

  idle-IsSane :
      (s : Session H) → s.reading ≡ 0 → s.waiting ≡ for_nothing → s.is_open ≡ false → IsSane s
  idle-IsSane s idle e shut = record {
    one_read = omega (arith, idle);
    open_reads = λ o. absurd (cc (o, shut));
    opening = inl e;
  }

  on_async_read-IsSane :
      (end : ReadEnd) (s : Session H)
      → s.reading ≡ 0
      → s.waiting ≡ for_nothing
      → (end ≡ closed → s.is_open ≡ false)
      → IsSane (on_async_read end s)
  unfolding on_async_read on_read scoped make destroy is_ok
  on_async_read-IsSane closed s idle e shut = idle-IsSane s idle e (shut refl)
  on_async_read-IsSane (failed message) s idle e shut = read-IsSane s idle e
  on_async_read-IsSane (received raw) s idle e shut =
      read-IsSane (record s { posted = post_all s.handles raw s.posted }) idle e

  -- A pending read ends.
  read_ends :
      (end : ReadEnd) (is_open : Bool) (s : Session H)
      → IsSane s
      → 0 < s.reading
      → (end ≡ closed → is_open ≡ false)
      → IsSane (on_async_read end (ended s is_open))
  read_ends end is_open s sane h shut =
      on_async_read-IsSane end (ended s is_open) (omega (arith, h, sane.one_read))
        (settled s sane h) shut

  SessionStep-IsSane : {s t : Session H} → SessionStep s t → IsSane s → IsSane t
  unfolding on_open on_handshake on_accept_session result_of is_ok send unset_handle run_write
  SessionStep-IsSane {s = s} (dispatched e) sane =
      Opening-IsSane s for_handshake (still-Opening s sane e (λ h. absurd (cc h)))
  SessionStep-IsSane {s = s} (shaken none e) sane =
      Opening-IsSane s for_accept (still-Opening s sane e (λ h. absurd (cc h)))
  SessionStep-IsSane {s = s} (shaken (some m) e) sane =
      Opening-IsSane s for_nothing (still-Opening s sane e (λ h. absurd (cc h)))
  SessionStep-IsSane {s = s} (accepted none e) sane =
      read-IsSane (record s { waiting = for_nothing; is_open = true })
        (still-Opening s sane e (λ h. absurd (cc h))).1 refl
  SessionStep-IsSane {s = s} (accepted (some m) e) sane =
      Opening-IsSane s for_nothing (still-Opening s sane e (λ h. absurd (cc h)))
  SessionStep-IsSane {s = s} (reads_closed h) sane = read_ends closed false s sane h (λ _. refl)
  SessionStep-IsSane {s = s} (reads_failed message is_open h _) sane =
      read_ends (failed message) is_open s sane h (λ e. absurd (cc e))
  SessionStep-IsSane {s = s} (reads_message raw h) sane =
      read_ends (received raw) s.is_open s sane h (λ e. absurd (cc e))
  SessionStep-IsSane {s = s} (sends d) sane = like s (send d s) sane refl refl refl
  SessionStep-IsSane {s = s} (unsets id) sane = like s (unset_handle id s).1 sane refl refl refl
  SessionStep-IsSane {s = s} (writes end) sane =
      let (w, o, r) = write_next-same end s s.strand in like s (run_write end s) sane w o r
  SessionStep-IsSane {s = s} closes sane = elim (Bool-cases s.is_open) [
    | inl o ↦ subst IsSane (sym (close-open s o)) (record {
      one_read = sane.one_read;
      open_reads = λ e. absurd (cc e);
      opening = inl (settled s sane (omega (arith, sane.open_reads o)));
    })
    | inr o ↦ subst IsSane (sym (close-shut s o)) sane
  ]

  made-IsSane : IsSane (open_session made)
  unfolding open_session
  made-IsSane = record {
    one_read = omega arith;
    open_reads = λ e. absurd (cc e);
    opening = inr (refl, refl);
  }

  -- When a pending accept has ended, the server starts the next one, unless the accept failed and the
  -- socket has no endpoint: the handler throws then before the guard is there, and no accept is
  -- pending any more.
  pub on_async_accept_lem :
      (end : Option String) (endpoint : Attempt String) (s : Server H)
      → s.accepting ≡ 0
      → (on_async_accept end endpoint s).1.accepting ≡ (if is_lost end endpoint then 0 else 1)
  unfolding on_async_accept on_accept scoped make destroy start_accept is_ok
  on_async_accept_lem none (ok name) s e = omega (arith, e)
  on_async_accept_lem none (throw t) s e = omega (arith, e)
  on_async_accept_lem (some m) (ok name) s e = omega (arith, e)
  on_async_accept_lem (some m) (throw t) s e = e

  pub record Inv (s : Server H) : Type 0 where
    pub one_accept : s.accepting ≤ 1
    pub sane : All IsSane s.sessions

  All-add : (xs : List (Session H)) → All IsSane xs → All IsSane (xs ++ open_session made ∷ [])
  All-add xs a =
      All-insert IsSane xs (open_session made) [] made-IsSane
        (subst (All IsSane) (sym (append-nil xs)) a)

  on_async_accept-IsSane :
      (end : Option String) (endpoint : Attempt String) (s : Server H)
      → All IsSane s.sessions
      → All IsSane (on_async_accept end endpoint s).1.sessions
  unfolding on_async_accept on_accept scoped make destroy start_accept is_ok
  on_async_accept-IsSane none (ok name) s a = All-add s.sessions a
  on_async_accept-IsSane none (throw t) s a = a
  on_async_accept-IsSane (some m) (ok name) s a = a
  on_async_accept-IsSane (some m) (throw t) s a = a

  Step-Inv : {s t : Server H} → Step s t → Inv s → Inv t
  unfolding set_handle
  Step-Inv {s = s} (accepts end endpoint h) inv =
      let waiting = record s { accepting = s.accepting - 1 } in
      record {
        one_accept =
            small_if (is_lost end endpoint) (on_async_accept end endpoint waiting).1.accepting
              (on_async_accept_lem end endpoint waiting (omega (arith, inv.one_accept)));
        sane = on_async_accept-IsSane end endpoint waiting inv.sane;
      }
  Step-Inv {s = s} (moves pre {x = x} {y = y} post e st) inv =
      let (old, others) = All-middle IsSane pre x post (subst (All IsSane) e inv.sane) in
      record {
        one_accept = inv.one_accept;
        sane = All-insert IsSane pre y post (SessionStep-IsSane st old) others;
      }
  Step-Inv {s = s} (sets pre x post h e) inv =
      let (old, others) = All-middle IsSane pre x post (subst (All IsSane) e inv.sane) in
      record {
        one_accept = inv.one_accept;
        sane =
            All-insert IsSane pre _ post (like x (set_handle h s.handle_id x).2 old refl refl refl)
              others;
      }

  pub Reach-Inv : {s : Server H} → Reach s → Inv s
  unfolding run start_accept
  Reach-Inv start = record { one_accept = omega arith; sane = tt }
  Reach-Inv (later r st) = Step-Inv st (Reach-Inv r)

  -- After `run`, in every order of events, the server has at most one accept pending, and each session
  -- has at most one read pending, has one while its stream is open, and has none while it still opens.
  pub server-IsSane : {s : Server H} → Reach s → (s.accepting ≤ 1) × All IsSane s.sessions
  server-IsSane r = ((Reach-Inv r).one_accept, (Reach-Inv r).sane)
