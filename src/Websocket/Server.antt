-- ===== src/Websocket/Server.antt =====
-- source/websocket/server/Server.cpp: the accepts of the server, and all its sessions
-- (Websocket/ServerSession).
pub mod Setup
pub mod Safety
use Prim.Native.String.{String}
use zatestil.Prelude.{
  ℕ, ◌+◌, ◌-◌, ◌<◌, ◌≡◌, Bool, true, false, Option, none, some, List, [], ◌∷◌, ◌++◌, if◌then◌else◌,
  Attempt, ok, Bytes, throw,
}
use zatestil.Util.Result.{Result, error, succeeded, is_ok}
use zatestil.Websocket.Session.{closed, failed, received}
use zatestil.Websocket.ServerSession.{
  Session, for_dispatch, for_handshake, for_accept, result_of, made, open_session, on_open,
  on_handshake, on_accept as on_accept_session, on_async_read, set_handle, unset_handle, send,
  run_write, close,
}
use zatestil.Util.OnScopeExit.{Code, make, scoped}

-- The server: whether an accept is pending, and how many, and the sessions that it has made.
pub record Server (H : Type 0) : Type 0 where
  pub accepting : ℕ
  pub sessions : List (Session H)
  pub handle_id : ℕ  -- the static counter of `setHandle`

-- How far the constructor has come with the acceptor.
pub data Acceptor : Type 0 where
  shut opened reusing bound listening : Acceptor

-- The end of the constructor, by the error codes of its four calls on the acceptor: it returns at the
-- first error.
unfoldable pub construct : (open_end reuse_end bind_end listen_end : Option String) → Acceptor
construct (some e) reuse_end bind_end listen_end = shut
construct none (some e) bind_end listen_end = opened
construct none none (some e) listen_end = reusing
construct none none none (some e) = bound
construct none none none none = listening

module _ {H : Type 0} where
  unfoldable pub start_accept : Server H → Server H
  start_accept s = record s { accepting = s.accepting + 1 }

  -- `Server::run`
  unfoldable pub run : Server H → Server H
  unfolding start_accept
  run s = start_accept s

  abbrev restart : Code (Server H) (Unit {0})
  restart s = (ok tt, start_accept s)

  -- A new session, for a socket whose `remote_endpoint` yields a text or throws.
  abbrev make_session : Result → Attempt String → Code (Server H) (Unit {0})
  make_session result (throw e) s = if is_ok result then (throw e, s) else (ok tt, s)
  make_session result (ok name) s =
      if is_ok result
      then (ok tt, record s { sessions = s.sessions ++ open_session made ∷ [] })
      else (ok tt, s)

  -- `Server::onAccept`, whose guard starts the next accept.
  unfoldable pub on_accept : Result → Attempt String → Code (Server H) (Unit {0})
  unfolding start_accept scoped make is_ok open_session
  on_accept result endpoint s = scoped (make restart) (make_session result endpoint) s

  -- The handler of `async_accept`: for an error it asks the socket for its endpoint first.
  unfoldable pub on_async_accept : Option String → Attempt String → Code (Server H) (Unit {0})
  unfolding on_accept
  on_async_accept none endpoint s = on_accept succeeded endpoint s
  on_async_accept (some e) (throw t) s = (throw t, s)
  on_async_accept (some e) (ok name) s =
      on_accept (record { code = error; message = e }) (ok name) s

  -- A read that ends is no longer pending, and may leave the stream closed.
  abbrev pub ended : Session H → Bool → Session H
  ended s is_open = record s { reading = s.reading - 1; is_open = is_open }

  -- One event of a session, in the order that the callbacks of asio allow. A stream that reports
  -- `closed` is not open.
  pub data SessionStep (s : Session H) : Session H → Type 0 where
    dispatched : s.waiting ≡ for_dispatch → SessionStep s (on_open s)
    shaken :
        (end : Option String)
        → s.waiting ≡ for_handshake
        → SessionStep s (on_handshake (result_of end) s)
    accepted :
        (end : Option String)
        → s.waiting ≡ for_accept
        → SessionStep s (on_accept_session (result_of end) s)
    reads_closed : 0 < s.reading → SessionStep s (on_async_read closed (ended s false))
    reads_failed :
        (message : String) (is_open : Bool)
        → 0 < s.reading
        → (is_open ≡ true → s.is_open ≡ true)
        → SessionStep s (on_async_read (failed message) (ended s is_open))
    reads_message :
        (raw : Bytes)
        → 0 < s.reading
        → SessionStep s (on_async_read (received raw) (ended s s.is_open))
    sends : (data' : Bytes) → SessionStep s (send data' s)
    writes : (end : Option String) → SessionStep s (run_write end s)
    unsets : (id : ℕ) → SessionStep s (unset_handle id s).1
    closes : SessionStep s (close s)

  -- One event of the server after `run`: an accept ends, or a session has an event. `setHandle` draws
  -- its id from a counter that all sessions share.
  pub data Step (s : Server H) : Server H → Type 0 where
    accepts :
        (end : Option String) (endpoint : Attempt String)
        → 0 < s.accepting
        → Step s (on_async_accept end endpoint (record s { accepting = s.accepting - 1 })).1
    moves :
        (pre : List (Session H)) {x y : Session H} (post : List (Session H))
        → s.sessions ≡ pre ++ x ∷ post
        → SessionStep x y
        → Step s (record s { sessions = pre ++ y ∷ post })
    sets :
        (pre : List (Session H)) (x : Session H) (post : List (Session H)) (h : H)
        → s.sessions ≡ pre ++ x ∷ post
        → Step s (record s {
          sessions = pre ++ (set_handle h s.handle_id x).2 ∷ post;
          handle_id = (set_handle h s.handle_id x).1;
        })

  abbrev pub unstarted : Server H
  unstarted = record { accepting = 0; sessions = []; handle_id = 0 }

  pub data Reach : Server H → Type 0 where
    start : Reach (run unstarted)
    later : {s t : Server H} → Reach s → Step s t → Reach t
