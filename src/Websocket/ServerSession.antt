-- ===== src/Websocket/ServerSession.antt =====
-- source/websocket/server/Session.hpp and source/websocket/server/Session.cpp, with the view of
-- boost::beast and boost::asio that Websocket/Session has.
pub mod Shared
use Prim.Native.String.{String}
use zatestil.Prelude.{
  ℕ, ◌+◌, ◌-◌, ◌<◌, ◌%◌, ◌^◌, ◌≡◌, Bool, true, false, Option, none, some, List, [], ◌∷◌, ◌++◌,
  if◌then◌else◌, ok, Bytes,
}
use zatestil.Util.Result.{Result, error, succeeded, is_ok}
use zatestil.Util.OnScopeExit.{Code, make, scoped}
use zatestil.Websocket.Handles.{Handles, insert, erase}
use zatestil.Websocket.Session.{ReadEnd, closed, failed, received}

-- What a session waits for, next to its reads.
pub data Waiting : Type 0 where
  for_dispatch : Waiting  -- `onOpen`, dispatched by `open`
  for_handshake : Waiting  -- `async_handshake`
  for_accept : Waiting  -- `async_accept`
  for_nothing : Waiting

pub record Session (H : Type 0) : Type 0 where
  pub waiting : Waiting
  pub is_open : Bool  -- m_stream.is_open()
  pub reading : ℕ  -- reads of m_stream that are pending
  pub handles : Handles H  -- m_handles
  pub posted : List (ℕ × H × Bytes)  -- posted to m_context
  pub strand : List Bytes  -- posted to m_wStrand, and not yet written
  pub written : List (Bytes × Option String)  -- the calls of m_stream.write, with their ends

-- The result that the handlers of asio make of an error code, whose text `none` is success.
unfoldable pub result_of : Option String → Result
result_of none = succeeded
result_of (some e) = record { code = error; message = e }

module _ {H : Type 0} where
  -- After the constructor.
  abbrev pub made : Session H
  made = record {
    waiting = for_nothing;
    is_open = false;
    reading = 0;
    handles = [];
    posted = [];
    strand = [];
    written = [];
  }

  unfoldable pub open_session : Session H → Session H
  open_session s = record s { waiting = for_dispatch }

  unfoldable pub on_open : Session H → Session H
  on_open s = record s { waiting = for_handshake }

  unfoldable pub on_handshake : Result → Session H → Session H
  unfolding is_ok
  on_handshake result s =
      if is_ok result then record s { waiting = for_accept } else record s { waiting = for_nothing }

  unfoldable pub start_read : Session H → Session H
  start_read s = if s.is_open then record s { reading = s.reading + 1 } else s

  -- `onAccept`. A stream that has accepted is open.
  unfoldable pub on_accept : Result → Session H → Session H
  unfolding is_ok start_read
  on_accept result s =
      if is_ok result
      then start_read (record s { waiting = for_nothing; is_open = true })
      else record s { waiting = for_nothing }

  -- The loop of `onRead`.
  unfoldable pub post_all : Handles H → Bytes → List (ℕ × H × Bytes) → List (ℕ × H × Bytes)
  post_all [] raw posted = posted
  post_all ((id, h) ∷ m) raw posted = post_all m raw (posted ++ (id, h, raw) ∷ [])

  abbrev restart : Code (Session H) (Unit {0})
  restart s = (ok tt, start_read s)

  abbrev handle_read : Result → Bytes → Code (Session H) (Unit {0})
  handle_read result raw s =
      if is_ok result
      then (ok tt, record s { posted = post_all s.handles raw s.posted })
      else (ok tt, s)

  -- `onRead`, with the buffer: the guard starts the next read when the function is left.
  unfoldable pub on_read : Result → Bytes → Session H → Session H
  unfolding start_read post_all scoped make is_ok
  on_read result raw s = (scoped (make restart) (handle_read result raw) s).1

  -- The handler of `async_read`.
  unfoldable pub on_async_read : ReadEnd → Session H → Session H
  unfolding on_read
  on_async_read closed s = s
  on_async_read (failed message) s = on_read (record { code = error; message = message }) [] s
  on_async_read (received raw) s = on_read succeeded raw s

  -- `setHandle`, on the static counter: the id, the counter after it, and the session.
  unfoldable pub set_handle : H → ℕ → Session H → ℕ × ℕ × Session H
  set_handle h counter s =
      (counter, (counter + 1) % 2 ^ 64, record s { handles = insert counter h s.handles })

  unfoldable pub unset_handle : ℕ → Session H → Bool × Session H
  unset_handle id s =
      let (left, erased) = erase id s.handles in (erased, record s { handles = left })

  unfoldable pub send : Bytes → Session H → Session H
  send data' s = record s { strand = s.strand ++ data' ∷ [] }

  abbrev pub write_next : Option String → Session H → List Bytes → Session H
  write_next ended s [] = s
  write_next ended s (data' ∷ next) = record s {
    strand = next;
    written = s.written ++ (data', ended) ∷ [];
  }

  -- What `send` has posted, run by the strand. `onWrite` only reports an error.
  unfoldable pub run_write : Option String → Session H → Session H
  run_write ended s = write_next ended s s.strand

  -- `close`, with the error of `m_stream.close` only logged. It leaves the handles.
  unfoldable pub close : Session H → Session H
  close s = if s.is_open then record s { is_open = false } else s
