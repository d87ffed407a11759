-- ===== src/Websocket/Session.antt =====
-- include/websocket/client/Session.hpp and source/websocket/client/Session.cpp. Of boost::beast and
-- boost::asio the model has what the session can see: whether the stream is open, how many reads
-- are pending, what was posted to the context and to the strand, and how each operation ended,
-- which is an argument. The error code of an operation is its text, and `none` is success.
pub mod Safety
pub mod Hearing
pub mod Effects
pub mod Unset
use Prim.Native.String.{String}
use Prim.Native.String
use zatestil.Prelude.{
  ℕ, ◌+◌, ◌-◌, ◌<◌, ◌%◌, ◌^◌, ◌≡◌, Bool, true, false, Option, none, some, List, [], ◌∷◌, ◌++◌,
  if◌then◌else◌, ok, Bytes,
}
use zatestil.Util.Result.{Result, error, succeeded, is_ok}
use zatestil.Util.OnScopeExit.{Code, make, scoped}
use zatestil.Websocket.Handles.{Handles, insert, erase}

pub record Session (H : Type 0) : Type 0 where
  pub is_open : Bool  -- m_stream.is_open()
  pub reading : ℕ  -- reads of m_stream that are pending
  pub handles : Handles H  -- m_handles
  pub posted : List (ℕ × H × Bytes)  -- posted to m_context: call the handle with the message
  pub strand : List Bytes  -- posted to m_wStrand, and not yet written
  pub written : List (Bytes × Option String)  -- the calls of m_stream.write, with their ends

-- How a read ends: `websocket::error::closed`, another error, or a message.
pub data ReadEnd : Type 0 where
  closed : ReadEnd
  failed : String → ReadEnd
  received : Bytes → ReadEnd

abbrev failure : String → String → Result
failure what reason = record { code = error; message = String.◌++◌ what reason }

abbrev close_result : Option String → Result
close_result none = succeeded
close_result (some e) = failure "websocket client session close error " e

module _ {H : Type 0} where
  unfoldable pub start_read : Session H → Session H
  start_read s = if s.is_open then record s { reading = s.reading + 1 } else s

  -- `open`, by the ends of the connection and of the two handshakes.
  unfoldable pub open_session :
      (connect ssl websocket : Option String) → Session H → Result × Session H
  unfolding start_read
  open_session (some e) ssl websocket s = (failure "websocket client session open error " e, s)
  open_session none (some e) websocket s =
      (failure "websocket client session handshake error " e, s)
  open_session none none (some e) s =
      (failure "websocket client session perform handshake error " e, s)
  open_session none none none s = (succeeded, start_read (record s { is_open = true }))

  -- `close`. The stream is not open after its own `close`, however that ends.
  unfoldable pub close : Option String → Session H → Result × Session H
  close ended s = (close_result ended, record s { handles = []; is_open = false })

  -- `~Session`
  unfoldable pub destroy_session : Option String → Session H → Session H
  unfolding close
  destroy_session ended s = (close ended s).1

  -- `setHandle`, on the static counter: the id, the counter after it, and the session.
  unfoldable pub set_handle : H → ℕ → Session H → ℕ × ℕ × Session H
  set_handle h counter s =
      (counter, (counter + 1) % 2 ^ 64, record s { handles = insert counter h s.handles })

  unfoldable pub unset_handle : ℕ → Session H → Bool × Session H
  unset_handle id s =
      let (left, erased) = erase id s.handles in (erased, record s { handles = left })

  -- The loop of `onRead`.
  unfoldable pub post_all : Handles H → Bytes → List (ℕ × H × Bytes) → List (ℕ × H × Bytes)
  post_all [] raw posted = posted
  post_all ((id, h) ∷ m) raw posted = post_all m raw (posted ++ (id, h, raw) ∷ [])

  abbrev restart : Code (Session H) (Unit {0})
  restart s = (ok tt, start_read s)

  abbrev handle_read : Result → Bytes → Code (Session H) (Unit {0})
  handle_read result raw s =
      if is_ok result
      then (ok tt, record s { posted = post_all s.handles raw s.posted })
      else (ok tt, s)

  -- `onRead`, with the buffer: the guard starts the next read when the function is left.
  unfoldable pub on_read : Result → Bytes → Session H → Session H
  unfolding start_read post_all scoped make is_ok
  on_read result raw s = (scoped (make restart) (handle_read result raw) s).1

  -- The handler of `async_read`.
  unfoldable pub on_async_read : ReadEnd → Session H → Session H
  unfolding on_read
  on_async_read closed s = s
  on_async_read (failed message) s = on_read (record { code = error; message = message }) [] s
  on_async_read (received raw) s = on_read succeeded raw s

  -- `send`
  unfoldable pub send : Bytes → Session H → Session H
  send data' s = record s { strand = s.strand ++ data' ∷ [] }

  abbrev pub write_next : Option String → Session H → List Bytes → Session H
  write_next ended s [] = s
  write_next ended s (data' ∷ next) = record s {
    strand = next;
    written = s.written ++ (data', ended) ∷ [];
  }

  -- What `send` has posted, run by the strand. `onWrite` only reports an error.
  unfoldable pub run_write : Option String → Session H → Session H
  run_write ended s = write_next ended s s.strand

-- A session, the counter of handles, whether `open` was called, and all that was given to `send`.
pub record System (H : Type 0) : Type 0 where
  pub session : Session H
  pub handle_id : ℕ
  pub called : Bool
  pub log : List Bytes

-- The constructor.
abbrev pub made : {H : Type 0} → Session H
made = record { is_open = false; reading = 0; handles = []; posted = []; strand = []; written = [] }

abbrev pub init : {H : Type 0} → System H
init = record { session = made; handle_id = 0; called = false; log = [] }

-- A read that ends is no longer pending, and may leave the stream closed.
abbrev pub ended : {H : Type 0} → Session H → Bool → Session H
ended s is_open = record s { reading = s.reading - 1; is_open = is_open }

-- What may happen, in any order. `open` is called once. A stream that reports `closed` is not open,
-- and one that is not open does not open again. Handles are set fewer than `2 ^ 64` times.
pub data Step {H : Type 0} (s : System H) : System H → Type 0 where
  opens :
      (connect ssl websocket : Option String)
      → s.called ≡ false
      → Step s
          (record s { session = (open_session connect ssl websocket s.session).1; called = true })
  closes : (end : Option String) → Step s (record s { session = (close end s.session).1 })
  reads_closed :
      0 < s.session.reading
      → Step s (record s { session = on_async_read closed (ended s.session false) })
  reads_failed :
      (message : String)
      → 0 < s.session.reading
      → Step s (record s { session = on_async_read (failed message) (ended s.session false) })
  reads_failed_open :
      (message : String)
      → 0 < s.session.reading
      → Step s (record s {
        session = on_async_read (failed message) (ended s.session s.session.is_open);
      })
  reads_message :
      (raw : Bytes)
      → 0 < s.session.reading
      → Step s
          (record s { session = on_async_read (received raw) (ended s.session s.session.is_open) })
  sends :
      (data' : Bytes)
      → Step s (record s { session = send data' s.session; log = s.log ++ data' ∷ [] })
  writes : (end : Option String) → Step s (record s { session = run_write end s.session })
  sets :
      (h : H)
      → s.handle_id + 1 < 2 ^ 64
      → Step s (record s {
        session = (set_handle h s.handle_id s.session).2;
        handle_id = (set_handle h s.handle_id s.session).1;
      })
  unsets : (id : ℕ) → Step s (record s { session = (unset_handle id s.session).1 })
  runs :
      (before after : List (ℕ × H × Bytes)) (task : ℕ × H × Bytes)
      → s.session.posted ≡ before ++ task ∷ after
      → Step s (record s { session = record s.session { posted = before ++ after } })

pub data Reach {H : Type 0} : System H → Type 0 where
  start : Reach init
  later : {s t : System H} → Reach s → Step s t → Reach t
