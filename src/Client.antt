-- ===== src/Client.antt =====
-- source/message/Requester.cpp over source/websocket/client/Session.cpp: what a requester sends and
-- hears through its session, as the tasks of one context, which several threads run in any order.

pub mod Effects
pub mod Provenance
pub mod Answering
pub mod Listening
pub mod Leaving
pub mod Tests
pub mod Composition
use zatestil.Prelude.{
  ℕ, ◌+◌, ◌<◌, ◌≡◌, ◌≢◌, ◌^◌, Bool, true, false, Option, none, some, List, [], ◌∷◌, ◌++◌, Attempt,
  ok, throw, Bytes,
}
use Prim.Native.String.{String}
use zatestil.Serde.{Yas, to_json}
use zatestil.Config.{Configuration, ℤ, timeout_of}
use zatestil.Message.{Message}
use zatestil.Message.Requester as Requests
use zatestil.Message.Requester.{Requester, request_message, await_suspend, on_message, on_timer}
use zatestil.Websocket.Session as Wire
use zatestil.Websocket.Session.{
  Session, closed, failed, received, set_handle, unset_handle, send, on_async_read, open_session,
  close, run_write, ended,
}

-- The handle that the constructor of a requester sets, and those of others.
pub data Handler : Type 0 where
  of_requester : Handler
  of_other : ℕ → Handler

-- A requester, its session, and `m_handleId`; whether `close` was called is for the statements.
pub record Client (yas : Yas Message) : Type 0 where
  pub requests : Requests.System yas
  pub wire : Wire.System Handler
  pub handle_id : ℕ
  pub is_closed : Bool

module _ (yas : Yas Message) where
  -- After the constructor: the handle is set.
  abbrev pub joined : Wire.System Handler → Client yas
  joined w = record {
    requests = Requests.init yas;
    wire = record w {
      session = (set_handle of_requester w.handle_id w.session).2;
      handle_id = (set_handle of_requester w.handle_id w.session).1;
    };
    handle_id = (set_handle of_requester w.handle_id w.session).0;
    is_closed = false;
  }

  -- `Requester::Requester`, with the counter of the session's handles. `none`: the timeout is no number,
  -- and the exception leaves a function that is `noexcept`, or the pointer to the session is null.
  abbrev pub attached : Attempt ℤ → Option (Wire.System Handler) → Option (Client yas)
  attached (throw message) session = none
  attached (ok timeout) none = none
  attached (ok timeout) (some w) = some (joined w)

  unfoldable pub construct : Configuration → Option (Wire.System Handler) → Option (Client yas)
  unfolding timeout_of
  construct config session = attached (timeout_of config) session

  -- `co_await requester.request(message)` in a new coroutine: the text goes to the session.
  unfoldable pub ask : Message → Client yas → Client yas
  unfolding request_message await_suspend to_json send
  ask message c =
      let (p, s) = request_message message c.requests.requester in
      let text = to_json yas (s.objects p).message in
      record c {
        requests = record {
          requester = await_suspend yas p c.requests.coroutines s;
          coroutines = c.requests.coroutines + 1;
        };
        wire = record c.wire { session = send text c.wire.session; log = c.wire.log ++ text ∷ [] };
      }

  -- A task that the session has posted: the handle is called with the message.
  unfoldable pub run_task : Handler → Bytes → Requester → Option Requester
  unfolding on_message
  run_task of_requester raw s = on_message yas raw s
  run_task (of_other n) raw s = some s

  -- `Requester::~Requester`
  unfoldable pub destroy : Client yas → Client yas
  unfolding unset_handle
  destroy c = record c {
    wire = record c.wire { session = (unset_handle c.handle_id c.wire.session).1 };
  }

  -- What may happen to a client. `Sent` holds of the texts that the other side sends. The session has no
  -- other user that sends, nobody else unsets the handle of the requester, and the requester lives on. A step is taken
  -- by a thread of the pool that does not hang; how many of them are left is not counted.
  pub data Step (Sent : Bytes → Type 0) (c : Client yas) : Client yas → Type 0 where
    asks : (message : Message) → Step Sent c (ask message c)
    fires :
        {after : Requester} (p : ℕ)
        → p < c.requests.requester.count
        → on_timer p c.requests.requester ≡ some after
        → Step Sent c (record c { requests = record c.requests { requester = after } })
    runs :
        {now : Requester} (before after : List (ℕ × Handler × Bytes)) (id : ℕ) (h : Handler)
        (raw : Bytes)
        → c.wire.session.posted ≡ before ++ (id, h, raw) ∷ after
        → run_task h raw c.requests.requester ≡ some now
        → Step Sent c (record c {
          requests = record c.requests { requester = now };
          wire = record c.wire { session = record c.wire.session { posted = before ++ after } };
        })
    opens :
        (connect ssl websocket : Option String)
        → c.wire.called ≡ false
        → Step Sent c (record c {
          wire = record c.wire {
            session = (open_session connect ssl websocket c.wire.session).1;
            called = true;
          };
        })
    closes :
        (end : Option String)
        → Step Sent c (record c {
          wire = record c.wire { session = (close end c.wire.session).1 };
          is_closed = true;
        })
    reads_closed :
        0 < c.wire.session.reading
        → Step Sent c (record c {
          wire = record c.wire { session = on_async_read closed (ended c.wire.session false) };
        })
    reads_failed :
        (message : String)
        → 0 < c.wire.session.reading
        → Step Sent c (record c {
          wire = record c.wire {
            session = on_async_read (failed message) (ended c.wire.session false);
          };
        })
    reads_failed_open :
        (message : String)
        → 0 < c.wire.session.reading
        → Step Sent c (record c {
          wire = record c.wire {
            session = on_async_read (failed message) (ended c.wire.session c.wire.session.is_open);
          };
        })
    reads_message :
        (raw : Bytes)
        → Sent raw
        → 0 < c.wire.session.reading
        → Step Sent c (record c {
          wire = record c.wire {
            session = on_async_read (received raw) (ended c.wire.session c.wire.session.is_open);
          };
        })
    writes :
        (end : Option String)
        → Step Sent c (record c { wire = record c.wire { session = run_write end c.wire.session } })
    sets :
        (n : ℕ)
        → c.wire.handle_id + 1 < 2 ^ 64
        → Step Sent c (record c {
          wire = record c.wire {
            session = (set_handle (of_other n) c.wire.handle_id c.wire.session).2;
            handle_id = (set_handle (of_other n) c.wire.handle_id c.wire.session).1;
          };
        })
    unsets :
        (id : ℕ)
        → c.handle_id ≢ id
        → Step Sent c
            (record c { wire = record c.wire { session = (unset_handle id c.wire.session).1 } })

  -- A client starts with a session that it does not share, in any state that has sent nothing yet.
  pub data Reach (Sent : Bytes → Type 0) : Client yas → Type 0 where
    start :
        {c : Client yas} {w : Wire.System Handler} (config : Configuration)
        → Wire.Reach w
        → w.log ≡ []
        → w.session.posted ≡ []
        → w.handle_id + 1 < 2 ^ 64
        → construct config (some w) ≡ some c
        → Reach Sent c
    later : {c d : Client yas} → Reach Sent c → Step Sent c d → Reach Sent d
