-- ===== src/Websocket/Tests.antt =====
-- source/websocket: a session that opens, sets two handles and reads a message.
use zatestil.Prelude.{ℕ, ◌≡◌, ◌≤◌, refl, true, false, none, some, [], ◌∷◌, if◌then◌else◌, arith}
use zatestil.Util.Result.{is_ok}
use zatestil.Util.OnScopeExit.{scoped, make, destroy}
use zatestil.Websocket.Handles.{insert}
use zatestil.Websocket.Session.{
  System, init, ended, received, failed, open_session, set_handle, unset_handle, on_async_read,
  on_read, start_read, send, post_all, opens, sets, sends, Reach, start, later,
}
use zatestil.Websocket.Session.Safety.{one_read, reads_go_on}
use zatestil.Prelude.{ok, throw, All}
use zatestil.Websocket.Server
use zatestil.Websocket.Server.{
  Server, run, start_accept, on_async_accept, accepts, unstarted, unstarted,
}
use zatestil.Websocket.Server.Safety.{IsSane, server-IsSane, is_lost, on_async_accept_lem}
use zatestil.Websocket.ServerSession
use zatestil.Websocket.Session.{run_write}
use zatestil.Websocket.ServerSession.Shared.{as_client, on_set, on_unset, shared_refines}

-- Handles are numbers here.
abbrev opened : System ℕ
opened = record init {
  session = (open_session none none none (init {H = ℕ}).session).1;
  called = true;
}

opened-Reach : Reach opened
opened-Reach = later {t = opened} start (opens none none none refl)

abbrev with_handle : System ℕ
with_handle = record opened {
  session = (set_handle 8 0 opened.session).2;
  handle_id = (set_handle 8 0 opened.session).1;
}

with_handle-Reach : Reach with_handle
with_handle-Reach = later {t = with_handle} opened-Reach (sets 8 (omega arith))

abbrev sent : System ℕ
sent = record with_handle { session = send (4 ∷ []) with_handle.session; log = (4 ∷ []) ∷ [] }

sent-Reach : Reach sent
sent-Reach = later {t = sent} with_handle-Reach (sends (4 ∷ []))

-- The message 9 is posted for the handle, and the next read has started.
heard :
    on_async_read (received (9 ∷ [])) (ended with_handle.session true)
    ≡ record with_handle.session { posted = (0, 8, 9 ∷ []) ∷ [] }
unfolding on_async_read on_read scoped make destroy start_read is_ok post_all set_handle insert
    open_session
heard = refl

-- After an error on a stream that is closed, no read starts.
stops : (on_async_read (failed "reset") (ended with_handle.session false)).reading ≡ 0
unfolding on_async_read on_read scoped make destroy start_read is_ok post_all set_handle insert
    open_session
stops = refl

one_read_example : sent.session.reading ≤ 1
one_read_example = one_read sent-Reach

reads_go_on_example : opened.session.reading ≡ 1
unfolding open_session start_read
reads_go_on_example = reads_go_on opened-Reach refl

abbrev listening : Server ℕ
listening = run unstarted

-- A client has come, and its session opens.
abbrev visited : Server ℕ
visited = (on_async_accept none (ok "client:1") (record listening { accepting = 0 })).1

visited-Reach : Server.Reach visited
unfolding run start_accept
visited-Reach = Server.later {t = visited} Server.start (accepts none (ok "client:1") (omega arith))

server-IsSane_example : (visited.accepting ≤ 1) × All IsSane visited.sessions
server-IsSane_example = server-IsSane visited-Reach

on_async_accept_lem_example :
    (on_async_accept
      (some "aborted")
      (throw "not connected")
      (record listening { accepting = 0 })).1.accepting
    ≡ (if is_lost (some "aborted") (throw "not connected") then 0 else 1)
on_async_accept_lem_example =
    on_async_accept_lem (some "aborted") (throw "not connected")
      (record listening { accepting = 0 }) refl

-- A session of the server with one handle.
abbrev serving : ServerSession.Session ℕ
serving = record ServerSession.made { is_open = true; handles = (3, 8) ∷ [] }

shared_refines_example :
    (as_client (ServerSession.start_read serving) ≡ start_read (as_client serving))
    × (as_client (ServerSession.on_async_read (received (9 ∷ [])) serving)
        ≡ on_async_read (received (9 ∷ [])) (as_client serving))
    × (on_set as_client (ServerSession.set_handle 7 4 serving) ≡ set_handle 7 4 (as_client serving))
    × (on_unset as_client (ServerSession.unset_handle 3 serving)
        ≡ unset_handle 3 (as_client serving))
    × (as_client (ServerSession.send (5 ∷ []) serving) ≡ send (5 ∷ []) (as_client serving))
    × (as_client (ServerSession.run_write none serving) ≡ run_write none (as_client serving))
shared_refines_example = shared_refines serving (received (9 ∷ [])) 7 4 3 (5 ∷ []) none
