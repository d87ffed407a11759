-- ===== src/Client/Tests.antt =====
-- source/message/Requester.cpp over source/websocket/client/Session.cpp: a request and its response.
use zatestil.Prelude.{◌≡◌, refl, true, none, some, [], ◌∷◌, ◌++◌, map, arith, Bytes, All}
use zatestil.Config.{bot_configuration, timeout_of}
use zatestil.Message.Requester as Requests
use zatestil.Message.Requester.{Requester, request_message, await_suspend}
use zatestil.Message.Tests.{one_message, answers}
use zatestil.Websocket.Session as Wire
use zatestil.Websocket.Session.{
  ended, start_read, send, set_handle, received, on_async_read, open_session, start_read,
  set_handle, send,
}
use zatestil.Client.{Handler, Client, construct, joined, ask, asks, opens, Reach, start, later}
use zatestil.Client.Composition.{requests_in_order}
use zatestil.Client.Provenance.{IsFrom, resumed_origin}
use zatestil.Prelude.{◌≤◌}
use zatestil.Websocket.Handles.{find}
use zatestil.Websocket.Session.{on_read, post_all, unset_handle}
use zatestil.Websocket.Session.Unset.{pending, here, onward}
use zatestil.Util.OnScopeExit
use zatestil.Util.OnScopeExit.{scoped, make}
use zatestil.Util.Result.{is_ok}
use zatestil.Client.{destroy, reads_message}
use zatestil.Client.Leaving.{destroy_lem}

-- The other side sends only the text 1.
abbrev pub One : Bytes → Type 0
One raw = raw ≡ 1 ∷ []

abbrev bot : Client answers
bot = joined answers (Wire.init {H = Handler})

made : construct answers (bot_configuration "" "") (some (Wire.init {H = Handler})) ≡ some bot
unfolding construct timeout_of bot_configuration
made = refl

abbrev pub open_bot : Client answers
open_bot = record bot {
  wire = record bot.wire {
    session = (open_session none none none bot.wire.session).1;
    called = true;
  };
}

abbrev asking : Client answers
asking = ask answers one_message open_bot

pub open_bot-Reach : Reach answers One open_bot
open_bot-Reach =
    later {d = open_bot}
      (start {c = bot} {w = Wire.init {H = Handler}} (bot_configuration "" "") Wire.start refl refl
        (omega arith) made)
      (opens none none none refl)

asking-Reach : Reach answers One asking
asking-Reach = later {d = asking} open_bot-Reach (asks one_message)

requests_in_order_example :
    (map (λ q. q.0) asking.wire.session.written ++ asking.wire.session.strand
      ≡ asking.requests.requester.sent)
    × Requests.Reach answers asking.requests
    × Wire.Reach asking.wire
requests_in_order_example = requests_in_order asking-Reach

resumed_origin_example : All (IsFrom answers One) asking.requests.requester.resumed
resumed_origin_example = resumed_origin answers One asking-Reach

-- A message was read, and its task waits.
abbrev heard : Client answers
heard = record asking {
  wire = record asking.wire {
    session =
        on_async_read (received (1 ∷ [])) (ended asking.wire.session asking.wire.session.is_open);
  };
}

heard-Reach : Reach answers One heard
unfolding ask request_message await_suspend open_session start_read send set_handle
heard-Reach = later {d = heard} asking-Reach (reads_message (1 ∷ []) refl (omega arith))

-- The session of the requester that was destroyed reads one more message.
abbrev after_destroy : Wire.System Handler
after_destroy = record (destroy answers heard).wire {
  session =
      on_async_read (received (1 ∷ []))
        (ended (destroy answers heard).wire.session (destroy answers heard).wire.session.is_open);
}

destroy_lem_example :
    (find heard.handle_id after_destroy.session.handles ≡ none)
    × (pending heard.handle_id after_destroy.session.posted
        ≤ pending heard.handle_id heard.wire.session.posted)
unfolding ask request_message await_suspend open_session start_read send set_handle on_async_read
    on_read scoped make OnScopeExit.destroy is_ok destroy unset_handle post_all
destroy_lem_example =
    destroy_lem {u = after_destroy} heard-Reach refl
      (onward {u = (destroy answers heard).wire} here (Wire.reads_message (1 ∷ []) (omega arith)))
