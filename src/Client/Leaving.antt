-- ===== src/Client/Leaving.antt =====
-- source/message/Requester.cpp over source/websocket/client/Session.cpp: after the
-- destructor of a requester.
use zatestil.Prelude.{◌≤◌, ◌≡◌, none, false, Bytes}
use zatestil.Serde.{Yas}
use zatestil.Message.{Message}
use zatestil.Websocket.Handles.{find}
use zatestil.Websocket.Session as Wire
use zatestil.Websocket.Session.Unset.{pending, Runs, unset_deaf}
use zatestil.Client.Composition.{Reach-Halves}
use zatestil.Client.Listening.{Reach-Listening}
use zatestil.Client.{Handler, of_requester, Client, destroy, Reach}

-- When the requester of a client whose session was not closed is destroyed, the session has no handle under
-- its id from then on, whatever happens to the session. The tasks that call the handle are at most as many as
-- were posted before: none is posted for a message that is read later.
pub destroy_lem :
    {yas : Yas Message} {Sent : Bytes → Type 0} {c : Client yas} {u : Wire.System Handler}
    → Reach yas Sent c
    → c.is_closed ≡ false
    → Runs (destroy yas c).wire u
    → (find c.handle_id u.session.handles ≡ none)
      × (pending c.handle_id u.session.posted ≤ pending c.handle_id c.wire.session.posted)
unfolding destroy
destroy_lem {c = c} reached live runs =
    unset_deaf c.handle_id of_requester (Reach-Halves reached).wire (Reach-Listening reached live)
      runs
