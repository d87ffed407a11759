-- ===== src/Client/Answering.antt =====
-- source/message/Requester.cpp over source/websocket/client/Session.cpp: a response on the wire reaches
-- the coroutine that awaits it.
use zatestil.Message.{Message}
use zatestil.Client.{Client}
