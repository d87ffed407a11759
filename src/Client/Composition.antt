-- ===== src/Client/Composition.antt =====
-- source/message/Requester.cpp over source/websocket/client/Session.cpp: each half runs as it does alone.
use mathlib.Core.Path.{subst}
use mathlib.Core.Option.{some-injective}
use zatestil.Prelude.{
  ◌+◌, ◌<◌, ◌≡◌, ◌^◌, Bool, true, refl, sym, ap, ◌∙◌, some, [], ◌∷◌, ◌++◌, map, Attempt-cases, inl,
  inr, Bytes,
}
use zatestil.Serde.{Yas, to_json}
use zatestil.Config.{Configuration, timeout_of}
use zatestil.Message.{Message}
use zatestil.Message.Requester as Requests
use zatestil.Message.Requester.{Requester, request_message, await_suspend}
use zatestil.Websocket.Session as Wire
use zatestil.Websocket.Session.{send}
use zatestil.Websocket.Session.Safety.{writes_in_order}
use zatestil.Client.Effects.{request_message-sent, on_timer-Effect, run_task-Effect}
use zatestil.Client.{
  Handler, of_requester, of_other, Client, joined, attached, construct, ask, run_task, Step, asks,
  fires, runs, opens, closes, reads_closed, reads_failed, reads_failed_open, reads_message, writes,
  sets, unsets, Reach, start, later,
}

-- The state of the requester and that of the session are those of each alone, and what the requester
-- sent is what the session was given.
pub record Halves (yas : Yas Message) (c : Client yas) : Type 0 where
  pub requests : Requests.Reach yas c.requests
  pub wire : Wire.Reach c.wire
  pub sent : c.requests.requester.sent ≡ c.wire.log

module _ {yas : Yas Message} where
  pub constructed_lem :
      (c : Client yas) (w : Wire.System Handler) (config : Configuration)
      → construct yas config (some w) ≡ some c
      → joined yas w ≡ c
  unfolding construct
  constructed_lem c w config e = elim (Attempt-cases (timeout_of config)) [
    | inl (timeout, f) ↦ some-injective _ _ (sym (ap (λ t. attached yas t (some w)) f) ∙ e)
    | inr (text, f) ↦ absurd (cc (ap (λ t. attached yas t (some w)) f, e))
  ]

  joined-Halves :
      (w : Wire.System Handler)
      → Wire.Reach w
      → w.log ≡ []
      → w.handle_id + 1 < 2 ^ 64
      → Halves yas (joined yas w)
  joined-Halves w r quiet small = record {
    requests = Requests.start;
    wire = Wire.later r (Wire.sets of_requester small);
    sent = sym quiet;
  }

  ask-Halves : (c : Client yas) (message : Message) → Halves yas c → Halves yas (ask yas message c)
  unfolding ask Requests.ask await_suspend send
  ask-Halves c message h =
      let (p, s) = request_message message c.requests.requester in
      let text = to_json yas (s.objects p).message in
      record {
        requests = Requests.later h.requests (Requests.asks message);
        wire = Wire.later h.wire (Wire.sends text);
        sent =
            ap (λ l. l ++ text ∷ []) (request_message-sent message c.requests.requester ∙ h.sent);
      }

  run_task-Reach :
      {s : Requests.System yas} (h : Handler) (raw : Bytes) (after : Requester)
      → Requests.Reach yas s
      → run_task yas h raw s.requester ≡ some after
      → Requests.Reach yas (record s { requester = after })
  unfolding run_task
  run_task-Reach of_requester raw after r e = Requests.later r (Requests.receives raw e)
  run_task-Reach {s = s} (of_other n) raw after r e =
      subst (λ t. Requests.Reach yas (record s { requester = t })) (some-injective _ _ e) r

  -- A step of the session alone.
  wire-Halves :
      (c : Client yas) {w : Wire.System Handler} (is_closed : Bool)
      → Halves yas c
      → Wire.Step c.wire w
      → w.log ≡ c.wire.log
      → Halves yas (record c { wire = w; is_closed = is_closed })
  wire-Halves c is_closed h step quiet = record {
    requests = h.requests;
    wire = Wire.later h.wire step;
    sent = h.sent ∙ sym quiet;
  }

module _ {yas : Yas Message} {Sent : Bytes → Type 0} where
  Step-Halves : {c d : Client yas} → Step yas Sent c d → Halves yas c → Halves yas d
  Step-Halves {c = c} (asks message) h = ask-Halves c message h
  Step-Halves {c = c} (fires {after = after} p small e) h = record {
    requests = Requests.later h.requests (Requests.fires p small e);
    wire = h.wire;
    sent = (on_timer-Effect p c.requests.requester after e).sent ∙ h.sent;
  }
  Step-Halves {c = c} (runs {now = now} before after id handler raw split e) h = record {
    requests = run_task-Reach handler raw now h.requests e;
    wire = Wire.later h.wire (Wire.runs before after (id, handler, raw) split);
    sent = (run_task-Effect yas handler raw c.requests.requester now e).sent ∙ h.sent;
  }
  Step-Halves {c = c} (opens connect ssl websocket e) h =
      wire-Halves c c.is_closed h (Wire.opens connect ssl websocket e) refl
  Step-Halves {c = c} (closes end) h = wire-Halves c true h (Wire.closes end) refl
  Step-Halves {c = c} (reads_closed e) h = wire-Halves c c.is_closed h (Wire.reads_closed e) refl
  Step-Halves {c = c} (reads_failed message e) h =
      wire-Halves c c.is_closed h (Wire.reads_failed message e) refl
  Step-Halves {c = c} (reads_failed_open message e) h =
      wire-Halves c c.is_closed h (Wire.reads_failed_open message e) refl
  Step-Halves {c = c} (reads_message raw sent e) h =
      wire-Halves c c.is_closed h (Wire.reads_message raw e) refl
  Step-Halves {c = c} (writes end) h = wire-Halves c c.is_closed h (Wire.writes end) refl
  Step-Halves {c = c} (sets n small) h =
      wire-Halves c c.is_closed h (Wire.sets (of_other n) small) refl
  Step-Halves {c = c} (unsets id other) h = wire-Halves c c.is_closed h (Wire.unsets id) refl

  pub Reach-Halves : {c : Client yas} → Reach yas Sent c → Halves yas c
  Reach-Halves {c = c} (start {w = w} config r quiet idle small e) =
      subst (Halves yas) (constructed_lem c w config e) (joined-Halves w r quiet small)
  Reach-Halves (later r s) = Step-Halves s (Reach-Halves r)

  -- As long as nobody else sends through its session, the requests of a client were written, or wait on the
  -- strand of the session, in the order in which they were made, and nothing else is between them. This
  -- holds in every order of requests, timers, reads, writes and tasks, also of other users' handles
  -- and after the session was closed. Each half of the client is in a state that it reaches alone.
  pub requests_in_order :
      {c : Client yas}
      → Reach yas Sent c
      → (map (λ q. q.0) c.wire.session.written ++ c.wire.session.strand ≡ c.requests.requester.sent)
        × Requests.Reach yas c.requests
        × Wire.Reach c.wire
  requests_in_order r =
      let h = Reach-Halves r in (writes_in_order h.wire ∙ sym h.sent, h.requests, h.wire)
