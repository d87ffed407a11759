-- ===== src/Client/Provenance.antt =====
-- source/message/Requester.cpp over source/websocket/client/Session.cpp: where the answers come from.
use mathlib.Core.Path.{subst}
use zatestil.Prelude.{
  ℕ, ◌≡◌, refl, sym, ap, ◌∙◌, ◌⊎◌, inl, inr, some, List, [], ◌∷◌, ◌++◌, map, ok, Bytes, All,
  All-append, All-middle, false,
}
use zatestil.Serde.{Yas, from_json}
use zatestil.Message.{Message}
use zatestil.Message.Requester.{Requester, await_suspend}
use zatestil.Websocket.Handles.{Handles}
use zatestil.Websocket.Session as Wire
use zatestil.Websocket.Session.{
  Session, closed, failed, received, on_async_read, start_read, open_session, set_handle,
  unset_handle, send, close, run_write,
}
use zatestil.Websocket.Session.Effects.{
  start_read-posted, open_session-posted, run_write-posted, failed-posted, closed-posted,
}
use zatestil.Websocket.Session.Hearing.{received_lem}
use zatestil.Client.Effects.{
  Effect, IsTimeout, IsRead, on_timer-Effect, run_task-Effect, request_message-resumed,
}
use zatestil.Client.Composition.{constructed_lem}
use zatestil.Client.{
  Handler, Client, joined, ask, run_task, Step, asks, fires, runs, opens, closes, reads_closed,
  reads_failed, reads_failed_open, reads_message, writes, sets, unsets, Reach, start, later,
}

module _ {H : Type 0} where
  -- Each posted task carries a text of `Sent`.
  abbrev pub FromOther : (Bytes → Type 0) → Session H → Type 0
  FromOther Sent s = All (λ (task : ℕ × H × Bytes). Sent task.2) s.posted

  handles-FromOther :
      (Sent : Bytes → Type 0) (raw : Bytes) (m : Handles H)
      → Sent raw
      → All (λ (task : ℕ × H × Bytes). Sent task.2) (map (λ q. (q.0, q.1, raw)) m)
  handles-FromOther Sent raw [] sent = tt
  handles-FromOther Sent raw (q ∷ m) sent = (sent, handles-FromOther Sent raw m sent)

  received-FromOther :
      (Sent : Bytes → Type 0) (raw : Bytes) (s : Session H)
      → Sent raw
      → FromOther Sent s
      → FromOther Sent (on_async_read (received raw) s)
  received-FromOther Sent raw s sent a =
      let posted = s.posted ++ map (λ q. (q.0, q.1, raw)) s.handles in
      subst (All (λ (task : ℕ × H × Bytes). Sent task.2))
        (sym (
          ap (λ t. t.posted) (received_lem s raw)
          ∙ start_read-posted (record s { posted = posted })))
        (All-append (λ (task : ℕ × H × Bytes). Sent task.2) s.posted
          (map (λ q. (q.0, q.1, raw)) s.handles) a (handles-FromOther Sent raw s.handles sent))

  keeps-FromOther :
      (Sent : Bytes → Type 0) (s t : Session H)
      → t.posted ≡ s.posted
      → FromOther Sent s
      → FromOther Sent t
  keeps-FromOther Sent s t e a = subst (All (λ (task : ℕ × H × Bytes). Sent task.2)) (sym e) a

module _ (yas : Yas Message) (Sent : Bytes → Type 0) where
  -- A message that a text of the other side decodes to, or the answer to a request that timed out.
  abbrev pub IsFrom : ℕ × Message → Type 0
  IsFrom (h, m) = ((raw : Bytes) × Sent raw × (from_json yas raw ≡ ok m)) ⊎ IsTimeout m

  record Traced (c : Client yas) : Type 0 where
    posted : FromOther Sent c.wire.session
    resumed : All IsFrom c.requests.requester.resumed

  Effect-IsFrom :
      (P : Message → Type 0) (s after : Requester)
      → ((h : ℕ) (m : Message) → P m → IsFrom (h, m))
      → Effect P s after
      → All IsFrom s.resumed
      → All IsFrom after.resumed
  Effect-IsFrom P s after f effect a = elim effect.resumed [
    | inl e ↦ subst (All IsFrom) (sym e) a
    | inr (h, m, p, e) ↦ subst (All IsFrom) (sym e) (f h m p, a)
  ]

  keeps-Traced :
      (c d : Client yas)
      → d.wire.session.posted ≡ c.wire.session.posted
      → d.requests.requester.resumed ≡ c.requests.requester.resumed
      → Traced c
      → Traced d
  keeps-Traced c d e f t = record {
    posted = keeps-FromOther Sent c.wire.session d.wire.session e t.posted;
    resumed = subst (All IsFrom) (sym f) t.resumed;
  }

  joined-Traced : (w : Wire.System Handler) → w.session.posted ≡ [] → Traced (joined yas w)
  unfolding set_handle
  joined-Traced w idle = record {
    posted = subst (All (λ (task : ℕ × Handler × Bytes). Sent task.2)) (sym idle) tt;
    resumed = tt;
  }

  run-Traced :
      (c : Client yas) (now : Requester) (before after : List (ℕ × Handler × Bytes)) (id : ℕ)
      (h : Handler) (raw : Bytes)
      → c.wire.session.posted ≡ before ++ (id, h, raw) ∷ after
      → run_task yas h raw c.requests.requester ≡ some now
      → Traced c
      → Traced (record c {
        requests = record c.requests { requester = now };
        wire = record c.wire { session = record c.wire.session { posted = before ++ after } };
      })
  run-Traced c now before after id h raw split e t =
      let (sent, rest) =
        All-middle (λ (task : ℕ × Handler × Bytes). Sent task.2) before (id, h, raw) after
          (subst (All (λ (task : ℕ × Handler × Bytes). Sent task.2)) split t.posted) in
      record {
        posted = rest;
        resumed =
            Effect-IsFrom (IsRead yas raw) c.requests.requester now
              (λ _ m is_read. inl (raw, sent, is_read))
              (run_task-Effect yas h raw c.requests.requester now e) t.resumed;
      }

  Step-Traced : {c d : Client yas} → Step yas Sent c d → Traced c → Traced d
  unfolding ask await_suspend send close set_handle unset_handle
  Step-Traced {c = c} (asks message) t =
      keeps-Traced c (ask yas message c) refl (request_message-resumed message c.requests.requester)
        t
  Step-Traced {c = c} (fires {after = after} p small e) t = record {
    posted = t.posted;
    resumed =
        Effect-IsFrom IsTimeout c.requests.requester after (λ _ m late. inr late)
          (on_timer-Effect p c.requests.requester after e) t.resumed;
  }
  Step-Traced {c = c} (runs {now = now} before after id h raw split e) t =
      run-Traced c now before after id h raw split e t
  Step-Traced {c = c} (opens connect ssl websocket e) t =
      keeps-Traced c _ (open_session-posted connect ssl websocket c.wire.session) refl t
  Step-Traced (closes end) t = record { posted = t.posted; resumed = t.resumed }
  Step-Traced {c = c} (reads_closed e) t =
      keeps-Traced c _ (closed-posted (Wire.ended c.wire.session false)) refl t
  Step-Traced {c = c} (reads_failed message e) t =
      keeps-Traced c _ (failed-posted message (Wire.ended c.wire.session false)) refl t
  Step-Traced {c = c} (reads_failed_open message e) t =
      keeps-Traced c _ (failed-posted message (Wire.ended c.wire.session c.wire.session.is_open))
        refl t
  Step-Traced {c = c} (reads_message raw sent e) t = record {
    posted =
        received-FromOther Sent raw (Wire.ended c.wire.session c.wire.session.is_open) sent
          t.posted;
    resumed = t.resumed;
  }
  Step-Traced {c = c} (writes end) t = keeps-Traced c _ (run_write-posted end c.wire.session) refl t
  Step-Traced (sets n small) t = record { posted = t.posted; resumed = t.resumed }
  Step-Traced (unsets id other) t = record { posted = t.posted; resumed = t.resumed }

  Reach-Traced : {c : Client yas} → Reach yas Sent c → Traced c
  Reach-Traced {c = c} (start {w = w} config r quiet idle small e) =
      subst Traced (constructed_lem c w config e) (joined-Traced w idle)
  Reach-Traced (later r s) = Step-Traced s (Reach-Traced r)

  -- In every order of the steps of a client, a coroutine is resumed only with a message that a text of the
  -- other side decodes to, or with an answer that says that the request timed out.
  pub resumed_origin : {c : Client yas} → Reach yas Sent c → All IsFrom c.requests.requester.resumed
  resumed_origin r = (Reach-Traced r).resumed
