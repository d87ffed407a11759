-- ===== src/Application/Bot/Running.antt =====
-- application/bot/BotApplication.cpp: what `run_impl` leaves behind.
use Prim.Native.String.{String}
use zatestil.Prelude.{
  ℕ, ◌+◌, ◌≡◌, refl, ap, Bool, true, false, ◌&&◌, not, Option, none, some, Attempt, ok, throw,
  Attempt-cases, inl, inr,
}
use zatestil.Config.{Configuration, timeout_of}
use zatestil.Util.Result.{is_ok}
use zatestil.Serde.{Yas}
use zatestil.Message.{Message}
use zatestil.Client.{construct, attached, Handler}
use zatestil.Websocket.Session as Wire
use zatestil.Websocket.Session.{open_session, start_read}
use zatestil.Application.Bot.{Bot, construct_bot, endpoint_of, connected, run_impl}

abbrev pub is_none : {A : Type 0} → Option A → Bool
is_none none = true
is_none (some a) = false

abbrev pub is_thrown : {A : Type 0} → Attempt A → Bool
is_thrown (ok a) = false
is_thrown (throw what) = true

-- Whether the bot has a session whose stream is open.
abbrev pub has_open : Option (Wire.System Handler) → Bool
has_open none = false
has_open (some w) = w.session.is_open

-- Whatever the configuration is, the constructor of the bot has no result: its requester is given a null pointer.
pub construct_bot_fails :
    (yas : Yas Message) (config : Configuration) → construct_bot yas config ≡ none
unfolding construct_bot construct
construct_bot_fails yas config = elim (Attempt-cases (timeout_of config)) [
  | inl (timeout, e) ↦ rw (e, construct_bot, construct, attached) refl
  | inr (text, e) ↦ rw (e, construct_bot, construct, attached) refl
]

-- What `run_impl` does, by whether the certificate was loaded, whether the endpoint was valid, and how the
-- parts of `open` ended.
pub record Outcome (b : Bot) (ended : Attempt (Unit {0}) × Bot) (loaded valid : Bool)
    (connect ssl websocket : Option String) : Type 0 where
  pub on_start : ended.1.on_start ≡ true
  pub on_any_message : ended.1.on_any_message ≡ true
  pub polls : ended.1.polls ≡ b.polls + 1
  pub thrown : is_thrown ended.0 ≡ (loaded && not valid)
  pub opened :
      has_open ended.1.session
      ≡ (loaded && (valid && (is_none connect && (is_none ssl && is_none websocket))))

connected-Outcome :
    (endpoint : Attempt (String × ℕ)) (connect ssl websocket : Option String) (b : Bot)
    → b.session ≡ none
    → Outcome b
        (connected endpoint connect ssl websocket
          (record b { on_start = true; on_any_message = true; polls = b.polls + 1 }))
        true
        (not (is_thrown endpoint))
        connect
        ssl
        websocket
unfolding open_session start_read is_ok
connected-Outcome (throw what) connect ssl websocket b e = record {
  on_start = refl;
  on_any_message = refl;
  polls = refl;
  thrown = refl;
  opened = ap has_open e;
}
connected-Outcome (ok endpoint) (some what) ssl websocket b e = record {
  on_start = refl;
  on_any_message = refl;
  polls = refl;
  thrown = refl;
  opened = refl;
}
connected-Outcome (ok endpoint) none (some what) websocket b e = record {
  on_start = refl;
  on_any_message = refl;
  polls = refl;
  thrown = refl;
  opened = refl;
}
connected-Outcome (ok endpoint) none none (some what) b e = record {
  on_start = refl;
  on_any_message = refl;
  polls = refl;
  thrown = refl;
  opened = refl;
}
connected-Outcome (ok endpoint) none none none b e = record {
  on_start = refl;
  on_any_message = refl;
  polls = refl;
  thrown = refl;
  opened = refl;
}

-- However it ends, `run_impl` of a bot without a session has registered both handlers and posted one task that
-- polls. It throws exactly if the certificate was loaded and the endpoint is not valid, and the bot has
-- an open session exactly if neither of these, the connection nor a handshake has failed: after any
-- other failure it polls without one.
pub run_impl_lem :
    (from_string : String → Attempt String) (config : Configuration)
    (loaded connect ssl websocket : Option String) (b : Bot)
    → b.session ≡ none
    → Outcome b
        (run_impl from_string config loaded connect ssl websocket b)
        (is_none loaded)
        (not (is_thrown (endpoint_of from_string config)))
        connect
        ssl
        websocket
unfolding run_impl
run_impl_lem from_string config (some what) connect ssl websocket b e = record {
  on_start = refl;
  on_any_message = refl;
  polls = refl;
  thrown = refl;
  opened = ap has_open e;
}
run_impl_lem from_string config none connect ssl websocket b e =
    connected-Outcome (endpoint_of from_string config) connect ssl websocket b e
