-- ===== src/Application/Main.antt =====
-- application/service/main.cpp and application/bot/main.cpp: `run` of each application.
use Prim.Native.String.{String}
use zatestil.Prelude.{
  ℕ, Bool, true, false, if◌then◌else◌, ◌≡◌, refl, ap, ◌∙◌, Option, none, some, [], ◌∷◌, Attempt, ok,
  throw,
}
use zatestil.Config.{Configuration, get, name, service_configuration}
use zatestil.Serde.{Yas}
use zatestil.Message.{Message}
use zatestil.Database.Mdbx.{Mdbx, Laws}
use zatestil.Storage.{Directories}
use zatestil.Websocket.Server.Setup.{SslEnds, AcceptorEnds}
use zatestil.Application.{
  Ending, returns, throws, Life, starting, down_successfully, uninitialized, run,
}
use zatestil.Application.Signals.{base, on_signal, pool_ends}
use zatestil.Application.Exit.{run_status, run_log, status_of}
use zatestil.Application.Bot.{construct_bot, run_impl}
use zatestil.Application.Bot.Running.{construct_bot_fails}
use zatestil.Application.Service.{Service, construct_service}
use zatestil.Application.Service.Starting.{Outcome, first_error, service_starts}

abbrev pub ending_of : {A : Type 0} → Attempt A → Ending
ending_of (ok a) = returns
ending_of (throw what) = throws what

-- `run` of an application by whether SIGINT or SIGTERM arrives, by the name in its configuration and by what its
-- constructor and its `run` come to. The destructor of the application is that of its pool. `none`: the process is
-- terminated, or it does not end.
abbrev pub status_from :
    {A : Type 0}
    → (signalled : Bool) → Option String
    → Option (Attempt A)
    → (trace : String) → Option (Attempt ℕ × Life)
status_from signalled none ending trace = none
status_from signalled (some text) none trace = none
status_from signalled (some text) (some ending) trace =
    if pool_ends signalled base then some (run text (ending_of ending) trace) else none

module _ (m : Mdbx) (H : Type 0) (open_env : String → String → m.Env)
    (from_string : String → Attempt String) where
  -- `main` of the service. `run_impl` throws nothing, and the destructor of the pool waits for a signal.
  unfoldable pub service_main :
      (signalled : Bool)
      → Configuration
      → SslEnds
      → AcceptorEnds
      → (number : ℕ) → Directories
      → (hardware : ℕ) → (trace : String) → Option (Attempt ℕ × Life)
  unfolding get construct_service run base pool_ends
  service_main signalled config ends acceptor_ends number there hardware trace =
      status_from signalled (get config name)
        (construct_service {m = m} {H = H} open_env signalled from_string config ends acceptor_ends
          number there hardware)
        trace

module _ (yas : Yas Message) (from_string : String → Attempt String) where
  abbrev pub run_bot :
      Configuration
      → (loaded connect ssl websocket : Option String)
      → Option (zatestil.Application.Bot.Bot × zatestil.Client.Client yas)
      → Option (Attempt (Unit {0}))
  run_bot config loaded connect ssl websocket none = none
  run_bot config loaded connect ssl websocket (some (bot, requester)) =
      some (run_impl from_string config loaded connect ssl websocket bot).0

  -- `main` of the bot.
  unfoldable pub bot_main :
      (signalled : Bool)
      → Configuration
      → (loaded connect ssl websocket : Option String) → (trace : String)
      → Option (Attempt ℕ × Life)
  unfolding get construct_bot run_impl run base pool_ends
  bot_main signalled config loaded connect ssl websocket trace =
      status_from signalled (get config name)
        (run_bot config loaded connect ssl websocket (construct_bot yas config)) trace

-- The ending of a service by the first error of TLS.
abbrev pub service_ending : Option String → Ending
service_ending none = returns
service_ending (some what) = throws what

module _ {m : Mdbx} (H : Type 0) (laws : Laws m) (open_env : String → String → m.Env)
    (from_string : String → Attempt String) (certificate private_key dh_params host : String)
    (ends : SslEnds) (acceptor_ends : AcceptorEnds) (number hardware : ℕ) (there : Directories)
    (trace : String) (signalled : Bool) where
  ended :
      (A : Type 0) (signal : Bool) (text : String) (a : A)
      → status_from signal (some text) (some (ok a)) trace
        ≡ (if signal then some (run text returns trace) else none)
  unfolding pool_ends on_signal base
  ended A true text a = refl
  ended A false text a = refl

  thrown :
      (A : Type 0) (signal : Bool) (what : String)
      → status_from {A = A} signal
          (some "ztsl-service")
          (if signal then some (throw what) else none)
          trace
        ≡ (if signal then some (run "ztsl-service" (throws what) trace) else none)
  unfolding pool_ends on_signal base
  thrown A true what = refl
  thrown A false what = refl

  service_run :
      (end : Option String) (constructed : Option (Attempt (Directories × Service m H)))
      → Outcome H laws open_env signalled certificate private_key dh_params host acceptor_ends
          hardware there end constructed
      → status_from signalled (some "ztsl-service") constructed trace
        ≡ (if signalled then some (run "ztsl-service" (service_ending end) trace) else none)
  unfolding Outcome
  service_run none constructed (now, s, e, _, _, _) =
      ap (λ r. status_from signalled (some "ztsl-service") r trace) e
      ∙ ended (Directories × Service m H) signalled "ztsl-service" (now, s)
  service_run (some what) constructed e =
      ap (λ r. status_from signalled (some "ztsl-service") r trace) e
      ∙ thrown (Directories × Service m H) signalled what

  -- By the laws of libmdbx, the process of a service with the configuration of the repository ends by `run` if and
  -- only if SIGINT or SIGTERM arrives, also if a call on the context of TLS threw: with the status 0 if the service was
  -- constructed, whatever the set-up of its acceptor came to, and with the status 1 if such a call threw. The log
  -- says in both cases that it shut down successfully.
  pub service_status :
      from_string "0.0.0.0" ≡ ok host
      → (life : Life) × (service_main m H open_env from_string signalled
            (service_configuration certificate private_key dh_params)
            ends
            acceptor_ends
            number
            there
            hardware
            trace
          ≡ (if signalled
              then some (ok (status_of (service_ending (first_error ends))), life)
              else none))
        × (life.lines ≡ starting "ztsl-service" ∷ down_successfully ∷ uninitialized ∷ [])
  unfolding service_main get service_configuration
  service_status e =
      let ending = service_ending (first_error ends) in
      let runs = service_run (first_error ends) _ (
        service_starts H laws open_env from_string certificate private_key dh_params host ends
          acceptor_ends number hardware there signalled e) in
      let (status, _) = run_status "ztsl-service" ending trace in
      (
        (run "ztsl-service" ending trace).1,
        runs
            ∙ ap (λ q. if signalled then some (q, (run "ztsl-service" ending trace).1) else none)
                status,
        run_log "ztsl-service" ending trace,
      )

no_ending :
    (signalled : Bool) (text : Option String) (trace : String)
    → status_from {A = Unit {0}} signalled text none trace ≡ none
no_ending signalled none trace = refl
no_ending signalled (some text) trace = refl

-- The process of the bot, whatever its configuration is and however its parts end, does not come to its end by
-- `run`: it is terminated while the bot is constructed.
pub bot_main_lem :
    (yas : Yas Message) (from_string : String → Attempt String) (config : Configuration)
    (loaded connect ssl websocket : Option String) (trace : String) (signalled : Bool)
    → bot_main yas from_string signalled config loaded connect ssl websocket trace ≡ none
unfolding bot_main get
bot_main_lem yas from_string config loaded connect ssl websocket trace signalled =
    ap
      (λ o.
        status_from signalled (get config name)
          (run_bot yas from_string config loaded connect ssl websocket o) trace)
      (construct_bot_fails yas config)
    ∙ no_ending signalled (get config name) trace
