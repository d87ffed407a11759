-- ===== src/Application/Bot/Tests.antt =====
-- application/bot/BotApplication.cpp: a bot that cannot connect, and a poll that fails.
use zatestil.Prelude.{◌≡◌, refl, true, none, some, [], ◌∷◌, ok}
use zatestil.Config.{bot_configuration}
use zatestil.Application.Bot.{
  Poll, returns, throws, poll_error, poll_task, blank, endpoint_of, run_impl,
}
use zatestil.Application.Bot.Polling.{poll_task_lem}
use zatestil.Application.Bot.Running.{Outcome, run_impl_lem}

abbrev good_poll : Poll
good_poll = record { ending = returns; running = true }

abbrev bad_poll : Poll
bad_poll = record { ending = throws "timeout" "main"; running = true }

poll_task_lem_example :
    poll_task good_poll (good_poll ∷ bad_poll ∷ good_poll ∷ []) []
    ≡ some (poll_error "timeout" "main" ∷ [], good_poll ∷ [])
poll_task_lem_example =
    poll_task_lem good_poll (good_poll ∷ []) bad_poll (good_poll ∷ []) [] (refl, (refl, tt)) refl

run_impl_lem_example :
    Outcome blank
      (run_impl ok (bot_configuration "" "") none (some "refused") none none blank)
      true
      true
      (some "refused")
      none
      none
unfolding endpoint_of bot_configuration
run_impl_lem_example =
    run_impl_lem ok (bot_configuration "" "") none (some "refused") none none blank refl
