-- ===== src/Application/Bot/Polling.antt =====
-- application/bot/BotApplication.cpp: when the bot stops to poll.
use zatestil.Prelude.{◌≡◌, refl, ◌∙◌, true, false, not, Bool, ◌||◌, some, List, [], ◌∷◌, ◌++◌, All}
use zatestil.Application.Bot.{
  Ending, returns, throws, throws_unknown, Poll, LogLine, caught, poll_from, poll_task,
}

abbrev pub has_thrown : Ending → Bool
has_thrown returns = false
has_thrown (throws what trace) = true
has_thrown (throws_unknown trace) = true

-- After this call the loop ends: it threw, or the application is not running.
abbrev pub is_last : Poll → Bool
is_last poll = has_thrown poll.ending || not poll.running

poll_from-last :
    (e : Ending) (running : Bool) (rest : List Poll) (lines : List LogLine)
    → has_thrown e || not running ≡ true
    → poll_from true (record { ending = e; running = running } ∷ rest) lines
      ≡ some (caught e lines, rest)
unfolding poll_from
poll_from-last returns true rest lines e = absurd (cc e)
poll_from-last returns false rest lines e = refl
poll_from-last (throws what trace) running rest lines e = refl
poll_from-last (throws_unknown trace) running rest lines e = refl

poll_from-next :
    (e : Ending) (running : Bool) (rest : List Poll) (lines : List LogLine)
    → has_thrown e || not running ≡ false
    → poll_from true (record { ending = e; running = running } ∷ rest) lines
      ≡ poll_from true rest lines
unfolding poll_from
poll_from-next returns true rest lines e = refl
poll_from-next returns false rest lines e = absurd (cc e)
poll_from-next (throws what trace) running rest lines e = absurd (cc e)
poll_from-next (throws_unknown trace) running rest lines e = absurd (cc e)

poll_from_lem :
    (polls : List Poll) (last : Poll) (rest : List Poll) (lines : List LogLine)
    → All (λ p. is_last p ≡ false) polls
    → is_last last ≡ true
    → poll_from true (polls ++ last ∷ rest) lines ≡ some (caught last.ending lines, rest)
poll_from_lem [] last rest lines going ends =
    poll_from-last last.ending last.running rest lines ends
poll_from_lem (poll ∷ polls) last rest lines going ends =
    poll_from-next poll.ending poll.running (polls ++ last ∷ rest) lines going.0
    ∙ poll_from_lem polls last rest lines going.1 ends

poll_task-next :
    (e : Ending) (running : Bool) (polls : List Poll) (lines : List LogLine)
    → has_thrown e || not running ≡ false
    → poll_task (record { ending = e; running = running }) polls lines ≡ poll_from true polls lines
unfolding poll_task
poll_task-next returns true polls lines e = refl
poll_task-next returns false polls lines e = absurd (cc e)
poll_task-next (throws what trace) running polls lines e = absurd (cc e)
poll_task-next (throws_unknown trace) running polls lines e = absurd (cc e)

-- The task polls until the first call that throws, or that leaves the application stopped, and is over
-- then: the calls after it are never made, also when the application still runs. An exception
-- of any type is logged.
pub poll_task_lem :
    (me : Poll) (polls : List Poll) (last : Poll) (rest : List Poll) (lines : List LogLine)
    → All (λ p. is_last p ≡ false) (me ∷ polls)
    → is_last last ≡ true
    → poll_task me (polls ++ last ∷ rest) lines ≡ some (caught last.ending lines, rest)
poll_task_lem me polls last rest lines going ends =
    poll_task-next me.ending me.running (polls ++ last ∷ rest) lines going.0
    ∙ poll_from_lem polls last rest lines going.1 ends
