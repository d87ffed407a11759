-- ===== src/Threads/Rounds.antt =====
-- source/threads/ThreadPool.cpp: the loop of a thread.
use zatestil.Prelude.{
  ◌≡◌, refl, sym, ap, ◌∙◌, true, false, some, List, [], ◌∷◌, ◌++◌, append_assoc, append-nil, All,
}
use zatestil.Threads.{
  Ending, returns, throws, throws_unknown, Round, LogLine, threads_error, unknown_error, report,
  run,
}

-- The line of one call.
abbrev pub lines_of : Ending → List LogLine
lines_of returns = []
lines_of (throws what trace) = threads_error what trace ∷ []
lines_of (throws_unknown trace) = unknown_error trace ∷ []

abbrev pub all_lines : List Round → List LogLine
all_lines [] = []
all_lines (round ∷ rounds) = lines_of round.ending ++ all_lines rounds

report-append : (e : Ending) (lines : List LogLine) → report e lines ≡ lines ++ lines_of e
report-append returns lines = sym (append-nil lines)
report-append (throws what trace) lines = refl
report-append (throws_unknown trace) lines = refl

-- A thread calls `context.run()` again and again until a call leaves the context stopped, and ends at
-- the first such call, whether or not it and those before it threw. Each exception that came out of a call
-- is logged once, in order.
pub run_lem :
    (rounds : List Round) (last : Round) (rest : List Round) (lines : List LogLine)
    → All (λ r. r.stopped ≡ false) rounds
    → last.stopped ≡ true
    → run false (rounds ++ last ∷ rest) lines
      ≡ some (lines ++ all_lines (rounds ++ last ∷ []), rest)
unfolding run
run_lem [] last rest lines going stops = rw stops (
    ap (λ l. some (l, rest))
      (report-append last.ending lines ∙ ap (◌++◌ lines) (sym (append-nil (lines_of last.ending)))))
run_lem (r ∷ rounds) last rest lines going stops = rw going.0 (
    run_lem rounds last rest (report r.ending lines) going.1 stops
    ∙ ap (λ l. some (l, rest))
        (ap (λ l. l ++ all_lines (rounds ++ last ∷ [])) (report-append r.ending lines)
          ∙ append_assoc lines (lines_of r.ending) (all_lines (rounds ++ last ∷ []))))
