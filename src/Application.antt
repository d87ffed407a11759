-- ===== src/Application.antt =====
-- application/run.hpp: the life of an application. How `app.run()` ends is an argument, and so is
-- the text of the stack trace that an exception comes with.
pub mod Exit
pub mod Signals
pub mod Bot
pub mod Service
pub mod Main
pub mod Tests
use Prim.Native.String.{String}
use Prim.Native.String
use zatestil.Prelude.{ℕ, List, [], ◌∷◌, ◌++◌, Attempt, ok}
use zatestil.Util.Result.{Result, Code, success, error, critical, succeeded, to_uint8, to_code}
use zatestil.Util.OnScopeExit.{make, scoped}

-- How the block of `try` ends: it returns, or it throws a `std::exception` with its text, or else.
pub data Ending : Type 0 where
  returns : Ending
  throws : String → Ending
  throws_unknown : Ending

pub data LogLine : Type 0 where
  starting : String → LogLine
  down_successfully : LogLine
  down_error : String → LogLine
  down_critical : String → LogLine
  uninitialized : LogLine

-- The local variable `result`, and what was logged.
pub record Life : Type 0 where
  pub result : Result
  pub lines : List LogLine

abbrev pub shutdown_line : Code → String → LogLine
shutdown_line success message = down_successfully
shutdown_line error message = down_error message
shutdown_line critical message = down_critical message

-- The function of the scope guard, over the `result` that it has captured.
unfoldable pub shut_down : Result → Life → Attempt (Unit {0}) × Life
unfolding to_code
shut_down captured s = (
  ok tt,
  record s {
    lines = s.lines ++ shutdown_line (to_code captured) captured.message ∷ uninitialized ∷ [];
  },
)

-- `result` after the block of `try` and its handlers.
unfoldable pub caught : Ending → String → Result → Result
caught returns trace result = result
caught (throws what) trace result = record {
  code = error;
  message = String.◌++◌ what (String.◌++◌ " " trace);
}
caught throws_unknown trace result = record {
  code = critical;
  message = String.◌++◌ "shutting down with error - unknown " trace;
}

-- The body of `run` after the guard; the value is the status of the process.
unfoldable pub body : String → Ending → String → Life → Attempt ℕ × Life
unfolding caught to_uint8 to_code
body name ending trace s =
    let result = caught ending trace s.result in
    (
      ok (to_uint8 (to_code result)),
      record { result = result; lines = s.lines ++ starting name ∷ [] },
    )

unfoldable pub run : String → Ending → String → Attempt ℕ × Life
unfolding scoped make shut_down body
run name ending trace =
    let s : Life = record { result = succeeded; lines = [] } in
    scoped (make (shut_down s.result)) (body name ending trace) s
