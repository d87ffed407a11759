-- ===== src/Application/Exit.antt =====
-- application/run.hpp: what the process reports at its end.
use Prim.Native.String.{String}
use zatestil.Prelude.{ℕ, ◌≡◌, refl, [], ◌∷◌, ok}
use zatestil.Util.Result.{to_uint8, to_code}
use zatestil.Util.OnScopeExit.{make, scoped, destroy}
use zatestil.Application.{
  Ending, returns, throws, throws_unknown, starting, down_successfully, uninitialized, shut_down,
  caught, body, run,
}

-- The status that an ending has to have.
abbrev pub status_of : Ending → ℕ
status_of returns = 0
status_of (throws what) = 1
status_of throws_unknown = 2

-- However the application ends, `run` returns: its status tells a return, a `std::exception` and
-- another exception apart, and is the number of the code of `result`.
pub run_status :
    (name : String) (ending : Ending) (trace : String)
    → ((run name ending trace).0 ≡ ok (status_of ending))
      × (to_uint8 (run name ending trace).1.result.code ≡ status_of ending)
unfolding run scoped make destroy shut_down body caught to_uint8 to_code
run_status name returns trace = (refl, refl)
run_status name (throws what) trace = (refl, refl)
run_status name throws_unknown trace = (refl, refl)

-- However the application ends, the log is the start, then the line of a successful end, then the
-- end of the log: the guard has captured `result` before it could change.
pub run_log :
    (name : String) (ending : Ending) (trace : String)
    → (run name ending trace).1.lines ≡ starting name ∷ down_successfully ∷ uninitialized ∷ []
unfolding run scoped make destroy shut_down body caught to_uint8 to_code
run_log name ending trace = refl
