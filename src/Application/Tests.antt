-- ===== src/Application/Tests.antt =====
-- application/run.hpp: an application that throws.
use zatestil.Prelude.{◌≡◌, ok}
use zatestil.Application.{throws, run}
use zatestil.Application.Exit.{run_status}

run_fails : (run "bot" (throws "no port") "main").0 ≡ ok 1
run_fails = (run_status "bot" (throws "no port") "main").0
