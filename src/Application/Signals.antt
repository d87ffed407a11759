-- ===== src/Application/Signals.antt =====
-- application/Application.hpp: the flag and the context of an application, and its signals.
use Prim.Native.String.{String}
use zatestil.Prelude.{Bool, true, false, Option, none, some}

pub record Base : Type 0 where
  pub is_running : Bool  -- m_isRunning
  pub stopped : Bool  -- m_context.stopped()

-- The constructor.
unfoldable pub base : Base
base = record { is_running = false; stopped = false }

-- The handler of SIGINT and SIGTERM, by its error.
unfoldable pub on_signal : Option String → Base → Base
on_signal none b = record { is_running = false; stopped = true }
on_signal (some e) b = b

-- `run`, with what `run_impl` does.
unfoldable pub run_application {ℓ} : {A : Type ℓ} → (Base → A) → Base → A
run_application run_impl b = run_impl (record b { is_running = true })

-- Whether the destructor of a pool over the context comes back, by whether SIGINT or SIGTERM arrives: its threads run
-- until the context is stopped, and the wait for a signal is work that the context does not run out of.
unfoldable pub pool_ends : (signalled : Bool) → Base → Bool
unfolding on_signal
pool_ends true b = (on_signal none b).stopped
pool_ends false b = b.stopped
