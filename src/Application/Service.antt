-- ===== src/Application/Service.antt =====
-- application/service/ServiceApplication.cpp: the service.
pub mod Starting
pub mod Tests
use Prim.Native.String.{String}
use zatestil.Prelude.{Bool, if◌then◌else◌, ℕ, Option, none, some, Attempt, ok, throw}
use zatestil.Config.{Configuration}
use zatestil.Threads.{thread_count}
use zatestil.Database.Mdbx.{Mdbx}
use zatestil.Storage.{Directories, Storage, open_storage}
use zatestil.Websocket.Server.{Server, unstarted, run}
use zatestil.Websocket.Server.Setup.{SslEnds, AcceptorEnds, Listener, make_server}
use zatestil.Application.Signals.{Base, base, pool_ends, run_application}

-- The base class, how many threads `m_threadPool` has, `m_server` as it was constructed and with its accepts, and
-- `m_storage`.
pub record Service (m : Mdbx) (H : Type 0) : Type 0 where
  pub application : Base
  pub threads : ℕ
  pub listener : Listener
  pub server : Server H
  pub storage : Storage m

module _ {m : Mdbx} {H : Type 0} (open_env : String → String → m.Env) where
  -- `Storage::instance`, which makes the storage. `none`: it does not come back, or an exception leaves its
  -- constructor, which is `noexcept`.
  abbrev pub with_storage :
      (hardware : ℕ)
      → Listener
      → Option (Directories × Option (Storage m))
      → Option (Attempt (Directories × Service m H))
  with_storage hardware listener none = none
  with_storage hardware listener (some (now, none)) = none
  with_storage hardware listener (some (now, some storage)) = some (
      ok (
        now,
        record {
          application = base;
          threads = thread_count 4 hardware;
          listener = listener;
          server = unstarted;
          storage = storage;
        },
      ))

  -- An exception of the server's constructor leaves after the destructor of `m_threadPool`, which joins its threads.
  abbrev pub with_server :
      (signalled : Bool)
      → Configuration
      → (number : ℕ) → Directories
      → (hardware : ℕ) → Attempt Listener
      → Option (Attempt (Directories × Service m H))
  with_server signalled config number there hardware (throw what) =
      if pool_ends signalled base then some (throw what) else none
  with_server signalled config number there hardware (ok listener) =
      with_storage hardware listener (open_storage open_env config number there)

  -- `ServiceApplication::ServiceApplication`, in the first call of `Storage::instance`: the pool, with
  -- `minNThreads` or as many threads as the hardware runs at once, the server, and the storage. `none`: it does not
  -- come back.
  unfoldable pub construct_service :
      (signalled : Bool)
      → (String → Attempt String)
      → Configuration
      → SslEnds
      → AcceptorEnds
      → (number : ℕ) → Directories
      → (hardware : ℕ) → Option (Attempt (Directories × Service m H))
  unfolding thread_count base pool_ends open_storage make_server
  construct_service signalled from_string config ends acceptor_ends number there hardware =
      with_server signalled config number there hardware
        (make_server from_string config ends acceptor_ends)

module _ {m : Mdbx} {H : Type 0} where
  -- `run_impl`
  unfoldable pub run_impl : Service m H → Service m H
  unfolding run
  run_impl s = record s { server = run s.server }

  -- `run` of the base class.
  unfoldable pub start : Service m H → Service m H
  unfolding run_application run_impl
  start s = run_application (λ b. run_impl (record s { application = b })) s.application
