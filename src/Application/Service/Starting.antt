-- ===== src/Application/Service/Starting.antt =====
-- application/service/ServiceApplication.cpp: what a service is once it was constructed and runs.
use Prim.Native.String.{String}
use zatestil.Prelude.{
  ℕ, ◌≡◌, ◌≤◌, refl, ap, ◌∙◌, Bool, true, false, if◌then◌else◌, Option, none, some, Attempt, ok,
  throw, ◌>>=◌,
}
use zatestil.Config.Numbers.{stoul}
use zatestil.Config.{Configuration, get, port_of, service_configuration}
use zatestil.Threads.{thread_count}
use zatestil.Threads.Barrier.{thread_count-bound}
use zatestil.Database.Mdbx.{Mdbx, Laws}
use zatestil.Storage.{Directories}
use zatestil.Storage.Opening.{IsReady, open_storage-IsReady}
use zatestil.Websocket.Server.{Server, unstarted, run, construct, start_accept, Reach}
use zatestil.Websocket.Server as Accepts
use zatestil.Websocket.Server.Setup.{
  SslEnds, AcceptorEnds, Listener, SslContext, configure, make_server,
}
use zatestil.Application.Signals.{base, on_signal, pool_ends, run_application}
use zatestil.Application.Service.{
  Service, with_server, with_storage, construct_service, run_impl, start,
}

abbrev pub or_else : Option String → Option String → Option String
or_else none e = e
or_else (some what) e = some what

-- The first call on the context of TLS that throws.
abbrev pub first_error : SslEnds → Option String
first_error ends =
    or_else ends.options (or_else ends.certificate_chain (or_else ends.private_key ends.tmp_dh))

abbrev made_listener : AcceptorEnds → String → ℕ → SslContext → Listener
made_listener ends host number ssl = record {
  endpoint = (host, number);
  ssl_context = ssl;
  acceptor = construct ends.open_end ends.reuse_end ends.bind_end ends.listen_end;
}

module _ (certificate private_key dh_params : String) where
  abbrev repository_configuration : Configuration
  repository_configuration = service_configuration certificate private_key dh_params

  abbrev presented : SslContext
  presented = record {
    password = some "ztstl";
    certificate_chain = certificate;
    private_key = private_key;
    tmp_dh = dh_params;
  }

  abbrev or_error {ℓ} : {A : Type ℓ} → Option String → A → Attempt A
  or_error none a = ok a
  or_error (some what) a = throw what

  -- The context of TLS by the four ends.
  configured :
      (a b c d : Option String)
      → configure repository_configuration
          (record { options = a; certificate_chain = b; private_key = c; tmp_dh = d })
        ≡ or_error (or_else a (or_else b (or_else c d))) presented
  unfolding configure get service_configuration
  configured (some e) b c d = refl
  configured none (some e) c d = refl
  configured none none (some e) d = refl
  configured none none none (some e) = refl
  configured none none none none = refl

  port_lem : port_of repository_configuration ≡ ok 3300
  unfolding get service_configuration port_of stoul
  port_lem = refl

  bind-or_error :
      {A B : Type 0} (end : Option String) (a : A) (f : A → B)
      → (do x ← or_error end a; ok (f x)) ≡ or_error end (f a)
  bind-or_error none a f = refl
  bind-or_error (some e) a f = refl

  made_server :
      (from_string : String → Attempt String) (ends : SslEnds) (acceptor_ends : AcceptorEnds)
      (host : String)
      → from_string "0.0.0.0" ≡ ok host
      → make_server from_string repository_configuration ends acceptor_ends
        ≡ or_error (first_error ends) (made_listener acceptor_ends host 3300 presented)
  unfolding make_server get service_configuration
  made_server from_string ends acceptor_ends host e =
      let presents = configured ends.options ends.certificate_chain ends.private_key ends.tmp_dh in
      (λ i. do
        host ← e i
        number ← port_lem i
        ssl ← presents i
        ok (made_listener acceptor_ends host number ssl))
      ∙ bind-or_error (first_error ends) presented (made_listener acceptor_ends host 3300)

module _ {m : Mdbx} (H : Type 0) (laws : Laws m) (open_env : String → String → m.Env) where
  -- What a service that was constructed from the configuration of the repository has to be, and to be once it runs.
  pub record IsServing (certificate private_key dh_params host : String)
      (acceptor_ends : AcceptorEnds) (hardware : ℕ) (s : Service m H) : Type 0 where
    pub listens_at : s.listener.endpoint ≡ (host, 3300)
    pub presents : s.listener.ssl_context ≡ record {
      password = some "ztstl";
      certificate_chain = certificate;
      private_key = private_key;
      tmp_dh = dh_params;
    }
    pub acceptor :
        s.listener.acceptor
        ≡ construct acceptor_ends.open_end acceptor_ends.reuse_end acceptor_ends.bind_end
            acceptor_ends.listen_end
    pub threads : (4 ≤ s.threads) × (hardware ≤ s.threads)
    pub storage : IsReady laws (open_env "./storage" "main") "./storage" s.storage
    pub runs : (start s).application.is_running ≡ true
    pub accepts : ((start s).server.accepting ≡ 1) × Reach (start s).server

  -- How the construction of a service comes out, by whether a signal arrives and by the first error of TLS.
  unfoldable pub Outcome :
      (signalled : Bool) (certificate private_key dh_params host : String)
      (acceptor_ends : AcceptorEnds) (hardware : ℕ)
      → Directories
      → Option String
      → Option (Attempt (Directories × Service m H))
      → Type 0
  Outcome signalled certificate private_key dh_params host acceptor_ends hardware there (some e) r =
      r ≡ (if signalled then some (throw e) else none)
  Outcome signalled certificate private_key dh_params host acceptor_ends hardware there none r =
      (now : Directories) × (s : Service m H) × (r ≡ some (ok (now, s)))
      × (now "./storage" ≡ true)
      × ((path : String) → there path ≡ true → now path ≡ true)
      × IsServing certificate private_key dh_params host acceptor_ends hardware s

  with_server-Outcome :
      (signalled : Bool) (certificate private_key dh_params host : String)
      (acceptor_ends : AcceptorEnds) (hardware number : ℕ) (there : Directories)
      (end : Option String)
      → Outcome signalled certificate private_key dh_params host acceptor_ends hardware there end (
          with_server open_env signalled
            (repository_configuration certificate private_key dh_params)
            number
            there
            hardware
            (or_error certificate private_key dh_params end (
              made_listener acceptor_ends host 3300 (presented certificate private_key dh_params))))
  unfolding Outcome pool_ends on_signal get service_configuration start run_impl run_application
      base run start_accept
  with_server-Outcome true certificate private_key dh_params host acceptor_ends hardware number
        there (some e) =
      refl
  with_server-Outcome false certificate private_key dh_params host acceptor_ends hardware number
        there (some e) =
      refl
  with_server-Outcome signalled certificate private_key dh_params host acceptor_ends hardware number
        there none =
      let (now, storage, opens, made, kept, ready) =
        open_storage-IsReady laws open_env
          (repository_configuration certificate private_key dh_params) "./storage" number there
          refl in
      (
        now,
        record {
          application = base;
          threads = thread_count 4 hardware;
          listener =
              made_listener acceptor_ends host 3300 (presented certificate private_key dh_params);
          server = unstarted;
          storage = storage;
        },
        ap (with_storage open_env hardware _) opens,
        made,
        kept,
        record {
          listens_at = refl;
          presents = refl;
          acceptor = refl;
          threads = thread_count-bound 4 hardware;
          storage = ready;
          runs = refl;
          accepts = (refl, Accepts.start);
        },
      )

  -- By the laws of libmdbx, a service with the configuration of the repository is constructed, whatever the set-up
  -- of its acceptor comes to, unless a call on the context of TLS throws: then its constructor throws the first such
  -- exception once SIGINT or SIGTERM has arrived, and does not come back without a signal. A service that was constructed has the endpoint and the texts of the configuration, at least four
  -- threads and as many as the hardware, and a storage that is ready, in a directory that is there. Once it runs it
  -- has one accept pending.
  pub service_starts :
      (from_string : String → Attempt String) (certificate private_key dh_params host : String)
      (ends : SslEnds) (acceptor_ends : AcceptorEnds) (number hardware : ℕ) (there : Directories)
      (signalled : Bool)
      → from_string "0.0.0.0" ≡ ok host
      → Outcome signalled certificate private_key dh_params host acceptor_ends hardware there
          (first_error ends)
          (construct_service open_env signalled from_string
            (service_configuration certificate private_key dh_params)
            ends
            acceptor_ends
            number
            there
            hardware)
  unfolding construct_service
  service_starts from_string certificate private_key dh_params host ends acceptor_ends number
        hardware there signalled e =
      rw (made_server certificate private_key dh_params from_string ends acceptor_ends host e) (
        with_server-Outcome signalled certificate private_key dh_params host acceptor_ends hardware
          number there (first_error ends))
