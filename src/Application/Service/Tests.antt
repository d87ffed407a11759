-- ===== src/Application/Service/Tests.antt =====
-- application/service/ServiceApplication.cpp: a service in memory.
use zatestil.Prelude.{ℕ, refl, true, false, none, some, ok}
use zatestil.Config.{service_configuration}
use zatestil.Database.Memory.{memory, memory_laws}
use zatestil.Database.Samples.{disk}
use zatestil.Websocket.Server.Setup.{SslEnds, AcceptorEnds}
use zatestil.Prelude.{◌≡◌, [], ◌∷◌}
use zatestil.Application.{Life, starting, down_successfully, uninitialized}
use zatestil.Application.Exit.{status_of}
use zatestil.Application.Main.{service_main, service_ending, service_status}
use zatestil.Application.Service.{construct_service}
use zatestil.Application.Service.Starting.{Outcome, first_error, service_starts}

abbrev all_good : SslEnds
all_good = record { options = none; certificate_chain = none; private_key = none; tmp_dh = none }

-- The address is in use.
abbrev in_use : AcceptorEnds
in_use = record { open_end = none; reuse_end = none; bind_end = some "in use"; listen_end = none }

service_starts_example :
    Outcome ℕ memory_laws
      (λ _ _. disk)
      true
      "certificate"
      "key"
      "dh"
      "0.0.0.0"
      in_use
      8
      (λ _. false)
      (first_error all_good)
      (construct_service
        (λ _ _. disk)
        true
        ok
        (service_configuration "certificate" "key" "dh")
        all_good
        in_use
        4
        (λ _. false)
        8)
service_starts_example =
    service_starts ℕ memory_laws (λ _ _. disk) ok "certificate" "key" "dh" "0.0.0.0" all_good in_use
      4 8 (λ _. false) true refl

-- The private key cannot be used.
abbrev bad_key : SslEnds
bad_key = record {
  options = none;
  certificate_chain = none;
  private_key = some "bad key";
  tmp_dh = none;
}

service_status_example :
    (life : Life) × (service_main memory ℕ
        (λ _ _. disk)
        ok
        true
        (service_configuration "certificate" "key" "dh")
        bad_key
        in_use
        4
        (λ _. false)
        8
        "main"
      ≡ some (ok (status_of (service_ending (first_error bad_key))), life))
    × (life.lines ≡ starting "ztsl-service" ∷ down_successfully ∷ uninitialized ∷ [])
service_status_example =
    service_status ℕ memory_laws (λ _ _. disk) ok "certificate" "key" "dh" "0.0.0.0" bad_key in_use
      4 8 (λ _. false) "main" true refl
