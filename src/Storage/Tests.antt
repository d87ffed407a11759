-- ===== src/Storage/Tests.antt =====
-- source/storage/Storage.cpp: the storage of the service in memory.
use Prim.Native.String.{String}
use zatestil.Prelude.{◌≡◌, refl, true, false, some}
use zatestil.Config.{get, service_configuration}
use zatestil.Database.Memory.{memory, memory_laws}
use zatestil.Database.Samples.{disk}
use zatestil.Storage.{Directories, Storage, open_storage}
use zatestil.Storage.Opening.{IsReady, open_storage-IsReady}

open_storage-IsReady_example :
    (now : Directories) × (s : Storage memory) × (open_storage
        (λ _ _. disk)
        (service_configuration "" "" "")
        4
        (λ _. false)
      ≡ some (now, some s))
    × (now "./storage" ≡ true)
    × ((path : String) → false ≡ true → now path ≡ true)
    × IsReady memory_laws disk "./storage" s
unfolding get service_configuration
open_storage-IsReady_example =
    open_storage-IsReady memory_laws (λ _ _. disk) (service_configuration "" "" "") "./storage" 4
      (λ _. false) refl
