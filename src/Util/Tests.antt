-- ===== src/Util/Tests.antt =====
-- The utilities: the theorems at concrete runs.
use zatestil.Prelude.{ℕ, ◌≡◌, refl, true, false, Option, none, some, [], ◌∷◌, length}
use zatestil.Util.Singleton.{
  Shared, Pc, entered, locking, System, init, pick, call, first_null, Reach, start, later, update,
  returned, locked, making, storing, unlocking, leaving, lock, second_null, make, store, unlock,
  load,
}
use zatestil.Util.Singleton.Safety.{instance_unique}
use zatestil.Util.Singleton.Progress.{in_call, CanMove, instance_progress}

-- The system after thread `i` has gone to `p`.
abbrev go : System ℕ → ℕ → Shared ℕ → Pc ℕ → System ℕ
go s i t p = record { shared = t; pc = update s.pc i p }

abbrev empty_shared : Shared ℕ
empty_shared = record { mutex = false; pointer = none; made = [] }

-- Thread 0 calls with the argument 5 and waits for the lock.
abbrev waiting : System ℕ
waiting = go (go init 0 empty_shared (entered 5)) 0 empty_shared (locking 5)

waiting-Reach : Reach waiting
waiting-Reach =
    later {t = waiting} (later {t = go init 0 empty_shared (entered 5)} start (pick 0 (call 5)))
      (pick 0 (first_null refl))

abbrev locked_shared : Shared ℕ
locked_shared = record { mutex = true; pointer = none; made = [] }

abbrev holding : System ℕ
holding = go (go waiting 0 locked_shared (locked 5)) 0 locked_shared (making 5)

holding-Reach : Reach holding
holding-Reach =
    later {t = holding}
      (later {t = go waiting 0 locked_shared (locked 5)} waiting-Reach (pick 0 (lock refl)))
      (pick 0 (second_null refl))

abbrev made_shared : Shared ℕ
made_shared = record { mutex = true; pointer = none; made = 5 ∷ [] }

abbrev set_shared : Shared ℕ
set_shared = record { mutex = true; pointer = some 0; made = 5 ∷ [] }

abbrev stored : System ℕ
stored = go (go holding 0 made_shared (storing 0)) 0 set_shared unlocking

stored-Reach : Reach stored
stored-Reach =
    later {t = stored}
      (later {t = go holding 0 made_shared (storing 0)} holding-Reach (pick 0 make)) (pick 0 store)

abbrev open_shared : Shared ℕ
open_shared = record { mutex = false; pointer = some 0; made = 5 ∷ [] }

abbrev done : System ℕ
done = go (go stored 0 open_shared leaving) 0 open_shared (returned (some 0))

done-Reach : Reach done
done-Reach =
    later {t = done} (later {t = go stored 0 open_shared leaving} stored-Reach (pick 0 unlock))
      (pick 0 load)

abbrev first_object : Option ℕ
first_object = some 0

instance_unique_example :
    (first_object ≡ some 0) × (first_object ≡ first_object) × (length done.shared.made ≡ 1)
instance_unique_example = instance_unique done-Reach 0 0 first_object first_object refl refl

instance_progress_example :
    (j : ℕ) × (in_call (waiting.pc j) ≡ true) × CanMove waiting.shared (waiting.pc j)
instance_progress_example = instance_progress waiting-Reach 0 refl
