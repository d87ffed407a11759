-- ===== src/Threads/Tests.antt =====
-- source/threads/ThreadPool.cpp: a pool of two threads, and a thread whose handlers throw.
use zatestil.Prelude.{◌≤◌, ◌<◌, ◌≡◌, ◌≢◌, refl, true, false, List, [], ◌∷◌, arith, length, All}
use zatestil.Threads.{
  throws, throws_unknown, Round, thread_count, Phase, created, waiting, running, ended, starting,
  at_barrier, constructed, destroyed, joining, Pool, expected, Step, emplaces, owner_arrives,
  owner_passes, thread_arrives, thread_passes, thread_ends, destroys, joins, clears, Reach, start,
  later,
}
use zatestil.Threads.Barrier.{has_arrived, owner_arrived, opens_after_all}
use zatestil.Threads.Shutdown.{work, destroyed_after_all}
use zatestil.Threads.Progress.{goes_on}

abbrev bad_alloc : Round
bad_alloc = record { ending = throws "bad_alloc" "main"; stopped = false }

abbrev last_round : Round
last_round = record { ending = throws_unknown "main"; stopped = true }

-- Two threads, of which the second arrives first and the first runs first.
open_pool : Reach 2 (record { threads = running ∷ waiting ∷ []; owner = constructed; arrived = 3 })
unfolding expected
open_pool =
    later
      (later
        (later
          (later
            (later
              (later (later start (emplaces [] 0 (omega arith)))
                (emplaces (created ∷ []) 0 (omega arith)))
              (thread_arrives (created ∷ []) [] starting 0))
            (thread_arrives [] (waiting ∷ []) starting 1))
          (owner_arrives (waiting ∷ waiting ∷ []) 2 refl))
        (thread_passes [] (waiting ∷ []) at_barrier 3 refl))
      (owner_passes (running ∷ waiting ∷ []) 3 refl)

closed_pool : Reach 2 (record { threads = ended ∷ ended ∷ []; owner = destroyed; arrived = 3 })
unfolding expected
closed_pool =
    later
      (later
        (later
          (later
            (later
              (later (later open_pool (thread_passes (running ∷ []) [] constructed 3 refl))
                (destroys (running ∷ running ∷ []) 3))
              (thread_ends (running ∷ []) [] (joining 0) 3))
            (thread_ends [] (ended ∷ []) (joining 0) 3))
          (joins [] (ended ∷ []) 3))
        (joins (ended ∷ []) [] 3))
      (clears (ended ∷ ended ∷ []) 3)

abbrev open_threads : List Phase
open_threads = running ∷ waiting ∷ []

asked_pool :
    Reach (thread_count 1 2) (record { threads = open_threads; owner = constructed; arrived = 3 })
unfolding thread_count
asked_pool = open_pool

opens_after_all_example :
    (1 ≤ 2) × (2 ≤ 2) × All (λ p. has_arrived p ≡ 1) open_threads × (owner_arrived constructed ≡ 1)
opens_after_all_example = opens_after_all 1 2 (asked_pool) (omega arith)

destroyed_after_all_example :
    All (λ p. p ≡ ended) (ended ∷ ended ∷ []) × (length (ended ∷ ended ∷ []) ≡ 2)
destroyed_after_all_example = destroyed_after_all closed_pool refl

goes_on_example :
    let s : Pool = record { threads = running ∷ waiting ∷ []; owner = constructed; arrived = 3 } in
    (s.owner ≢ destroyed → (t : Pool) × Step 2 s t)
    × ((t : Pool) → Step 2 s t → work 2 t < work 2 s)
goes_on_example = goes_on open_pool
