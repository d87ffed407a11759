-- ===== src/Threads.antt =====
-- include/threads/ThreadPool.hpp and source/threads/ThreadPool.cpp: the threads of a pool, interleaved
-- at their arrivals at the barrier.

pub mod Barrier
pub mod Shutdown
pub mod Progress
pub mod Rounds
pub mod Tests
use Prim.Native.String.{String}
use zatestil.Prelude.{
  ℕ, suc, ◌+◌, ◌<◌, ◌≡◌, Bool, true, false, Option, none, some, List, [], ◌∷◌, ◌++◌, length, ltb,
  if◌then◌else◌,
}

-- How a call of `context.run()` ends, with the text of the exception and of its stack trace, and
-- whether the context is stopped then.
pub data Ending : Type 0 where
  returns : Ending
  throws : String → String → Ending
  throws_unknown : String → Ending

pub record Round : Type 0 where
  pub ending : Ending
  pub stopped : Bool

pub data LogLine : Type 0 where
  threads_error : String → String → LogLine
  unknown_error : String → LogLine

abbrev pub report : Ending → List LogLine → List LogLine
report returns lines = lines
report (throws what trace) lines = lines ++ threads_error what trace ∷ []
report (throws_unknown trace) lines = lines ++ unknown_error trace ∷ []

-- `run`, by what `context.stopped()` says at first and by the calls of `context.run()`: the log at its
-- end and the calls that are left. `none`: the calls run out before the loop ends.
unfoldable pub run : Bool → List Round → List LogLine → Option (List LogLine × List Round)
run true rounds lines = some (lines, rounds)
run false [] lines = none
run false (round ∷ rounds) lines = run round.stopped rounds (report round.ending lines)

-- The number of threads: `std::max(nThreads, hardware_concurrency())`.
unfoldable pub thread_count : (requested hardware : ℕ) → ℕ
thread_count requested hardware = if ltb requested hardware then hardware else requested

-- A thread of the pool: before the barrier, in `arrive_and_wait`, in `run`, and at its end.
pub data Phase : Type 0 where
  created waiting running ended : Phase

-- The thread that owns the pool: in the loop of the constructor, at the barrier, after the
-- constructor, in the destructor with some threads joined, and after the destructor.
pub data Owner : Type 0 where
  starting at_barrier constructed destroyed : Owner
  joining : ℕ → Owner

-- The threads that were started, in the order of `m_threads`, the owner, and the arrivals at the barrier.
pub record Pool : Type 0 where
  pub threads : List Phase
  pub owner : Owner
  pub arrived : ℕ

-- What the barrier is constructed with.
unfoldable pub expected : ℕ → ℕ
expected n = n + 1

-- The steps of a pool of `n` threads. The barrier opens when all that it expects have arrived.
pub data Step (n : ℕ) : Pool → Pool → Type 0 where
  emplaces :
      (threads : List Phase) (k : ℕ)
      → length threads < n
      → Step n
          (record { threads = threads; owner = starting; arrived = k })
          (record { threads = threads ++ created ∷ []; owner = starting; arrived = k })
  owner_arrives :
      (threads : List Phase) (k : ℕ)
      → length threads ≡ n
      → Step n
          (record { threads = threads; owner = starting; arrived = k })
          (record { threads = threads; owner = at_barrier; arrived = k + 1 })
  owner_passes :
      (threads : List Phase) (k : ℕ)
      → k ≡ expected n
      → Step n
          (record { threads = threads; owner = at_barrier; arrived = k })
          (record { threads = threads; owner = constructed; arrived = k })
  thread_arrives :
      (before after : List Phase) (owner : Owner) (k : ℕ)
      → Step n
          (record { threads = before ++ created ∷ after; owner = owner; arrived = k })
          (record { threads = before ++ waiting ∷ after; owner = owner; arrived = k + 1 })
  thread_passes :
      (before after : List Phase) (owner : Owner) (k : ℕ)
      → k ≡ expected n
      → Step n
          (record { threads = before ++ waiting ∷ after; owner = owner; arrived = k })
          (record { threads = before ++ running ∷ after; owner = owner; arrived = k })
  thread_ends :
      (before after : List Phase) (owner : Owner) (k : ℕ)
      → Step n
          (record { threads = before ++ running ∷ after; owner = owner; arrived = k })
          (record { threads = before ++ ended ∷ after; owner = owner; arrived = k })
  destroys :
      (threads : List Phase) (k : ℕ)
      → Step n
          (record { threads = threads; owner = constructed; arrived = k })
          (record { threads = threads; owner = joining 0; arrived = k })
  joins :
      (before after : List Phase) (k : ℕ)
      → Step n
          (record {
            threads = before ++ ended ∷ after;
            owner = joining (length before);
            arrived = k;
          })
          (record {
            threads = before ++ ended ∷ after;
            owner = joining (suc (length before));
            arrived = k;
          })
  clears :
      (threads : List Phase) (k : ℕ)
      → Step n
          (record { threads = threads; owner = joining (length threads); arrived = k })
          (record { threads = threads; owner = destroyed; arrived = k })

abbrev pub init : Pool
init = record { threads = []; owner = starting; arrived = 0 }

pub data Reach (n : ℕ) : Pool → Type 0 where
  start : Reach n init
  later : {s t : Pool} → Reach n s → Step n s t → Reach n t
