-- ===== src/Streaming/Threads.antt =====
-- ThreadManager of src/streaming.cpp. The threads are known by their numbers; the lock makes each call
-- one step, and the logging is left out.
use libtradier.Base.{ℕ, Bool, true, false, List, [], ◌∷◌, ◌++◌, if◌then◌else◌, length}
use libtradier.Int.{next64}

pub record ThreadManager : Type 0 where
  pub should_stop : Bool
  pub threads : List ℕ
  pub thread_id_counter : ℕ

unfoldable pub thread_manager : ThreadManager
thread_manager = record { should_stop = false; threads = []; thread_id_counter = 0 }

-- addThread; `starts` says whether std::thread could start a thread. A number is used up in any case.
unfoldable pub add_thread : Bool → ThreadManager → Bool × ThreadManager
add_thread starts m =
    if m.should_stop
    then (false, m)
    else if starts
    then (
      true,
      record m {
        threads = m.threads ++ m.thread_id_counter ∷ [];
        thread_id_counter = next64 m.thread_id_counter;
      },
    )
    else (false, record m { thread_id_counter = next64 m.thread_id_counter })

-- stop(): the flag is set, and the call that sets it first joins every thread. A join that waits for
-- ever is not modelled.
unfoldable pub stop : ThreadManager → ThreadManager
stop m = if m.should_stop then m else record m { should_stop = true; threads = [] }

unfoldable pub thread_count : ThreadManager → ℕ
thread_count m = length m.threads

-- The move constructor: the new manager, and what is left of the old one.
unfoldable pub move : ThreadManager → ThreadManager × ThreadManager
move other = (other, record other { should_stop = true; threads = [] })

-- The move assignment to another manager.
unfoldable pub move_assign : ThreadManager → ThreadManager → ThreadManager × ThreadManager
unfolding move
move_assign m other = move other
