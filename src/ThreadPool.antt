-- ===== src/ThreadPool.antt =====
-- ThreadPool of include/tradier/common/async.hpp: the threads that enqueue, the one that shuts down, and
-- the workers, as steps; what the queue's lock guards is one step. A task is known by its number, and
-- catches what it throws.
pub mod Drained
use libtradier.Base.{ℕ, zero, suc, ◌≡◌, Bool, true, false, ◌||◌, List, [], ◌∷◌, ◌++◌}

-- A worker: at the wait, at a task outside the lock, or returned
pub data Worker : Type 0 where
  idle : Worker
  running : ℕ → Worker
  returned : Worker

-- `accepted` are the tasks that enqueue took, `taken` those that a worker took off the queue, both in
-- their order.
pub record ThreadPool : Type 0 where
  pub workers : List Worker
  pub tasks : List ℕ
  pub stopped : Bool
  pub accepted : List ℕ
  pub taken : List ℕ

unfoldable pub idle_workers : ℕ → List Worker
idle_workers zero = []
idle_workers (suc n) = idle ∷ idle_workers n

-- ThreadPool(numThreads): one worker at least
unfoldable pub thread_pool : ℕ → ThreadPool
unfolding idle_workers
thread_pool zero = record {
  workers = idle ∷ [];
  tasks = [];
  stopped = false;
  accepted = [];
  taken = [];
}
thread_pool (suc n) = record {
  workers = idle ∷ idle_workers n;
  tasks = [];
  stopped = false;
  accepted = [];
  taken = [];
}

abbrev pub has_returned : Worker → Bool
has_returned returned = true
has_returned _ = false

abbrev pub any_returned : List Worker → Bool
any_returned [] = false
any_returned (w ∷ ws) = has_returned w || any_returned ws

abbrev pub all_returned : List Worker → Bool
all_returned [] = true
all_returned (returned ∷ ws) = all_returned ws
all_returned (w ∷ ws) = false

pub data Step (p : ThreadPool) : ThreadPool → Type 0 where
  -- enqueue; the test under the lock decides.
  enqueue :
      (task : ℕ)
      → p.stopped ≡ false
      → Step p (record p { tasks = p.tasks ++ task ∷ []; accepted = p.accepted ++ task ∷ [] })
  -- std::runtime_error
  enqueue_refused : p.stopped ≡ true → Step p p
  take :
      (before after : List Worker) (task : ℕ) (rest : List ℕ)
      → p.workers ≡ before ++ idle ∷ after
      → p.tasks ≡ task ∷ rest
      → Step p (record p {
        workers = before ++ running task ∷ after;
        tasks = rest;
        taken = p.taken ++ task ∷ [];
      })
  finish :
      (before after : List Worker) (task : ℕ)
      → p.workers ≡ before ++ running task ∷ after
      → Step p (record p { workers = before ++ idle ∷ after })
  leave :
      (before after : List Worker)
      → p.workers ≡ before ++ idle ∷ after
      → p.stopped ≡ true
      → p.tasks ≡ []
      → Step p (record p { workers = before ++ returned ∷ after })
  -- shutdown() sets the flag.
  stop : Step p (record p { stopped = true })
  -- shutdown() has joined every worker, and clears the queue.
  clear : p.stopped ≡ true → all_returned p.workers ≡ true → Step p (record p { tasks = [] })

pub data Steps (p : ThreadPool) : ThreadPool → Type 0 where
  here : Steps p p
  then : {q r : ThreadPool} → Steps p q → Step q r → Steps p r
