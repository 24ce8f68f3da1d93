-- ===== src/Tests/Pools.antt =====
-- include/tradier/common/async.hpp: a pool of one worker that runs a task and is shut down.
use libtradier.Base.{◌≡◌, refl, true, [], ◌++◌}
use libtradier.ThreadPool.{
  ThreadPool, thread_pool, all_returned, Steps, enqueue, take, finish, leave, stop, here, then,
}
use libtradier.ThreadPool.Drained.{shutdown_drains}

record Run : Type 0 where
  last : ThreadPool
  steps : Steps (thread_pool 1) last

abbrev shut : Run
unfolding thread_pool
shut = record {
  last = _;
  steps =
      then
        (then (then (then (then here (enqueue 7 refl)) (take [] [] 7 [] refl refl)) stop)
          (finish [] [] 7 refl))
        (leave [] [] refl refl refl);
}

shutdown_drains_example :
    (shut.last.accepted ≡ shut.last.taken ++ shut.last.tasks)
    × (all_returned shut.last.workers ≡ true
        → (shut.last.stopped ≡ true)
          × (shut.last.tasks ≡ [])
          × (shut.last.accepted ≡ shut.last.taken))
shutdown_drains_example = shutdown_drains 1 shut.steps
