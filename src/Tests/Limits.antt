-- ===== src/Tests/Limits.antt =====
-- include/tradier/common/async.hpp: the rate limiter at concrete times.
use libtradier.Base.{
  ℕ, ◌+◌, ◌*◌, ◌≤◌, ◌<◌, ◌≡◌, refl, ◌↔◌, true, ◌==◌, if◌then◌else◌, List, some, [], ◌∷◌, arith,
}
use libtradier.RateLimiter.{
  RateLimiter, rate_limiter, try_acquire, granted, Waited, add_wait, wait_for_slot,
}
use libtradier.RateLimiter.Bounds.{IsWithin, try_acquire-IsWithin, granted_in_span}
use libtradier.RateLimiter.Waiting.{Served, calls_in, wait_for_slot_ends}

-- Two requests in ten ticks, both taken.
abbrev spent : RateLimiter
spent = record { window_start = 0; request_count = 2; max_requests = 2; window_duration = 10 }

abbrev seven : ℕ → ℕ × ℕ
seven i = (i * 7, i * 7)

try_acquire-IsWithin_example :
    IsWithin (try_acquire spent 5).0
    × ((try_acquire spent 5).0.max_requests ≡ spent.max_requests)
    × ((try_acquire spent 5).0.window_duration ≡ spent.window_duration)
    × ((spent.window_start + spent.window_duration < 5)
        → ((try_acquire spent 5).1 ≡ true) ↔ (0 < spent.max_requests))
    × ((5 ≤ spent.window_start + spent.window_duration)
        → ((try_acquire spent 5).1 ≡ true) ↔ (spent.request_count < spent.max_requests))
try_acquire-IsWithin_example = try_acquire-IsWithin spent 5 (omega arith)

granted_in_span_example : granted spent (9 ∷ 10 ∷ 11 ∷ 12 ∷ []) ≤ 2 * spent.max_requests
granted_in_span_example =
    granted_in_span spent (9 ∷ 10 ∷ 11 ∷ 12 ∷ []) 9 (omega arith) (ground arith)

-- Another thread tries in the second wait, at the start of a new window.
abbrev one_other : ℕ → List ℕ
one_other i = if i == 1 then 11 ∷ [] else []

wait_for_slot_ends_example :
    (w : Waited) × (wait_for_slot 5 seven one_other 0 [] spent ≡ some w) × Served 2 spent w
unfolding calls_in
wait_for_slot_ends_example =
    wait_for_slot_ends 5 2 seven one_other [] spent (omega arith) (omega arith) (omega arith)
      (omega arith)

-- The other thread begins the window and takes its first slot; the waiting one gets the second.
shared_window :
    wait_for_slot 5 seven one_other 0 [] spent
    ≡ some (record {
      limiter = record {
        window_start = 11;
        request_count = 2;
        max_requests = 2;
        window_duration = 10;
      };
      waits = 3 ∷ 10 ∷ [];
      turn = 2;
    })
unfolding wait_for_slot try_acquire add_wait
shared_window = refl

-- Four requests in a moment, at a limit of two: a window ends in between.
burst : granted (rate_limiter 2 10 0) (10 ∷ 10 ∷ 10 ∷ 11 ∷ 11 ∷ 11 ∷ []) ≡ 4
unfolding granted rate_limiter try_acquire
burst = refl
