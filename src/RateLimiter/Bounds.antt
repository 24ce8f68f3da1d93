-- ===== src/RateLimiter/Bounds.antt =====
-- How many requests a limiter lets through.
use native.Mathlib.Decide.{dec_le}
use libtradier.Base.{
  if◌then◌else◌, ℕ, ◌+◌, ◌*◌, ◌≤◌, ◌<◌, ◌≡◌, true, List, [], ◌∷◌, arith, All, ◌↔◌,
}
use libtradier.RateLimiter.{RateLimiter, try_acquire, granted}

-- The limiter's invariant.
abbrev pub IsWithin : RateLimiter → Type 0
IsWithin r = r.request_count ≤ r.max_requests

-- A call keeps the counter within the limit and the two settings as they are; it gets a slot exactly
-- if one is left in the current window, or the window is over and the limit is above zero.
pub try_acquire-IsWithin :
    (r : RateLimiter) (now : ℕ)
    → IsWithin r
    → IsWithin (try_acquire r now).0
      × ((try_acquire r now).0.max_requests ≡ r.max_requests)
      × ((try_acquire r now).0.window_duration ≡ r.window_duration)
      × ((r.window_start + r.window_duration < now)
          → ((try_acquire r now).1 ≡ true) ↔ (0 < r.max_requests))
      × ((now ≤ r.window_start + r.window_duration)
          → ((try_acquire r now).1 ≡ true) ↔ (r.request_count < r.max_requests))
unfolding try_acquire
try_acquire-IsWithin r now v = (
  ground arith,
  ground arith,
  ground arith,
  λ h. (λ k. ground arith, λ k. ground arith),
  λ h. (λ k. ground arith, λ k. ground arith),
)

same_window-step :
    (r : RateLimiter) (now : ℕ)
    → IsWithin r
    → now ≤ r.window_start + r.window_duration
    → ((try_acquire r now).0.window_start ≡ r.window_start)
      × ((try_acquire r now).0.request_count
          ≡ r.request_count + (if (try_acquire r now).1 then 1 else 0))
unfolding try_acquire
same_window-step r now v h = (ground arith, ground arith)

new_window-step :
    (r : RateLimiter) (now : ℕ)
    → r.window_start + r.window_duration < now
    → ((try_acquire r now).0.window_start ≡ now)
      × ((try_acquire r now).0.request_count ≡ (if (try_acquire r now).1 then 1 else 0))
unfolding try_acquire
new_window-step r now h = (ground arith, ground arith)

All-mono :
    {P Q : ℕ → Type 0} (times : List ℕ) → ((now : ℕ) → P now → Q now) → All P times → All Q times
All-mono [] f h = tt
All-mono (now ∷ times) f h = (f now h.0, All-mono times f h.1)

-- No reset can happen: what is granted fits in the current window.
granted_same_window :
    (r : RateLimiter) (times : List ℕ)
    → IsWithin r
    → All (λ now. now ≤ r.window_start + r.window_duration) times
    → granted r times + r.request_count ≤ r.max_requests
unfolding granted
granted_same_window r [] v h = omega arith
granted_same_window r (now ∷ times) v h =
    let (start, count) = same_window-step r now v h.0 in
    let (v', max, dur, _, _) = try_acquire-IsWithin r now v in
    let later =
      granted_same_window (try_acquire r now).0 times v'
        (All-mono times (λ t k. omega arith) h.1) in
    ground arith

-- The same with the slots already taken counted in.
granted_span :
    (r : RateLimiter) (times : List ℕ) (from : ℕ)
    → IsWithin r
    → All (λ now. (from ≤ now) × (now ≤ from + r.window_duration)) times
    → granted r times + r.request_count ≤ 2 * r.max_requests
unfolding granted
granted_span r [] from v h = omega arith
granted_span r (now ∷ times) from v h =
    let (v', max, dur, _, _) = try_acquire-IsWithin r now v in
    elim (dec_le now (r.window_start + r.window_duration)) [
      | yes old ↦
          let (start, count) = same_window-step r now v old in
          let later =
            granted_span (try_acquire r now).0 times from v'
              (All-mono times (λ t k. (k.0, omega arith)) h.1) in
          ground arith
      | no new ↦
          let (start, count) = new_window-step r now (omega arith) in
          let later =
            granted_same_window (try_acquire r now).0 times v'
              (All-mono times (λ t k. omega arith) h.1) in
          ground arith
    ]

-- Whatever the state of the limiter, the calls of any stretch of time no longer than the window get
-- at most twice the limit: a stretch may touch two windows.
pub granted_in_span :
    (r : RateLimiter) (times : List ℕ) (from : ℕ)
    → IsWithin r
    → All (λ now. (from ≤ now) × (now ≤ from + r.window_duration)) times
    → granted r times ≤ 2 * r.max_requests
granted_in_span r times from v h = omega (arith, granted_span r times from v h)
