-- ===== src/RateLimiter.antt =====
-- The class RateLimiter of include/tradier/common/async.hpp. tryAcquire holds the lock, so a call is
-- one step; waitForSlot gives the lock back while it waits, so that calls of other threads come
-- between its turns. Times and durations are ticks of the steady clock. A limit or a window below zero behaves as zero does, since the counter and the
-- elapsed time never are below zero.
pub mod Bounds
pub mod Waiting
use libtradier.Base.{
  ℕ, zero, suc, ◌+◌, ◌-◌, ◌≡◌, refl, Bool, true, false, List, [], ◌∷◌, Option, none, some, ltb,
  if◌then◌else◌,
}

pub record RateLimiter : Type 0 where
  pub window_start : ℕ
  pub request_count : ℕ
  pub max_requests : ℕ
  pub window_duration : ℕ

unfoldable pub rate_limiter : ℕ → ℕ → ℕ → RateLimiter
rate_limiter max_requests window_duration now = record {
  window_start = now;
  request_count = 0;
  max_requests = max_requests;
  window_duration = window_duration;
}

-- if (now - windowStart_ > windowDuration_) { windowStart_ = now; requestCount_ = 0; }
unfoldable pub roll : RateLimiter → ℕ → RateLimiter
roll r now =
    if ltb (r.window_start + r.window_duration) now
    then record r { window_start = now; request_count = 0 }
    else r

unfoldable pub take_slot : RateLimiter → RateLimiter × Bool
take_slot r =
    if ltb r.request_count r.max_requests
    then (record r { request_count = r.request_count + 1 }, true)
    else (r, false)

-- tryAcquire, and tryAcquireInternal, which is the same without the lock.
unfoldable pub try_acquire : RateLimiter → ℕ → RateLimiter × Bool
unfolding roll take_slot
try_acquire r now = take_slot (roll r now)

-- Calls of tryAcquire at the given times, one after the other.
unfoldable pub try_all : RateLimiter → List ℕ → RateLimiter
try_all r [] = r
try_all r (now ∷ times) = try_all (try_acquire r now).0 times

pub record Waited : Type 0 where
  pub limiter : RateLimiter
  -- the durations of wait_for, the last one first
  pub waits : List ℕ
  -- the turn in which the slot was taken
  pub turn : ℕ

-- One turn's wait: `windowDuration_ - (now - windowStart_)` if that is above zero.
unfoldable pub add_wait : RateLimiter → ℕ → List ℕ → List ℕ
add_wait r now waits =
    if ltb now (r.window_start + r.window_duration)
    then (r.window_start + r.window_duration - now) ∷ waits
    else waits

-- condition_.wait_for(lock, …), if the turn comes to it: the lock is free during the wait, and other
-- threads try for a slot at the given times, by tryAcquire or in a turn of their own waitForSlot.
unfoldable pub let_others : RateLimiter → ℕ → List ℕ → RateLimiter
unfolding try_all
let_others r now times = if ltb now (r.window_start + r.window_duration) then try_all r times else r

-- waitForSlot. Turn i reads the clock twice, as `clock i .0` for the test and `clock i .1` for the
-- wait; how long a wait lasts is up to the clock, since wait_for may wake early. `others i` is when
-- other threads try for a slot during that wait. `none`: the fuel ran out with no slot taken.
unfoldable pub wait_for_slot :
    ℕ → (ℕ → ℕ × ℕ) → (ℕ → List ℕ) → ℕ → List ℕ → RateLimiter → Option Waited
unfolding let_others
wait_for_slot zero clock others i waits r = none
wait_for_slot (suc fuel) clock others i waits r =
    let tried = try_acquire r (clock i).0 in
    let left = let_others tried.0 (clock i).1 (others i) in
    let again = wait_for_slot fuel clock others (suc i) (add_wait tried.0 (clock i).1 waits) left in
    if tried.1 then some (record { limiter = tried.0; waits = waits; turn = i }) else again

-- Calls of tryAcquire at the given times, and the number that got a slot.
unfoldable pub granted : RateLimiter → List ℕ → ℕ
granted r [] = 0
granted r (now ∷ times) =
    let (r', got) = try_acquire r now in
    let later = granted r' times in if got then suc later else later
