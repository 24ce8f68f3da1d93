-- ===== src/RateLimiter/Waiting.antt =====
-- When waitForSlot returns, and when it cannot.
use libtradier.Base.{
  ℕ, zero, suc, ◌+◌, ◌≤◌, ◌<◌, ◌≡◌, refl, sym, ap, ◌∙◌, true, false, List, [], ◌∷◌, none, some,
  arith, Bool-cases, inl, inr, ◌⊎◌, length,
}
use libtradier.RateLimiter.{
  RateLimiter, try_acquire, try_all, Waited, let_others, add_wait, wait_for_slot,
}
use libtradier.RateLimiter.Bounds.{IsWithin, try_acquire-IsWithin}

try_acquire_zero :
    (r : RateLimiter) (now : ℕ)
    → r.max_requests ≡ 0
    → ((try_acquire r now).1 ≡ false) × ((try_acquire r now).0.max_requests ≡ 0)
unfolding try_acquire
try_acquire_zero r now h = (ground arith, ground arith)

try_all_zero :
    (r : RateLimiter) (times : List ℕ) → r.max_requests ≡ 0 → (try_all r times).max_requests ≡ 0
unfolding try_all
try_all_zero r [] h = h
try_all_zero r (now ∷ times) h =
    try_all_zero (try_acquire r now).0 times (try_acquire_zero r now h).1

let_others_zero :
    (r : RateLimiter) (now : ℕ) (times : List ℕ)
    → r.max_requests ≡ 0
    → (let_others r now times).max_requests ≡ 0
unfolding let_others
let_others_zero r now times h = ground (arith, try_all_zero r times h)

-- With a limit of zero the wait never ends, however long the clock runs and whatever others do.
pub wait_for_slot_zero :
    (fuel : ℕ) (clock : ℕ → ℕ × ℕ) (others : ℕ → List ℕ) (i : ℕ) (waits : List ℕ) (r : RateLimiter)
    → r.max_requests ≡ 0
    → wait_for_slot fuel clock others i waits r ≡ none
unfolding wait_for_slot
wait_for_slot_zero zero clock others i waits r h = refl
wait_for_slot_zero (suc fuel) clock others i waits r h =
    let (no_slot, still) = try_acquire_zero r (clock i).0 h in
    rw no_slot (
      wait_for_slot_zero fuel clock others (suc i) _ _
        (let_others_zero (try_acquire r (clock i).0).0 (clock i).1 (others i) still))

-- How a finished wait stands: the limiter took one slot within its limit.
abbrev pub Served : ℕ → RateLimiter → Waited → Type 0
Served last r w =
    IsWithin w.limiter
    × (0 < w.limiter.request_count)
    × (w.limiter.max_requests ≡ r.max_requests)
    × (w.turn ≤ last)

pub try_acquire-fails :
    (r : RateLimiter) (now : ℕ)
    → 0 < r.max_requests
    → (try_acquire r now).1 ≡ false
    → ((try_acquire r now).0 ≡ r)
      × (now ≤ r.window_start + r.window_duration)
      × (r.max_requests ≤ r.request_count)
unfolding try_acquire
try_acquire-fails r now h e = (ground arith, ground arith, ground arith)

try_acquire-takes :
    (r : RateLimiter) (now : ℕ)
    → (try_acquire r now).1 ≡ true
    → 0 < (try_acquire r now).0.request_count
unfolding try_acquire
try_acquire-takes r now e = ground arith

-- The turn that takes the slot.
take_slot-Served :
    (r : RateLimiter) (now i last : ℕ) (waits : List ℕ)
    → IsWithin r
    → i ≤ last
    → (try_acquire r now).1 ≡ true
    → Served last r (record { limiter = (try_acquire r now).0; waits = waits; turn = i })
take_slot-Served r now i last waits v le got =
    let (within, same, _, _, _) = try_acquire-IsWithin r now v in
    (within, try_acquire-takes r now got, same, le)

-- The window is the one that ends at `end`, or no more than m slots of the current one are taken.
abbrev pub Stands : ℕ → ℕ → ℕ → RateLimiter → Type 0
Stands max end m r =
    IsWithin r
    × (r.max_requests ≡ max)
    × ((r.window_start + r.window_duration ≡ end) ⊎ (r.request_count ≤ m))

try_acquire-Stands :
    (max end m : ℕ) (r : RateLimiter) (now : ℕ)
    → Stands max end m r
    → Stands max end (m + 1) (try_acquire r now).0
unfolding try_acquire
try_acquire-Stands max end m r now h = (ground arith, ground arith, ground arith)

-- Each call of another thread takes one slot at most.
pub try_all-Stands :
    (max end m : ℕ) (r : RateLimiter) (times : List ℕ)
    → Stands max end m r
    → Stands max end (m + length times) (try_all r times)
unfolding try_all
try_all-Stands max end m r [] h = ground arith
try_all-Stands max end m r (now ∷ times) h =
    let later =
      try_all-Stands max end (m + 1) (try_acquire r now).0 times
        (try_acquire-Stands max end m r now h) in
    ground (arith, later)

let_others-Stands :
    (max end m : ℕ) (r : RateLimiter) (now : ℕ) (times : List ℕ)
    → Stands max end m r
    → Stands max end (m + length times) (let_others r now times)
unfolding let_others
let_others-Stands max end m r now times h = ground (arith, try_all-Stands max end m r times h)

-- The calls of other threads in n turns from turn i on.
unfoldable pub calls_in : (ℕ → List ℕ) → ℕ → ℕ → ℕ
calls_in others i zero = 0
calls_in others i (suc n) = length (others i) + calls_in others (suc i) n

-- From turn i on, when m calls of others came before.
pub wait_from :
    (n fuel : ℕ) (clock : ℕ → ℕ × ℕ) (others : ℕ → List ℕ) (i last max end m : ℕ) (waits : List ℕ)
    (r : RateLimiter)
    → Stands max end m r
    → m + calls_in others i n < max
    → i + n ≡ last
    → end < (clock last).0
    → n < fuel
    → (w : Waited) × (wait_for_slot fuel clock others i waits r ≡ some w) × Served last r w
unfolding wait_for_slot calls_in
wait_from n zero clock others i last max end m waits r v few e late f = absurd (omega arith)
wait_from zero (suc fuel) clock others i last max end m waits r v few e late f =
    elim (Bool-cases (try_acquire r (clock i).0).1) [
      | inl got ↦ (
        record { limiter = (try_acquire r (clock i).0).0; waits = waits; turn = i },
        rw got,
        take_slot-Served r (clock i).0 i last waits v.0 (omega arith) got,
      )
      | inr refused ↦
          let same : i ≡ last = omega arith in
          let (_, early, full) = try_acquire-fails r (clock i).0 (omega (arith, v.1)) refused in
          absurd (ground (arith, v, early, full, ap (λ k. (clock k).0) same))
    ]
wait_from (suc n) (suc fuel) clock others i last max end m waits r v few e late f =
    elim (Bool-cases (try_acquire r (clock i).0).1) [
      | inl got ↦ (
        record { limiter = (try_acquire r (clock i).0).0; waits = waits; turn = i },
        rw got,
        take_slot-Served r (clock i).0 i last waits v.0 (omega arith) got,
      )
      | inr refused ↦
          let left = let_others-Stands max end m r (clock i).1 (others i) v in
          let (same, _, _) = try_acquire-fails r (clock i).0 (omega (arith, v.1)) refused in
          let (w, ends, (within, taken, limit, turn)) =
            wait_from n fuel clock others (suc i) last max end (m + length (others i))
              (add_wait r (clock i).1 waits) (let_others r (clock i).1 (others i)) left
              (omega arith) (omega arith) late (omega arith) in
          rw (refused, same) (w, ends, (within, taken, limit ∙ left.1 ∙ sym v.1, turn))
    ]

-- On a limiter whose counter is within the limit, waitForSlot ends, at the latest in the turn `last`
-- in which the clock has passed the end of the window as it is at the call, with a slot taken within
-- the limit, if the calls that other threads make in the waits before that turn, which may take slots
-- and begin a new window, are fewer than the limit; the fuel has to reach that turn.
pub wait_for_slot_ends :
    (fuel last : ℕ) (clock : ℕ → ℕ × ℕ) (others : ℕ → List ℕ) (waits : List ℕ) (r : RateLimiter)
    → IsWithin r
    → calls_in others 0 last < r.max_requests
    → r.window_start + r.window_duration < (clock last).0
    → last < fuel
    → (w : Waited) × (wait_for_slot fuel clock others 0 waits r ≡ some w) × Served last r w
wait_for_slot_ends fuel last clock others waits r v few late enough =
    wait_from last fuel clock others 0 last r.max_requests (r.window_start + r.window_duration) 0
      waits r (v, refl, inl refl) (omega arith) (omega arith) late enough
