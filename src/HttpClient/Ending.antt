-- ===== src/HttpClient/Ending.antt =====
-- When performRequest comes to an end: its retries are bounded, so only the rate limit can hold it.
use libtradier.Base.{
  List, zero, suc, refl, ap, some, length, ℕ, ◌+◌, ◌<◌, ◌≡◌, ◌≢◌, false, arith, none, [],
  Bool-cases, inl, inr, ◌⊎◌,
}
use libtradier.Text.{Text}
use libtradier.FormMap.{FormMap}
use libtradier.Http.{Method}
use libtradier.RateLimiter.{RateLimiter, Waited, try_acquire, try_all, wait_for_slot}
use libtradier.RateLimiter.Bounds.{IsWithin}
use libtradier.RateLimiter.Waiting.{calls_in, wait_from, try_all-Stands, try_acquire-fails}
use libtradier.HttpClient.{
  HttpClient, Net, count_total, acquire_slot, waited, after_slot, perform_request,
}

-- By turn `last` the clock has passed the end of the window, and other threads have made fewer calls
-- than the limit since the first try.
abbrev pub CanServe : ℕ → ℕ → (ℕ → ℕ × ℕ) → (ℕ → List ℕ) → RateLimiter → Type 0
CanServe fuel last clock crowd r =
    IsWithin r
    × (calls_in crowd 0 (suc last) < r.max_requests)
    × (r.window_start + r.window_duration < (clock last).0)
    × (last < fuel)

calls_in-suc :
    (crowd : ℕ → List ℕ) (i n : ℕ) → calls_in (λ k. crowd (suc k)) i n ≡ calls_in crowd (suc i) n
unfolding calls_in
calls_in-suc crowd i zero = refl
calls_in-suc crowd i (suc n) = ap (λ m. length (crowd (suc i)) + m) (calls_in-suc crowd (suc i) n)

-- The wait, once others have had their turn before it.
wait_after :
    (fuel last : ℕ) (clock : ℕ → ℕ × ℕ) (crowd : ℕ → List ℕ) (r : RateLimiter)
    → CanServe fuel last clock crowd r
    → (w : Waited) × (wait_for_slot fuel clock (λ i. crowd (suc i)) 0 [] (try_all r (crowd 0))
        ≡ some w)
unfolding calls_in
wait_after fuel last clock crowd r (v, few, late, enough) =
    let window = r.window_start + r.window_duration in
    let there = try_all-Stands r.max_requests window 0 r (crowd 0) (v, refl, inl refl) in
    let (w, ends, _) =
      wait_from last fuel clock (λ i. crowd (suc i)) 0 last r.max_requests window
        (0 + length (crowd 0)) [] (try_all r (crowd 0)) there
        (omega (arith, few, calls_in-suc crowd 0 last)) (omega arith) late enough in
    (w, ends)

module _ {D S : Type 0} (backoff : ℕ → D → ℕ → ℕ) (net : Net S) where
  acquire_slot-ne-none :
      (fuel last : ℕ) (c : HttpClient D) (s : S)
      → (c.rate_limit_enabled ≡ false)
        ⊎ CanServe fuel last (net.readings (net.now s).1) (net.others (net.now s).1) c.limiter
      → acquire_slot backoff net fuel c s ≢ none
  unfolding acquire_slot waited
  acquire_slot-ne-none fuel last c s (inl off) = ground arith
  acquire_slot-ne-none fuel last c s (inr able) =
      elim (Bool-cases (try_acquire c.limiter (net.now s).0).1) [
        | inl got ↦ ground arith
        | inr refused ↦
            let world = (net.now s).1 in
            let (w, e) =
              wait_after fuel last (net.readings world) (net.others world) c.limiter able in
            let (same, _, _) =
              try_acquire-fails c.limiter (net.now s).0 (omega (arith, able.1)) refused in
            ground (arith, same, e)
      ]

  -- A request does come to an end, with any number of retries, if the rate limit is off, or if it is
  -- on with a counter within it, the clock of the waiting thread passes the end of the window in some
  -- turn, and other threads try for a slot fewer times than the limit allows between the request's
  -- first try and that turn; the fuel of the wait has to reach that turn.
  pub perform_request-ne-none :
      (fuel last : ℕ) (method : Method) (endpoint : Text) (params : FormMap) (c : HttpClient D)
      (s : S)
      → (c.rate_limit_enabled ≡ false)
        ⊎ CanServe fuel last
            (net.readings (net.now (net.now s).1).1)
            (net.others (net.now (net.now s).1).1)
            c.limiter
      → perform_request backoff net fuel method endpoint params c s ≢ none
  unfolding perform_request after_slot
  perform_request-ne-none fuel last method endpoint params c s h =
      let slot = acquire_slot-ne-none fuel last (count_total c) (net.now s).1 h in ground arith
