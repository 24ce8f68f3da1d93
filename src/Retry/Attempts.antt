-- ===== src/Retry/Attempts.antt =====
-- Which attempt retryWithBackoff returns.
use libtradier.Base.{ℕ, zero, suc, ◌<◌, ◌≡◌, refl, ap, ◌⊎◌, false, arith, Bool-cases, inl, inr}
use libtradier.Text.{txt}
use libtradier.Errors.{ApiError, Outcome, ok}
use libtradier.ApiResult.{ApiResult, of_error, is_success, error_of, internal_error}
use libtradier.ApiResult.Laws.{IsSettled, with_value, with_error}
use libtradier.Retry.{is_client_error, pause, retry_loop, retry_with_backoff}

-- An error that is worth another attempt here: any code but a 4xx one.
abbrev pub IsPassing {ℓ} : {T : Type ℓ} → ApiResult T → Type ℓ
IsPassing r = (e : ApiError) × (r ≡ of_error e) × (is_client_error e ≡ false)

module _ {T S : Type 0} (operation : S → ApiResult T × S) (sleep : ℕ → S → S) where
  -- The world in front of attempt number k from here, when each one before it is followed by a pause.
  unfoldable pub before : ℕ → ℕ → ℕ → S → S
  before zero left attempt s = s
  before (suc k) zero attempt s = s
  before (suc k) (suc left) attempt s =
      before k left (suc attempt) (pause operation sleep left attempt (operation s).1)

  -- The loop ended with attempt number k.
  pub record Ended (left attempt k : ℕ) (s : S) (result : Outcome (ApiResult T) × S) : Type 0 where
    pub within : k < left
    pub passing : (j : ℕ) → j < k → IsPassing (operation (before j left attempt s)).0
    pub last : IsPassing (operation (before k left attempt s)).0 → suc k ≡ left
    pub returned : result.0 ≡ ok (operation (before k left attempt s)).0
    pub world : result.1 ≡ (operation (before k left attempt s)).1

  abbrev loop : ℕ → ℕ → ApiResult T → S → Outcome (ApiResult T) × S
  loop left attempt r s = retry_loop operation sleep left attempt r s

  -- One turn of the loop.
  loop-turn :
      (left attempt : ℕ) (r : ApiResult T) (s : S)
      → IsSettled (operation s).0
      → (IsPassing (operation s).0
          × (loop (suc left) attempt r s
              ≡ loop left
                  (suc attempt)
                  (operation s).0
                  (pause operation sleep left attempt (operation s).1)))
        ⊎ ((IsPassing (operation s).0 → ⊥)
            × (loop (suc left) attempt r s ≡ (ok (operation s).0, (operation s).1)))
  unfolding retry_loop is_success error_of
  loop-turn left attempt r s (with_value v h) = inr (λ (e, k, _). cc (h, k), rw h refl)
  loop-turn left attempt r s (with_error e h) = elim (Bool-cases (is_client_error e)) [
    | inl client ↦
        inr (λ (e', k, other). ground arith, rw (h, client) (ap (λ x. (ok x, (operation s).1)) h))
    | inr other ↦ inl (
      (e, h, other),
      rw (h, other)
          (ap (λ x. loop left (suc attempt) x (pause operation sleep left attempt (operation s).1))
            h),
    )
  ]

  end_here :
      (left attempt : ℕ) (s : S)
      → (IsPassing (operation s).0 → 1 ≡ suc left)
      → Ended (suc left) attempt 0 s (ok (operation s).0, (operation s).1)
  unfolding before
  end_here left attempt s h = record {
    within = omega arith;
    passing = λ j lt. absurd (omega arith);
    last = h;
    returned = refl;
    world = refl;
  }

  go_on :
      (left attempt k : ℕ) (s : S) (result : Outcome (ApiResult T) × S)
      → IsPassing (operation s).0
      → Ended left (suc attempt) k (pause operation sleep left attempt (operation s).1) result
      → Ended (suc left) attempt (suc k) s result
  unfolding before
  go_on left attempt k s result bad later = record {
    within = omega (arith, later.within);
    passing = earlier;
    last = λ h. ap suc (later.last h);
    returned = later.returned;
    world = later.world;
  }
    where
      earlier : (j : ℕ) → j < suc k → IsPassing (operation (before j (suc left) attempt s)).0
      earlier zero lt = bad
      earlier (suc j) lt = later.passing j (omega arith)

  retry_loop-Ended :
      ((s : S) → IsSettled (operation s).0)
      → (left attempt : ℕ) (r : ApiResult T) (s : S)
      → (k : ℕ) × Ended (suc left) attempt k s (loop (suc left) attempt r s)
  unfolding retry_loop pause
  retry_loop-Ended settled zero attempt r s = elim (loop-turn 0 attempt r s (settled s)) [
    | inl (bad, e) ↦ (0, rw e (end_here 0 attempt s (λ _. refl)))
    | inr (good, e) ↦ (0, rw e (end_here 0 attempt s (λ h. absurd (good h))))
  ]
  retry_loop-Ended settled (suc left) attempt r s =
      elim (loop-turn (suc left) attempt r s (settled s)) [
        | inl (bad, e) ↦
            let (k, later) =
              retry_loop-Ended settled left (suc attempt) (operation s).0
                (pause operation sleep (suc left) attempt (operation s).1) in
            (suc k, rw e (go_on (suc left) attempt k s _ bad later))
        | inr (good, e) ↦ (0, rw e (end_here (suc left) attempt s (λ h. absurd (good h))))
      ]

  -- retryWithBackoff of an operation whose results are settled makes at least one attempt, if any are
  -- allowed, and at most as many as are allowed; it returns the result of the last one made, all
  -- those before it failed with a code that is not 4xx, and the last one is a success, a 4xx error,
  -- or the last one allowed. With no attempts allowed it makes none and returns an error that says so.
  pub retry_with_backoff-Ended :
      (max_retries : ℕ) (s : S)
      → ((s : S) → IsSettled (operation s).0)
      → (0 < max_retries
          → (k : ℕ) × Ended max_retries 0 k s (retry_with_backoff operation sleep max_retries s))
        × (max_retries ≡ 0
            → retry_with_backoff operation sleep max_retries s
              ≡ (ok (internal_error (txt "No attempts made")), s))
  unfolding retry_with_backoff retry_loop
  retry_with_backoff-Ended zero s settled = (λ h. absurd (omega arith), λ _. refl)
  retry_with_backoff-Ended (suc n) s settled = (
    λ _. retry_loop-Ended settled n 0 (internal_error (txt "No attempts made")) s,
    λ h. absurd (omega arith),
  )
