-- ===== src/Tests/Retries.antt =====
-- retryWithBackoff of an operation that fails once.
use libtradier.Base.{ℕ, zero, suc, ◌+◌, ◌<◌, ◌≡◌, refl}
use libtradier.Text.{Text, txt}
use libtradier.Errors.{api_error, ok}
use libtradier.ApiResult.{ApiResult, of_value, of_error, internal_error}
use libtradier.ApiResult.Laws.{IsSettled, with_value, with_error}
use libtradier.Retry.{retry_with_backoff}
use libtradier.Retry.Attempts.{Ended, retry_with_backoff-Ended}

abbrev flaky_result : ℕ → ApiResult Text
flaky_result zero = of_error (api_error 503 (txt "busy"))
flaky_result (suc n) = of_value (txt "done")

-- The state counts the attempts.
abbrev flaky : ℕ → ApiResult Text × ℕ
flaky s = (flaky_result s, s + 1)

flaky_result-IsSettled : (s : ℕ) → IsSettled (flaky_result s)
flaky_result-IsSettled zero = with_error (api_error 503 (txt "busy")) refl
flaky_result-IsSettled (suc n) = with_value (txt "done") refl

abbrev three : ℕ
three = 3

abbrev no_sleep : ℕ → ℕ → ℕ
no_sleep attempt s = s

retry_with_backoff-Ended_example :
    (0 < three
      → (k : ℕ) × Ended flaky no_sleep three 0 k 0 (retry_with_backoff flaky no_sleep three 0))
    × (three ≡ 0
        → retry_with_backoff flaky no_sleep three 0
          ≡ (ok (internal_error (txt "No attempts made")), 0))
retry_with_backoff-Ended_example =
    retry_with_backoff-Ended flaky no_sleep three 0 flaky_result-IsSettled
