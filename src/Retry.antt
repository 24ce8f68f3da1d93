-- ===== src/Retry.antt =====
-- retryWithBackoff of include/tradier/common/async.hpp. `S` is the state of the world; `sleep k` is
-- the sleep after attempt number k, counted from 0. A negative number of attempts is like none.
pub mod Attempts
use libtradier.Base.{ℕ, zero, suc, ◌&&◌, Bool, leb, ltb, if◌then◌else◌}
use libtradier.Text.{Text, txt}
use libtradier.Errors.{ApiError, Exception, Outcome, ok, throw}
use libtradier.ApiResult.{ApiResult, is_success, error_of, internal_error}

-- A 4xx code
unfoldable pub is_client_error : ApiError → Bool
is_client_error e = leb 400 e.status_code && ltb e.status_code 500

module _ {T S : Type 0} (operation : S → ApiResult T × S) (sleep : ℕ → S → S) where
  -- if (attempt < maxRetries - 1); `left` attempts are still to come.
  unfoldable pub pause : ℕ → ℕ → S → S
  pause zero attempt s = s
  pause (suc left) attempt s = sleep attempt s

  unfoldable pub retry_loop : ℕ → ℕ → ApiResult T → S → Outcome (ApiResult T) × S
  unfolding pause
  retry_loop zero attempt last s = (ok last, s)
  retry_loop (suc left) attempt last s =
      let (result, s') = operation s in
      let again = retry_loop left (suc attempt) result (pause left attempt s') in
      if is_success result then (ok result, s') else elim (error_of result) [
        | throw e ↦ (throw e, s')
        | ok e ↦ if is_client_error e then (ok result, s') else again
      ]

  unfoldable pub retry_with_backoff : ℕ → S → Outcome (ApiResult T) × S
  unfolding retry_loop internal_error
  retry_with_backoff max_retries s =
      retry_loop max_retries 0 (internal_error (txt "No attempts made")) s
