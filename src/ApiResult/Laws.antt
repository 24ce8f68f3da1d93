-- ===== src/ApiResult/Laws.antt =====
-- What api_result.hpp guarantees: a result holds a value or an error and never both, no exception
-- escapes, and which errors count as worth a retry.
use libtradier.Base.{◌≤◌, ◌≡◌, refl, ◌↔◌, ◌⊎◌, true, [], ◌++◌, arith}
use libtradier.Text.{Text, txt}
use libtradier.Errors.{ApiError, api_error, Exception, what, Outcome, ok, throw}
use libtradier.Errors
use libtradier.ApiResult.{
  ApiResult, of_value, of_error, catch_all, try_execute, and_then, or_else, is_retryable,
}

-- Exactly one of the two optionals is filled.
pub data IsSettled {ℓ} {T : Type ℓ} (r : ApiResult T) : Type ℓ where
  with_value : (v : T) → r ≡ of_value v → IsSettled r
  with_error : (e : ApiError) → r ≡ of_error e → IsSettled r

module _ {ℓ} {T : Type ℓ} where
  pub catch_all-error :
      (label : Text) (e : Exception) → (a : ApiError) × (catch_all {T = T} label e ≡ of_error a)
  unfolding catch_all
  catch_all-error label (Exception.validation m) = (_, refl)
  catch_all-error label (Exception.authentication m) = (_, refl)
  catch_all-error label (Exception.connection m) = (_, refl)
  catch_all-error label (Exception.api e) = (_, refl)
  catch_all-error label e = (_, refl)

  -- tryExecute holds the function's value if it returns, and an error (and no value) if it throws,
  -- whatever it throws.
  pub try_execute-IsSettled :
      (func : Outcome T) (operation : Text)
      → IsSettled (try_execute func operation)
        × ((v : T) → (func ≡ ok v) ↔ (try_execute func operation ≡ of_value v))
  unfolding try_execute
  try_execute-IsSettled (ok v) operation =
      (with_value v refl, λ w. (λ h. ground arith, λ h. ground arith))
  try_execute-IsSettled (throw e) operation =
      let (a, h) = catch_all-error (operation ++ txt ": ") e in
      (with_error a h, λ w. (λ k. cc, λ k. cc (h, k)))

  -- A result that tryExecute built is worth a retry only if an ApiError with a 5xx code was thrown:
  -- a lost connection, which gets code 0, never is.
  pub try_execute-is_retryable :
      (func : Outcome T) (operation : Text)
      → (is_retryable (try_execute func operation) ≡ true)
        ↔ ((e : ApiError) × (func ≡ throw (Exception.api e)) × (500 ≤ e.status_code))
  unfolding try_execute is_retryable catch_all
  try_execute-is_retryable (ok v) operation = (λ h. cc, λ (e, h, k). cc)
  try_execute-is_retryable (throw (Exception.api e)) operation =
      (λ h. (e, refl, ground arith), λ (e', h, k). ground arith)
  try_execute-is_retryable (throw (Exception.validation m)) operation = (λ h. cc, λ (e, h, k). cc)
  try_execute-is_retryable (throw (Exception.authentication m)) operation =
      (λ h. cc, λ (e, h, k). cc)
  try_execute-is_retryable (throw (Exception.connection m)) operation = (λ h. cc, λ (e, h, k). cc)
  try_execute-is_retryable (throw _) operation = (λ h. cc, λ (e, h, k). cc)

  -- The two tests for a retry differ at code 429 (too many requests) and nowhere else.
  pub is_retryable_differ :
      (r : ApiResult T) (e : ApiError)
      → r ≡ of_error e
      → (Errors.is_retryable e ≡ true) ↔ ((is_retryable r ≡ true) ⊎ (e.status_code ≡ 429))
  unfolding is_retryable Errors.is_retryable
  is_retryable_differ r e k = (λ h. ground arith, λ h. ground arith)

  -- orElse on a settled result: a value stays; an error goes to the handler, whose result replaces
  -- it, or stays if the handler throws.
  pub or_else_settled :
      (r : ApiResult T) (func : ApiError → Outcome (ApiResult T))
      → ((v : T) → r ≡ of_value v → or_else r func ≡ r)
        × ((e : ApiError) (r' : ApiResult T)
            → r ≡ of_error e
            → func e ≡ ok r'
            → or_else r func ≡ r')
        × ((e : ApiError) (x : Exception) → r ≡ of_error e → func e ≡ throw x → or_else r func ≡ r)
  unfolding or_else
  or_else_settled r func = (λ v h. ground arith, λ e r' h k. ground arith, λ e x h k. ground arith)

module _ {ℓ κ} {T : Type ℓ} {U : Type κ} where
  -- andThen on a settled result gives a settled result: the error it was given, or the value of the
  -- function, or the error that the function's exception turns into.
  pub and_then-IsSettled :
      (r : ApiResult T) (func : T → Outcome U)
      → IsSettled r
      → IsSettled (and_then r func)
        × ((e : ApiError) → r ≡ of_error e → and_then r func ≡ of_error e)
        × ((v : T) (u : U) → r ≡ of_value v → func v ≡ ok u → and_then r func ≡ of_value u)
        × ((v : T) (x : Exception)
            → r ≡ of_value v
            → func v ≡ throw x
            → and_then r func ≡ catch_all [] x)
  unfolding and_then
  and_then-IsSettled r func s =
      (settled s, λ e h. ground arith, λ v u h k. ground arith, λ v x h k. ground arith)
    where
      after : (v : T) (o : Outcome U) → func v ≡ o → r ≡ of_value v → IsSettled (and_then r func)
      after v (ok u) h k = with_value u (ground arith)
      after v (throw x) h k =
          let (a, c) = catch_all-error {T = U} [] x in with_error a (ground (arith, c))

      settled : IsSettled r → IsSettled (and_then r func)
      settled (with_error e h) = with_error e (ground arith)
      settled (with_value v h) = after v (func v) refl h
