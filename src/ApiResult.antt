-- ===== src/ApiResult.antt =====
-- include/tradier/common/api_result.hpp: a result with a value or an error, and the translation of
-- exceptions into such results.
pub mod Laws
use libtradier.Base.{ℕ, ◌≡◌, Bool, true, false, Option, none, some, [], ◌++◌, leb, if◌then◌else◌}
use libtradier.Text.{Text, txt}
use libtradier.Errors.{ApiError, api_error, api_what, Exception, what, Outcome, ok, throw}

pub data ErrorCategory : Type 0 where
  none_category network authentication validation api_error_category parsing internal :
      ErrorCategory

unfoldable pub category_to_string : ErrorCategory → Text
category_to_string ErrorCategory.network = txt "Network Error"
category_to_string ErrorCategory.authentication = txt "Authentication Error"
category_to_string ErrorCategory.validation = txt "Validation Error"
category_to_string ErrorCategory.api_error_category = txt "API Error"
category_to_string ErrorCategory.parsing = txt "Parsing Error"
category_to_string ErrorCategory.internal = txt "Internal Error"
category_to_string ErrorCategory.none_category = txt "Unknown Error"

pub record ApiResult {ℓ} (T : Type ℓ) : Type ℓ where
  pub value : Option T
  pub error : Option ApiError

abbrev has_error : Option ApiError → Bool
has_error none = false
has_error (some e) = true

retry_error : Option ApiError → Bool
retry_error none = false
retry_error (some e) = leb 500 e.status_code

get_error : Option ApiError → Outcome ApiError
get_error none = throw (Exception.validation (txt "Accessing error of successful ApiResult"))
get_error (some e) = ok e

module _ {ℓ} {T : Type ℓ} where
  -- ApiResult(const T&), ApiResult(ApiError)
  abbrev pub of_value : T → ApiResult T
  of_value v = record { value = some v; error = none }

  abbrev pub of_error : ApiError → ApiResult T
  of_error e = record { value = none; error = some e }

  -- ApiResult(ErrorCategory, message)
  unfoldable pub of_category : ErrorCategory → Text → ApiResult T
  of_category ErrorCategory.api_error_category m = of_error (api_error 500 m)
  of_category c m = of_error (api_error 0 (category_to_string c ++ (txt ": " ++ m)))

  -- ApiResult(ErrorCategory, httpStatus, message)
  unfoldable pub of_status : ErrorCategory → ℕ → Text → ApiResult T
  of_status c status m = of_error (api_error status m)

  unfoldable pub network_error : Text → ApiResult T
  unfolding of_category
  network_error m = of_category ErrorCategory.network m

  unfoldable pub auth_error : Text → ApiResult T
  unfolding of_category
  auth_error m = of_category ErrorCategory.authentication m

  unfoldable pub validation_error : Text → ApiResult T
  unfolding of_category
  validation_error m = of_category ErrorCategory.validation m

  unfoldable pub http_error : ℕ → Text → ApiResult T
  unfolding of_status
  http_error status m = of_status ErrorCategory.api_error_category status m

  unfoldable pub parse_error : Text → ApiResult T
  unfolding of_category
  parse_error m = of_category ErrorCategory.parsing m

  unfoldable pub internal_error : Text → ApiResult T
  unfolding of_category
  internal_error m = of_category ErrorCategory.internal m

  abbrev pub has_value : Option T → Bool
  has_value none = false
  has_value (some v) = true

  unfoldable pub is_success : ApiResult T → Bool
  is_success r = has_value r.value

  unfoldable pub is_error : ApiResult T → Bool
  is_error r = has_error r.error

  -- ApiResult::isRetryable
  unfoldable pub is_retryable : ApiResult T → Bool
  unfolding retry_error
  is_retryable r = retry_error r.error

  get_value : Option T → Outcome T
  get_value none = throw (Exception.validation (txt "Accessing value of failed ApiResult"))
  get_value (some v) = ok v

  -- value()
  unfoldable pub value_of : ApiResult T → Outcome T
  unfolding get_value
  value_of r = get_value r.value

  -- error()
  unfoldable pub error_of : ApiResult T → Outcome ApiError
  unfolding get_error
  error_of r = get_error r.error

  default_value : Option T → T → T
  default_value none d = d
  default_value (some v) d = v

  unfoldable pub value_or : ApiResult T → T → T
  unfolding default_value
  value_or r d = default_value r.value d

  -- The catch clauses of andThen, map and tryExecute, in their order; `label` is what goes in front
  -- of what(). Only ValidationError, AuthenticationError, ConnectionError and ApiError have a clause
  -- of their own.
  unfoldable pub catch_all : Text → Exception → ApiResult T
  unfolding validation_error auth_error network_error http_error internal_error
  catch_all label (Exception.validation m) =
      validation_error (label ++ what (Exception.validation m))
  catch_all label (Exception.authentication m) =
      auth_error (label ++ what (Exception.authentication m))
  catch_all label (Exception.connection m) = network_error (label ++ what (Exception.connection m))
  catch_all label (Exception.api e) = http_error e.status_code (label ++ api_what e)
  catch_all label e = internal_error (label ++ what e)

  abbrev settle : Text → Outcome T → ApiResult T
  settle label (ok v) = of_value v
  settle label (throw e) = catch_all label e

  -- tryExecute
  unfoldable pub try_execute : Outcome T → Text → ApiResult T
  unfolding catch_all
  try_execute func operation = settle (operation ++ txt ": ") func

  or_else_from : ApiResult T → Option ApiError → (ApiError → Outcome (ApiResult T)) → ApiResult T
  or_else_from r none func = r
  or_else_from r (some e) func = elim (func e) [ ok r' ↦ r' | throw _ ↦ r ]

  -- orElse: an exception of `func` leaves the result as it was.
  unfoldable pub or_else : ApiResult T → (ApiError → Outcome (ApiResult T)) → ApiResult T
  unfolding or_else_from
  or_else r func = or_else_from r r.error func

module _ {ℓ κ} {T : Type ℓ} {U : Type κ} where
  run_on : Option T → (T → Outcome U) → ApiResult U
  unfolding catch_all
  run_on none func = catch_all [] (Exception.validation (txt "Accessing value of failed ApiResult"))
  run_on (some v) func = settle [] (func v)

  and_then_from : Option ApiError → Option T → (T → Outcome U) → ApiResult U
  unfolding run_on
  and_then_from (some e) v func = of_error e
  and_then_from none v func = run_on v func

  -- andThen
  unfoldable pub and_then : ApiResult T → (T → Outcome U) → ApiResult U
  unfolding and_then_from
  and_then r func = and_then_from r.error r.value func
