-- ===== src/Errors.antt =====
-- include/tradier/common/errors.hpp: the exception classes, what() of each, and the outcome of code
-- that may throw. Status codes are the non-negative codes of HTTP responses and of the source's
-- literals.
pub mod Ensures
use libtradier.Base.{ℕ, ◌≡◌, Bool, ◌||◌, ◌++◌, leb, ◌==◌, if◌then◌else◌, is_empty}
use libtradier.Text.{Text, txt, decimal}

-- `message` is the argument of the constructor, before what() puts the code in front.
pub record ApiError : Type 0 where
  pub status_code : ℕ
  pub message : Text
  pub endpoint : Text

pub data Exception : Type 0 where
  tradier authentication connection validation timeout parse crypto configuration network :
      Text → Exception
  api : ApiError → Exception
  -- std::runtime_error and whatever else derives from std::exception, with its what()
  standard : Text → Exception

unfoldable pub api_what : ApiError → Text
api_what e = txt "API(" ++ (decimal e.status_code ++ (txt "): " ++ e.message))

unfoldable pub what : Exception → Text
unfolding api_what
what (Exception.tradier m) = m
what (Exception.authentication m) = txt "Auth: " ++ m
what (Exception.connection m) = txt "Connection: " ++ m
what (Exception.validation m) = txt "Validation: " ++ m
what (Exception.timeout m) = txt "Timeout: " ++ m
what (Exception.parse m) = txt "Parse: " ++ m
what (Exception.crypto m) = txt "Crypto: " ++ m
what (Exception.configuration m) = txt "Config: " ++ m
what (Exception.network m) = txt "Network: " ++ m
what (Exception.api e) = api_what e
what (Exception.standard m) = m

-- ApiError::toString
unfoldable pub to_string : ApiError → Text
unfolding api_what
to_string e =
    if is_empty e.endpoint then api_what e else api_what e ++ (txt " [" ++ (e.endpoint ++ txt "]"))

-- ApiError::isRetryable
unfoldable pub is_retryable : ApiError → Bool
is_retryable e = leb 500 e.status_code || e.status_code == 429

-- ApiError(code, message), with no endpoint
abbrev pub api_error : ℕ → Text → ApiError
api_error code message = record { status_code = code; message = message; endpoint = txt "" }

-- What a call comes to: it returns or it throws.
pub data Outcome {ℓ} (A : Type ℓ) : Type ℓ where
  ok : A → Outcome A
  throw : Exception → Outcome A

infixl 5 ◌>>=◌ ◌>>◌
abbrev pub ◌>>=◌ {ℓ κ} : {A : Type ℓ} {B : Type κ} → Outcome A → (A → Outcome B) → Outcome B
ok a >>= f = f a
throw e >>= f = throw e

abbrev pub ◌>>◌ {ℓ} : {B : Type ℓ} → Outcome (Unit {0}) → Outcome B → Outcome B
m >> k = m >>= λ _. k

-- if (test) throw e;
abbrev pub throw_if : Bool → Exception → Outcome (Unit {0})
throw_if test e = if test then throw e else ok tt

-- The value, or a default in a catch clause
unfoldable pub or_default {ℓ} : {A : Type ℓ} → A → Outcome A → A
or_default d (ok a) = a
or_default d (throw e) = d

pub >>-eq-ok {ℓ} :
    {B : Type ℓ} (m : Outcome (Unit {0})) (k : Outcome B) {b : B}
    → (m >> k) ≡ ok b
    → (m ≡ ok tt) × (k ≡ ok b)
>>-eq-ok (ok tt) k h = (λ i. ok tt, h)
>>-eq-ok (throw e) k h = cc

pub of_ok {ℓ} : {A : Type ℓ} {a b : A} → ok a ≡ ok b → a ≡ b
of_ok h = cc
