-- ===== src/Validation.antt =====
-- include/tradier/common/validation.hpp: the checks that throw a ValidationError. A double is of an
-- abstract type `D` with the comparisons and the conversions the code makes.
pub mod Rules
use libtradier.Base.{
  ℕ, Bool, true, false, ◌&&◌, ◌||◌, not, List, ◌++◌, leb, ltb, ◌==◌, if◌then◌else◌, is_empty, all,
  length, [], ◌∷◌,
}
use libtradier.Text.{Text, txt, decimal}
use libtradier.Int.{ℤ, is_digit}
use libtradier.Errors.{Exception, what, Outcome, ok, throw, ◌>>◌, throw_if}

-- The type double.
pub record Doubles (D : Type 0) : Type 0 where
  -- operator<= and operator<
  pub le : D → D → Bool
  pub lt : D → D → Bool
  -- the literal of a whole number
  pub whole : ℕ → D
  -- std::to_string(double)
  pub print : D → Text

abbrev pub invalid : Text → Exception
invalid message = Exception.validation message

-- requireNonEmpty, of a string and of a container
unfoldable pub require_non_empty {ℓ} : {A : Type ℓ} → List A → Text → Outcome (Unit {0})
require_non_empty value name = throw_if (is_empty value) (invalid (name ++ txt " cannot be empty"))

abbrev pub is_symbol_char : ℕ → Bool
is_symbol_char c =
    (leb b'A' c && leb c b'Z') || (leb b'a' c && leb c b'z') || is_digit c || c == b'.' || c == b'-'

-- requireValidSymbol; the last test is the regular expression ^[A-Za-z0-9.-]+$.
unfoldable pub require_valid_symbol : Text → Outcome (Unit {0})
unfolding require_non_empty
require_valid_symbol symbol = do
  require_non_empty symbol (txt "symbol")
  throw_if (ltb 10 (length symbol)) (invalid (txt "Symbol cannot exceed 10 characters"))
  throw_if (not (not (is_empty symbol) && all is_symbol_char symbol))
      (invalid (txt "Symbol contains invalid characters"))

unfoldable pub require_valid_account_number : Text → Outcome (Unit {0})
unfolding require_non_empty
require_valid_account_number account = do
  require_non_empty account (txt "account number")
  throw_if (ltb (length account) 8 || ltb 20 (length account))
      (invalid (txt "Account number must be between 8 and 20 characters"))

abbrev pub is_positive : ℤ → Bool
is_positive (ℤ.pos n) = ltb 0 n
is_positive (ℤ.negsuc n) = false

-- numeric_limits<int>::max()
abbrev pub exceeds_int : ℤ → Bool
exceeds_int (ℤ.pos n) = ltb 2147483647 n
exceeds_int (ℤ.negsuc n) = false

-- requireValidOrderId(long)
unfoldable pub require_valid_order_id : ℤ → Outcome (Unit {0})
require_valid_order_id id = do
  throw_if (not (is_positive id)) (invalid (txt "Order ID must be positive"))
  throw_if (exceeds_int id) (invalid (txt "Order ID exceeds maximum value"))

module _ {D : Type 0} (doubles : Doubles D) where
  unfoldable pub require_valid_quantity : D → Outcome (Unit {0})
  require_valid_quantity quantity = do
    throw_if (doubles.le quantity (doubles.whole 0)) (invalid (txt "Quantity must be positive"))
    throw_if (doubles.lt (doubles.whole 1000000) quantity)
        (invalid (txt "Quantity exceeds maximum allowed value"))

  unfoldable pub require_valid_price : D → Outcome (Unit {0})
  require_valid_price price = do
    throw_if (doubles.lt price (doubles.whole 0)) (invalid (txt "Price cannot be negative"))
    throw_if (doubles.lt (doubles.whole 1000000) price)
        (invalid (txt "Price exceeds maximum allowed value"))

-- requireMaxSize
unfoldable pub require_max_size {ℓ} : {A : Type ℓ} → List A → ℕ → Text → Outcome (Unit {0})
require_max_size container max_size name =
    throw_if (ltb max_size (length container))
      (invalid (name ++ (txt " exceeds maximum size of " ++ decimal max_size)))

abbrev is_white : ℕ → Bool
is_white c = c == 32 || c == 9 || c == 10 || c == 13

unfoldable pub require_valid_endpoint : Text → Outcome (Unit {0})
unfolding require_non_empty
require_valid_endpoint endpoint = do
  require_non_empty endpoint (txt "endpoint")
  throw_if (ltb 500 (length endpoint)) (invalid (txt "Endpoint URL too long"))
  throw_if (not (all (λ c. not (is_white c)) endpoint))
      (invalid (txt "Endpoint contains invalid characters"))

unfoldable pub require_valid_auth_token : Text → Outcome (Unit {0})
unfolding require_non_empty
require_valid_auth_token token = do
  require_non_empty token (txt "auth token")
  throw_if (ltb (length token) 10) (invalid (txt "Auth token appears to be invalid (too short)"))
  throw_if (ltb 500 (length token)) (invalid (txt "Auth token too long"))

-- The regular expression ^\d{4}-\d{2}-\d{2}$.
unfoldable pub is_date : Text → Bool
is_date (a ∷ b ∷ c ∷ d ∷ p ∷ e ∷ f ∷ q ∷ g ∷ h ∷ []) =
    all is_digit (a ∷ b ∷ c ∷ d ∷ e ∷ f ∷ g ∷ h ∷ []) && p == b'-' && q == b'-'
is_date _ = false

unfoldable pub require_valid_date_string : Text → Text → Outcome (Unit {0})
unfolding require_non_empty is_date
require_valid_date_string date name = do
  require_non_empty date name
  throw_if (not (is_date date)) (invalid (name ++ txt " must be in YYYY-MM-DD format"))

-- VALIDATE_IN_CONTEXT and ValidationContext::validate: only a ValidationError gets the context.
unfoldable pub in_context : Text → Outcome (Unit {0}) → Outcome (Unit {0})
unfolding what
in_context context (throw (Exception.validation m)) =
    throw (invalid (context ++ (txt ": " ++ what (Exception.validation m))))
in_context context outcome = outcome
