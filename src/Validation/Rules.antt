-- ===== src/Validation/Rules.antt =====
-- What passes the checks of include/tradier/common/validation.hpp.
use libtradier.Base.{◌≤◌, ◌≡◌, ◌↔◌, true, false, [], ◌∷◌, arith, length, all}
use libtradier.Text.{Text}
use libtradier.Errors.{ok}
use libtradier.Validation.{
  Doubles, is_symbol_char, require_valid_symbol, require_valid_account_number,
  require_valid_quantity, require_valid_price,
}

abbrev pub IsSymbol : Text → Type 0
IsSymbol s = (1 ≤ length s) × (length s ≤ 10) × (all is_symbol_char s ≡ true)

-- A symbol passes requireValidSymbol exactly when it has 1 to 10 characters, each a letter, a digit, a
-- dot or a dash.
pub require_valid_symbol-IsSymbol : (s : Text) → (require_valid_symbol s ≡ ok tt) ↔ IsSymbol s
unfolding require_valid_symbol
require_valid_symbol-IsSymbol [] = (λ h. cc, λ h. ground arith)
require_valid_symbol-IsSymbol (c ∷ s) = (λ h. ground arith, λ h. ground arith)

abbrev pub IsAccount : Text → Type 0
IsAccount s = (8 ≤ length s) × (length s ≤ 20)

pub require_valid_account_number-IsAccount :
    (s : Text) → (require_valid_account_number s ≡ ok tt) ↔ IsAccount s
unfolding require_valid_account_number
require_valid_account_number-IsAccount [] = (λ h. cc, λ h. ground arith)
require_valid_account_number-IsAccount (c ∷ s) = (λ h. ground arith, λ h. ground arith)

module _ {D : Type 0} (doubles : Doubles D) where
  -- The comparisons that must not hold; they do not hold at NaN either.
  abbrev pub IsQuantity : D → Type 0
  IsQuantity q =
      (doubles.le q (doubles.whole 0) ≡ false) × (doubles.lt (doubles.whole 1000000) q ≡ false)

  abbrev pub IsPrice : D → Type 0
  IsPrice p =
      (doubles.lt p (doubles.whole 0) ≡ false) × (doubles.lt (doubles.whole 1000000) p ≡ false)

  pub require_valid_quantity-IsQuantity :
      (q : D) → (require_valid_quantity doubles q ≡ ok tt) ↔ IsQuantity q
  unfolding require_valid_quantity
  require_valid_quantity-IsQuantity q = (λ h. ground arith, λ h. ground arith)

  pub require_valid_price-IsPrice : (p : D) → (require_valid_price doubles p ≡ ok tt) ↔ IsPrice p
  unfolding require_valid_price
  require_valid_price-IsPrice p = (λ h. ground arith, λ h. ground arith)
