-- ===== src/Account/Balances.antt =====
-- The overload that getBalances of src/account.cpp reads the texts with.
use libtradier.Base.{◌≡◌, refl, ◌⊎◌, inl, inr, Bool, true, false, not, [], ◌∷◌}
use libtradier.Text.{Text, txt}
use libtradier.Errors.Ensures.{Ensures, returns, throws, if-Ensures}
use libtradier.ApiResult.{of_value}
use libtradier.Validation.{Doubles}
use libtradier.Service.{Client, Json}
use libtradier.Dates.{Calendar}
use libtradier.SafeJson.{holds_key, SafeJsonParser}
use libtradier.Account.Types.{AccountBalances}
use libtradier.Account.Answers.{char_of, perform_safe, parse_balances}
use libtradier.Account.Operations.{get_balances_call, get_balances}
use libtradier.Account.Ensured.{run_safe-Ensures}

-- A text of one character with code 1 or 0
abbrev pub IsMark : Text → Type 0
IsMark text = (text ≡ 1 ∷ []) ⊎ (text ≡ 0 ∷ [])

char_of-IsMark : (b : Bool) → IsMark (char_of b)
unfolding char_of
char_of-IsMark true = inl refl
char_of-IsMark false = inr refl

module _ {J D Tm S : Type 0} (lib : Json J D) (doubles : Doubles D) (calendar : Calendar Tm)
    (as_json : SafeJsonParser J → J) (client : Client S) where
  parse_balances-Ensures :
      (p : SafeJsonParser J)
      → Ensures
          (λ (b : AccountBalances D). IsMark b.account_number × IsMark b.account_type)
          (parse_balances lib doubles p)
  unfolding parse_balances
  parse_balances-Ensures p =
      if-Ensures (not (holds_key lib p (txt "balances"))) (λ h. throws)
        (λ h. returns (char_of-IsMark _, char_of-IsMark _))

  -- The balances that getBalances returns never have the account's number and type: whatever the
  -- server answers, both are a single character with code 1 or 0.
  pub get_balances-IsMark :
      (number : Text) (s : S) (balances : AccountBalances D)
      → (get_balances lib doubles calendar as_json client number s).0 ≡ of_value balances
      → IsMark balances.account_number × IsMark balances.account_type
  unfolding get_balances perform_safe
  get_balances-IsMark number s balances h =
      run_safe-Ensures lib client (get_balances_call number) (parse_balances lib doubles)
        (get_balances_call number).prepare s balances parse_balances-Ensures h
