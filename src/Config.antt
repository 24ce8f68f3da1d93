-- ===== src/Config.antt =====
-- include/tradier/common/config.hpp and src/common/config.cpp. The environment is an argument.
pub mod Environments
use libtradier.Base.{
  ◌≡◌, refl, Bool, true, false, ◌||◌, Option, none, some, if◌then◌else◌, inl, inr, ◌⊎◌, arith, ◌↔◌,
}
use libtradier.Text.{Text, txt, text_eq, text_eq_iff, text_eq_refl}
use libtradier.Int.{ℤ, stoi}

pub record Config : Type 0 where
  pub access_token : Text
  pub account_number : Text
  pub sandbox_mode : Bool
  pub timeout_seconds : ℤ

unfoldable pub default_config : Config
default_config = record {
  access_token = txt "";
  account_number = txt "";
  sandbox_mode = true;
  timeout_seconds = ℤ.pos 30;
}

unfoldable pub base_url : Config → Text
base_url c =
    if c.sandbox_mode
    then txt "https://sandbox.tradier.com/v1"
    else txt "https://api.tradier.com/v1"

unfoldable pub ws_url : Config → Text
ws_url c =
    if c.sandbox_mode then txt "wss://sandbox.tradier.com/v1" else txt "wss://ws.tradier.com/v1"

abbrev pub Environment : Type 0
Environment = Text → Option Text

unfoldable pub turns_off : Text → Bool
turns_off s =
    text_eq s (txt "0") || text_eq s (txt "false") || text_eq s (txt "no") || text_eq s (txt "off")

unfoldable pub read_mode : Option Text → Config → Config
read_mode none c = c
read_mode (some s) c = if turns_off s then record c { sandbox_mode = false } else c

abbrev set_token : Option Text → Config → Config
set_token none c = c
set_token (some t) c = record c { access_token = t }

abbrev set_account : Option Text → Config → Config
set_account none c = c
set_account (some a) c = record c { account_number = a }

read_credentials : Environment → Config → Config
read_credentials getenv c =
    if c.sandbox_mode
    then set_account (getenv (txt "TRADIER_SBX_ACCNUM"))
        (set_token (getenv (txt "TRADIER_SBX_TOKEN")) c)
    else set_token (getenv (txt "TRADIER_PROD_TOKEN")) c

set_timeout : Option ℤ → Config → Config
set_timeout none c = c
set_timeout (some n) c = record c { timeout_seconds = n }

read_timeout : Option Text → Config → Config
unfolding set_timeout
read_timeout none c = c
read_timeout (some s) c = set_timeout (stoi s) c

-- Config::fromEnvironment
unfoldable pub from_environment : Environment → Config
unfolding default_config read_mode turns_off read_credentials read_timeout
from_environment getenv =
    read_timeout (getenv (txt "TRADIER_API_TIMEOUT"))
      (read_credentials getenv (read_mode (getenv (txt "TRADIER_SBX_ENABLE")) default_config))
