-- ===== src/Config/Environments.antt =====
-- Which environment Config::fromEnvironment chooses, and which credentials go with it.
use libtradier.Base.{◌≡◌, refl, sym, ◌∙◌, ◌↔◌, ◌⊎◌, true, false, Option, none, some, arith}
use libtradier.Text.{Text, txt, text_eq_iff}
use libtradier.Config.{
  Config, Environment, default_config, base_url, ws_url, turns_off, read_mode, read_credentials,
  read_timeout, from_environment,
}

-- The four words that turn the sandbox off.
abbrev pub IsOff : Text → Type 0
IsOff s = (s ≡ txt "0") ⊎ (s ≡ txt "false") ⊎ (s ≡ txt "no") ⊎ (s ≡ txt "off")

turns_off_iff : (s : Text) → (turns_off s ≡ true) ↔ IsOff s
unfolding turns_off
turns_off_iff s = (
  λ h. ground (
    arith,
    text_eq_iff s (txt "0"),
    text_eq_iff s (txt "false"),
    text_eq_iff s (txt "no"),
    text_eq_iff s (txt "off"),
  ),
  λ h. ground (
    arith,
    text_eq_iff s (txt "0"),
    text_eq_iff s (txt "false"),
    text_eq_iff s (txt "no"),
    text_eq_iff s (txt "off"),
  ),
)

abbrev pub or_empty : Option Text → Text
or_empty none = txt ""
or_empty (some t) = t

read_timeout-mode :
    (o : Option Text) (c : Config)
    → ((read_timeout o c).sandbox_mode ≡ c.sandbox_mode)
      × ((read_timeout o c).access_token ≡ c.access_token)
      × ((read_timeout o c).account_number ≡ c.account_number)
unfolding read_timeout
read_timeout-mode none c = ground arith
read_timeout-mode (some s) c = ground arith

read_credentials-mode :
    (getenv : Environment) (c : Config) → (read_credentials getenv c).sandbox_mode ≡ c.sandbox_mode
unfolding read_credentials
read_credentials-mode getenv c = ground arith

read_mode-default :
    (o : Option Text)
    → ((read_mode o default_config).sandbox_mode ≡ false) ↔ ((s : Text) × (o ≡ some s) × IsOff s)
unfolding default_config read_mode
read_mode-default none = (λ h. cc, λ (s, e, off). cc)
read_mode-default (some s) = (
  λ h. (s, refl, (turns_off_iff s).0 (ground arith)),
  λ (s', e, off). ground (arith, (turns_off_iff s').1 off),
)

mode_kept :
    (getenv : Environment)
    → (from_environment getenv).sandbox_mode
      ≡ (read_mode (getenv (txt "TRADIER_SBX_ENABLE")) default_config).sandbox_mode
unfolding from_environment
mode_kept getenv = (read_timeout-mode _ _).0 ∙ read_credentials-mode getenv _

chosen :
    (getenv : Environment)
    → ((from_environment getenv).sandbox_mode ≡ false)
      ↔ ((s : Text) × (getenv (txt "TRADIER_SBX_ENABLE") ≡ some s) × IsOff s)
chosen getenv = rw (mode_kept getenv) (read_mode-default _)

credentials_of :
    (getenv : Environment) (c : Config)
    → c.access_token ≡ txt ""
    → c.account_number ≡ txt ""
    → (c.sandbox_mode ≡ true
        → ((read_credentials getenv c).access_token ≡ or_empty (getenv (txt "TRADIER_SBX_TOKEN")))
          × ((read_credentials getenv c).account_number
              ≡ or_empty (getenv (txt "TRADIER_SBX_ACCNUM"))))
      × (c.sandbox_mode ≡ false
          → ((read_credentials getenv c).access_token
              ≡ or_empty (getenv (txt "TRADIER_PROD_TOKEN")))
            × ((read_credentials getenv c).account_number ≡ txt ""))
unfolding read_credentials
credentials_of getenv c t a = (λ h. (ground arith, ground arith), λ h. (ground arith, ground arith))

read_mode-blank :
    (o : Option Text)
    → ((read_mode o default_config).access_token ≡ txt "")
      × ((read_mode o default_config).account_number ≡ txt "")
unfolding read_mode default_config
read_mode-blank none = (refl, refl)
read_mode-blank (some s) = (ground arith, ground arith)

start : Environment → Config
start getenv = read_mode (getenv (txt "TRADIER_SBX_ENABLE")) default_config

fields_kept :
    (getenv : Environment)
    → ((from_environment getenv).access_token
        ≡ (read_credentials getenv (start getenv)).access_token)
      × ((from_environment getenv).account_number
          ≡ (read_credentials getenv (start getenv)).account_number)
unfolding from_environment start
fields_kept getenv =
    let (m, t, a) = read_timeout-mode (getenv (txt "TRADIER_API_TIMEOUT")) _ in (t, a)

own :
    (getenv : Environment)
    → ((start getenv).sandbox_mode ≡ true
        → ((read_credentials getenv (start getenv)).access_token
            ≡ or_empty (getenv (txt "TRADIER_SBX_TOKEN")))
          × ((read_credentials getenv (start getenv)).account_number
              ≡ or_empty (getenv (txt "TRADIER_SBX_ACCNUM"))))
      × ((start getenv).sandbox_mode ≡ false
          → ((read_credentials getenv (start getenv)).access_token
              ≡ or_empty (getenv (txt "TRADIER_PROD_TOKEN")))
            × ((read_credentials getenv (start getenv)).account_number ≡ txt ""))
unfolding start
own getenv =
    let (t, a) = read_mode-blank (getenv (txt "TRADIER_SBX_ENABLE")) in credentials_of getenv _ t a

-- Config::fromEnvironment chooses production exactly when TRADIER_SBX_ENABLE is set to 0, false, no
-- or off. In the sandbox it takes the sandbox token and account and the sandbox hosts, in production
-- the production token, no account and the production hosts. A variable that is not set leaves its
-- field empty.
pub from_environment-credentials :
    (getenv : Environment)
    → (((from_environment getenv).sandbox_mode ≡ false)
        ↔ ((s : Text) × (getenv (txt "TRADIER_SBX_ENABLE") ≡ some s) × IsOff s))
      × ((from_environment getenv).sandbox_mode ≡ true
          → ((from_environment getenv).access_token ≡ or_empty (getenv (txt "TRADIER_SBX_TOKEN")))
            × ((from_environment getenv).account_number
                ≡ or_empty (getenv (txt "TRADIER_SBX_ACCNUM")))
            × (base_url (from_environment getenv) ≡ txt "https://sandbox.tradier.com/v1")
            × (ws_url (from_environment getenv) ≡ txt "wss://sandbox.tradier.com/v1"))
      × ((from_environment getenv).sandbox_mode ≡ false
          → ((from_environment getenv).access_token ≡ or_empty (getenv (txt "TRADIER_PROD_TOKEN")))
            × ((from_environment getenv).account_number ≡ txt "")
            × (base_url (from_environment getenv) ≡ txt "https://api.tradier.com/v1")
            × (ws_url (from_environment getenv) ≡ txt "wss://ws.tradier.com/v1"))
unfolding base_url ws_url start
from_environment-credentials getenv = (
  chosen getenv,
  λ h.
      let (t, a) = (own getenv).0 (sym (mode_kept getenv) ∙ h) in
      ((fields_kept getenv).0 ∙ t, (fields_kept getenv).1 ∙ a, rw h, rw h),
  λ h.
      let (t, a) = (own getenv).1 (sym (mode_kept getenv) ∙ h) in
      ((fields_kept getenv).0 ∙ t, (fields_kept getenv).1 ∙ a, rw h, rw h),
)
