-- ===== src/Auth/Exchange/Laws.antt =====
-- What the token operations of src/auth.cpp guarantee.
use libtradier.Base.{ℕ, ◌≡◌, ◌⊎◌, true, false, is_empty}
use libtradier.Text.{Text}
use libtradier.Service.{Json}
use libtradier.Auth.Authorize.{AuthService, System, clear_state}
use libtradier.Auth.Requests.{TokenNet}
use libtradier.Auth.Exchange.{check_state}

module _ {J D S : Type 0} (second : ℕ) (lib : Json J D) (system : System S) (net : TokenNet S) where
  -- What must have held, and what is left, when a token was handed out.
  abbrev pub Closed : Text → Text → AuthService → S → AuthService → Type 0
  Closed code state a s a' =
      (is_empty code ≡ false)
      × ((is_empty state ≡ true) ⊎ ((check_state system state a s).0 ≡ true))
      × (a' ≡ clear_state a)
