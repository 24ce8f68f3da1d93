-- ===== src/Auth/Tokens.antt =====
-- How long a token lives, in src/auth.cpp.
use native.Mathlib.Omega.{div_any}
use native.Mathlib.Nat.{mod-lt, mul_comm, suc-mul}
use libtradier.Base.{
  ℕ, suc, ◌+◌, ◌-◌, ◌*◌, ◌/◌, ◌%◌, ◌≤◌, ◌<◌, ◌≡◌, ◌↔◌, Bool, true, false, ◌&&◌, not, List, arith,
  leb, is_empty, if◌then◌else◌,
}
use libtradier.Text.{Text}
use libtradier.Auth.Scopes.{TokenScope}

pub record TokenInfo : Type 0 where
  pub access_token : Text
  pub refresh_token : Text
  pub token_type : Text
  pub expires_at : ℕ
  pub issued_at : ℕ
  pub scopes : List TokenScope
  pub is_valid : Bool

-- TokenInfo::isExpired at the time `now`
unfoldable pub is_expired : TokenInfo → ℕ → Bool
is_expired token now = leb token.expires_at now

-- now >= expiresAt - threshold
unfoldable pub is_expiring_soon : TokenInfo → ℕ → ℕ → Bool
is_expiring_soon token threshold now = leb token.expires_at (now + threshold)

-- TokenInfo::getSecondsUntilExpiry; `second` is the number of ticks in a second.
unfoldable pub seconds_until_expiry : ℕ → TokenInfo → ℕ → ℕ
seconds_until_expiry second token now =
    if leb token.expires_at now then 0 else (token.expires_at - now) / second

-- AuthService::isTokenValid
unfoldable pub is_token_valid : TokenInfo → ℕ → Bool
unfolding is_expired
is_token_valid token now =
    token.is_valid && not (is_expired token now) && not (is_empty token.access_token)

-- Whole division, by what it fits.
div_fits : (d n : ℕ) → 0 < d → (n / d * d ≤ n) × (n < suc (n / d) * d)
div_fits d n h =
    let whole : d * (n / d) + n % d ≡ n = div_any n d in
    let rest : n % d < d = mod-lt n h in
    let turn : d * (n / d) ≡ n / d * d = mul_comm d (n / d) in
    (omega (arith, whole, turn), omega (arith, whole, turn, rest, suc-mul (n / d) d))

-- The three views of the same token at the same time agree: an expired one is expiring soon at every
-- threshold, has no second left and is not valid; one that is not expired has as many whole seconds
-- left as fit before its expiry, and is expiring soon at a threshold exactly if the rest of its life
-- is no longer than the threshold.
pub is_expired-agrees :
    (second : ℕ) (token : TokenInfo) (threshold now : ℕ)
    → 0 < second
    → (is_expired token now ≡ true
        → (is_expiring_soon token threshold now ≡ true)
          × (seconds_until_expiry second token now ≡ 0)
          × (is_token_valid token now ≡ false))
      × (is_expired token now ≡ false
          → (now + seconds_until_expiry second token now * second ≤ token.expires_at)
            × (token.expires_at < now + suc (seconds_until_expiry second token now) * second)
            × ((is_expiring_soon token threshold now ≡ true)
                ↔ (token.expires_at - now ≤ threshold)))
unfolding is_expired is_expiring_soon seconds_until_expiry is_token_valid
is_expired-agrees second token threshold now h = (
  λ e. (ground arith, ground arith, ground arith),
  λ e.
      let alive : now < token.expires_at = ground arith in
      let same = div_fits second (token.expires_at - now) h in
      rw e (omega (arith, same), omega (arith, same), (λ k. ground arith, λ k. ground arith)),
)
