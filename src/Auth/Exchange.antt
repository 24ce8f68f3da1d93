-- ===== src/Auth/Exchange.antt =====
-- exchangeAuthorizationCode, refreshAccessToken, revokeToken, getTokenInfo, validateToken and
-- autoRefreshIfNeeded of src/auth.cpp.
pub mod Laws
use libtradier.Base.{
  ℕ, ◌+◌, ◌*◌, ◌≡◌, Bool, true, false, ◌&&◌, ◌||◌, not, List, [], ◌++◌, Option, none, some,
  if◌then◌else◌, is_empty,
}
use libtradier.Text.{Text, txt}
use libtradier.Errors.{Exception, what, Outcome, ok, throw}
use libtradier.FormMap.{find}
use libtradier.Http.{Transfer}
use libtradier.Service.{Json}
use libtradier.Validation.{invalid}
use libtradier.Auth.Tokens.{TokenInfo, is_expiring_soon, is_token_valid}
use libtradier.Auth.States.{cleanup_expired_states, validate_state}
use libtradier.Auth.Authorize.{AuthService, System, clear_state}
use libtradier.Auth.Requests.{
  TokenNet, Wording, exchange_form, refresh_form, revoke_form, post_data, request_token, is_2xx,
}

abbrev exchange_wording : Wording
exchange_wording = record {
  failure = txt "Token exchange failed: ";
  unreadable = txt "Invalid token response: ";
  notice = txt "Token exchange error: ";
  default_refresh = txt "";
}

abbrev refresh_wording : Text → Wording
refresh_wording refresh_token = record {
  failure = txt "Token refresh failed: ";
  unreadable = txt "Invalid refresh response: ";
  notice = txt "Token refresh error: ";
  default_refresh = refresh_token;
}

-- TokenInfo as its constructor and getTokenInfo start it
abbrev bare_token : Text → TokenInfo
bare_token token = record {
  access_token = token;
  refresh_token = txt "";
  token_type = txt "Bearer";
  expires_at = 0;
  issued_at = 0;
  scopes = [];
  is_valid = false;
}

module _ {S : Type 0} (system : System S) where
  -- validateState with the clock: the second reading is there only for a state that is found.
  unfoldable pub check_state : Text → AuthService → S → Bool × AuthService × S
  check_state state a s =
      let (first, s') = system.now s in
      let (now, s'') = system.now s' in
      let (good, cache) = validate_state a.config.state_expiration first now state a.state_cache in
      (
        good,
        record a { state_cache = cache },
        elim (find state (cleanup_expired_states a.config.state_expiration first a.state_cache)) [
          | none ↦ s'
          | some since ↦ s''
        ],
      )

module _ {J D S : Type 0} (second : ℕ) (lib : Json J D) (system : System S) (net : TokenNet S) where
  -- clearState on the way out of the try block
  unfoldable pub close_flow :
      Outcome TokenInfo × S → AuthService → Outcome TokenInfo × AuthService × S
  close_flow (ok token, s) a = (ok token, clear_state a, s)
  close_flow (throw e, s) a = (throw e, a, s)

  unfoldable pub send_code : Text → AuthService → S → Outcome TokenInfo × AuthService × S
  unfolding close_flow
  send_code code a s =
      close_flow
        (request_token second lib system net exchange_wording a.endpoints.access_token_url
          (exchange_form a code) s)
        a

  -- exchangeAuthorizationCode
  unfoldable pub exchange_authorization_code :
      Text → Text → AuthService → S → Outcome TokenInfo × AuthService × S
  unfolding send_code check_state
  exchange_authorization_code code state a s =
      let (good, a', s') = check_state system state a s in
      if is_empty code
      then (throw (invalid (txt "Authorization code cannot be empty")), a, s)
      else if is_empty state
      then send_code code a s
      else if good
      then send_code code a' s'
      else (throw (invalid (txt "Invalid or expired state parameter")), a', s')

  -- refreshAccessToken
  unfoldable pub refresh_access_token : Text → AuthService → S → Outcome TokenInfo × S
  refresh_access_token refresh_token a s =
      if is_empty refresh_token
      then (throw (invalid (txt "Refresh token cannot be empty")), s)
      else request_token second lib system net (refresh_wording refresh_token)
          a.endpoints.refresh_token_url (refresh_form a refresh_token) s

  -- The catch clause of autoRefreshIfNeeded
  unfoldable pub keep_token : TokenInfo → Outcome TokenInfo × S → TokenInfo × S
  keep_token token (ok fresh, s) = (fresh, s)
  keep_token token (throw e, s) = (token, net.failed (txt "Auto-refresh failed: " ++ what e) s)

  -- autoRefreshIfNeeded
  unfoldable pub auto_refresh_if_needed : TokenInfo → AuthService → S → TokenInfo × S
  unfolding keep_token refresh_access_token
  auto_refresh_if_needed token a s =
      let (now, s') = system.now s in
      let refreshed = keep_token token (refresh_access_token token.refresh_token a s') in
      if not a.config.auto_refresh || is_empty token.refresh_token
      then (token, s)
      else if is_expiring_soon token a.config.refresh_threshold now
      then refreshed
      else (token, s')

  -- revokeToken; `is_refresh` is type == TokenType::REFRESH_TOKEN.
  unfoldable pub revoke_token : Text → Bool → AuthService → S → Outcome Bool × S
  revoke_token token is_refresh a s =
      let (answer, s') =
        net.post a.endpoints.revoke_token_url (post_data (revoke_form a token is_refresh)) s in
      if is_empty token
      then (throw (invalid (txt "Token cannot be empty")), s)
      else (ok (accepted answer), s')
    where
      accepted : Transfer → Bool
      accepted (Transfer.curl_error message) = false
      accepted (Transfer.received status body lines) = is_2xx status

  stamped : TokenInfo → S → TokenInfo × S
  stamped info s =
      let (now, s') = system.now s in
      (record info { issued_at = now; expires_at = now + 24 * 3600 * second }, s')

  -- The profile of a valid token: its day is stamped if there is one or if it cannot be read.
  read_profile : TokenInfo → Outcome J → S → TokenInfo × S
  unfolding stamped
  read_profile info (throw e) s = stamped info s
  read_profile info (ok json) s =
      if lib.contains json (txt "profile") then stamped info s else (info, s)

  read_info : TokenInfo → Transfer → S → TokenInfo × S
  unfolding read_profile
  read_info info (Transfer.curl_error message) s = (info, s)
  read_info info (Transfer.received status body lines) s =
      let profile = read_profile (record info { is_valid = true }) (lib.parse body) s in
      if is_2xx status then profile else (info, s)

  -- getTokenInfo
  unfoldable pub get_token_info : Text → AuthService → S → TokenInfo × S
  unfolding read_info
  get_token_info token a s =
      let (answer, s') =
        net.get a.endpoints.user_profile_url (txt "Authorization: Bearer " ++ token) s in
      let info = read_info (bare_token token) answer s' in
      if is_empty token then (bare_token token, s) else info

  -- validateToken
  unfoldable pub validate_token : Text → AuthService → S → Bool × S
  unfolding get_token_info
  validate_token token a s =
      let (info, s') = get_token_info token a s in
      let (now, s'') = system.now s' in
      if is_empty token
      then (false, s)
      else if info.is_valid
      then (is_token_valid info now, s'')
      else (false, s')
