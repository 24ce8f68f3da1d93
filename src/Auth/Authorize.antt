-- ===== src/Auth/Authorize.antt =====
-- The first step of the OAuth flow in src/auth.cpp: the authorization address, with its state and its
-- PKCE challenge.
pub mod Address
pub mod Challenge
use libtradier.Base.{
  ℕ, ◌*◌, ◌%◌, ◌≡◌, refl, Bool, true, false, List, [], ◌∷◌, ◌++◌, map, if◌then◌else◌, is_empty,
  get_or,
}
use libtradier.Text.{Text, txt}
use libtradier.Errors.{Exception, Outcome, ok, throw}
use libtradier.Codec.Base64.{base64_url_encode}
use libtradier.Codec.UrlEncode.{url_encode}
use libtradier.Auth.Scopes.{TokenScope, scopes_to_string}
use libtradier.FormMap.{put}
use libtradier.Auth.States.{StateCache, cleanup_expired_states}

pub record AuthEndpoints : Type 0 where
  pub authorization_url : Text
  pub access_token_url : Text
  pub refresh_token_url : Text
  pub revoke_token_url : Text
  pub user_profile_url : Text

unfoldable pub for_environment : Bool → AuthEndpoints
for_environment sandbox =
    if sandbox
    then record {
      authorization_url = txt "https://sandbox.tradier.com/oauth/authorize";
      access_token_url = txt "https://sandbox.tradier.com/oauth/accesstoken";
      refresh_token_url = txt "https://sandbox.tradier.com/oauth/accesstoken";
      revoke_token_url = txt "https://sandbox.tradier.com/oauth/revoke";
      user_profile_url = txt "https://sandbox.tradier.com/v1/user/profile";
    }
    else record {
      authorization_url = txt "https://api.tradier.com/oauth/authorize";
      access_token_url = txt "https://api.tradier.com/oauth/accesstoken";
      refresh_token_url = txt "https://api.tradier.com/oauth/accesstoken";
      revoke_token_url = txt "https://api.tradier.com/oauth/revoke";
      user_profile_url = txt "https://api.tradier.com/v1/user/profile";
    }

-- Durations in ticks; a second has `second` of them.
pub record AuthConfig : Type 0 where
  pub client_id : Text
  pub client_secret : Text
  pub redirect_uri : Text
  pub requested_scopes : List TokenScope
  pub use_pkce : Bool
  pub state_expiration : ℕ
  pub auto_refresh : Bool
  pub refresh_threshold : ℕ

unfoldable pub create_config : ℕ → Text → Text → Text → AuthConfig
create_config second client_id client_secret redirect_uri = record {
  client_id = client_id;
  client_secret = client_secret;
  redirect_uri =
      if is_empty redirect_uri then txt "http://localhost:8080/callback" else redirect_uri;
  requested_scopes = TokenScope.read ∷ TokenScope.write ∷ TokenScope.trade ∷ TokenScope.market ∷ [];
  use_pkce = true;
  state_expiration = 600 * second;
  auto_refresh = true;
  refresh_threshold = 300 * second;
}

pub record AuthService : Type 0 where
  pub config : AuthConfig
  pub endpoints : AuthEndpoints
  pub state_cache : StateCache
  pub current_state : Text
  pub code_verifier : Text
  pub code_challenge : Text

-- What the flow asks of the system: the clock, OpenSSL's RAND_bytes and SHA-256.
pub record System (S : Type 0) : Type 0 where
  pub now : S → ℕ × S
  pub random_bytes : ℕ → S → Outcome (List ℕ) × S
  pub sha256 : Text → Outcome Text

abbrev pub charset : Text
charset = txt "ABCDEFGHIJKLMNOPQRSTUVWXYZabcdefghijklmnopqrstuvwxyz0123456789-._~"

-- charset[byte % charset.size()]
unfoldable pub random_char : ℕ → ℕ
random_char byte = get_or charset (byte % 66) 0

-- clearState
unfoldable pub clear_state : AuthService → AuthService
clear_state a = record a {
  state_cache = [];
  current_state = txt "";
  code_verifier = txt "";
  code_challenge = txt "";
}

-- The address that getAuthorizationUrl writes.
unfoldable pub authorization_address : AuthService → List TokenScope → Text
authorization_address a scopes =
    a.endpoints.authorization_url
    ++ (txt "?response_type=code"
        ++ (txt "&client_id="
            ++ (url_encode a.config.client_id
                ++ (txt "&redirect_uri="
                    ++ (url_encode a.config.redirect_uri
                        ++ (txt "&scope="
                            ++ (url_encode (scopes_to_string scopes)
                                ++ (txt "&state="
                                    ++ (url_encode a.current_state ++ challenge_text a)))))))))
  where
    challenge_text : AuthService → Text
    challenge_text a =
        if a.config.use_pkce
        then txt "&code_challenge="
          ++ (url_encode a.code_challenge ++ txt "&code_challenge_method=S256")
        else []

unfoldable pub finish : Outcome (Unit {0}) → Text → Outcome Text
finish (ok _) url = ok url
finish (throw e) url = throw e

module _ {S : Type 0} (system : System S) where
  -- generateRandomString
  unfoldable pub generate_random_string : ℕ → S → Outcome Text × S
  unfolding random_char
  generate_random_string length s =
      let (bytes, s') = system.random_bytes length s in
      (elim bytes [ ok b ↦ ok (map random_char b) | throw e ↦ throw e ], s')

  -- The verifier and its challenge: generateCodeVerifier and generateCodeChallenge.
  unfoldable pub challenge_step : Outcome Text → AuthService → Outcome (Unit {0}) × AuthService
  challenge_step (throw e) a = (throw e, a)
  challenge_step (ok verifier) a = elim (system.sha256 verifier) [
    | ok hash ↦
        (ok tt, record a { code_verifier = verifier; code_challenge = base64_url_encode hash })
    | throw e ↦ (throw e, record a { code_verifier = verifier })
  ]

  unfoldable pub prepare_challenge : AuthService → S → Outcome (Unit {0}) × AuthService × S
  unfolding challenge_step
  prepare_challenge a s =
      let (verifier, s') = generate_random_string 128 s in
      let (done, a') = challenge_step verifier a in
      if a.config.use_pkce then (done, a', s') else (ok tt, a, s)

  unfoldable pub with_state :
      Outcome Text → AuthService → List TokenScope → S → Outcome Text × AuthService × S
  unfolding prepare_challenge authorization_address finish
  with_state (throw e) a scopes s = (throw e, a, s)
  with_state (ok state) a scopes s =
      let (now, s') = system.now s in
      let a' = record a { current_state = state; state_cache = put state now a.state_cache } in
      let (done, a'', s'') = prepare_challenge a' s' in
      (finish done (authorization_address a'' scopes), a'', s'')

  -- getAuthorizationUrl
  unfoldable pub get_authorization_url :
      AuthService → List TokenScope → S → Outcome Text × AuthService × S
  unfolding with_state generate_random_string cleanup_expired_states
  get_authorization_url a scopes s =
      let (now, s') = system.now s in
      let (state, s'') = generate_random_string 32 s' in
      let a' = record a {
        state_cache = cleanup_expired_states a.config.state_expiration now a.state_cache;
      } in
      with_state state a' scopes s''
