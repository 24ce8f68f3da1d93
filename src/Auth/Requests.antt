-- ===== src/Auth/Requests.antt =====
-- The token requests of src/auth.cpp: exchange, refresh, revoke and the profile. The callbacks are
-- functions on the state of the world and do not throw; a curl handle that cannot be made counts as
-- a failed transfer. A negative `expires_in` gives an expiry before the issue, not below the epoch.
use libtradier.Base.{
  ℕ, suc, ◌+◌, ◌-◌, ◌*◌, Bool, ◌&&◌, not, [], ◌++◌, leb, ltb, if◌then◌else◌, is_empty,
}
use libtradier.Text.{Text, txt}
use libtradier.Int.{ℤ}
use libtradier.Errors.{Exception, api_error, what, Outcome, ok, throw, ◌>>=◌}
use libtradier.FormMap.{FormMap, put}
use libtradier.Query.{join_params}
use libtradier.Http.{Transfer}
use libtradier.Service.{Json}
use libtradier.Auth.Scopes.{parse_scope_string}
use libtradier.Auth.Tokens.{TokenInfo}
use libtradier.Auth.Authorize.{AuthService, System}

pub record TokenNet (S : Type 0) : Type 0 where
  -- curl_easy_perform of a POST to an address with a body
  pub post : Text → Text → S → Transfer × S
  -- and of a GET with one header line
  pub get : Text → Text → S → Transfer × S
  -- tokenRefreshCallback_ and errorCallback_; the identity if none is set
  pub refreshed : TokenInfo → S → S
  pub failed : Text → S → S

abbrev same : Text → Text
same t = t

-- The body: `key=value` pairs, as they are.
unfoldable pub post_data : FormMap → Text
post_data params = join_params same params

-- if (config_.usePKCE && !codeVerifier_.empty()) params["code_verifier"] = codeVerifier_;
abbrev put_verifier : AuthService → FormMap → FormMap
put_verifier a form =
    if a.config.use_pkce && not (is_empty a.code_verifier)
    then put (txt "code_verifier") a.code_verifier form
    else form

unfoldable pub exchange_form : AuthService → Text → FormMap
exchange_form a code = put_verifier a (
    put (txt "redirect_uri") a.config.redirect_uri (
      put (txt "client_secret") a.config.client_secret (
        put (txt "client_id") a.config.client_id
          (put (txt "code") code (put (txt "grant_type") (txt "authorization_code") [])))))

unfoldable pub refresh_form : AuthService → Text → FormMap
refresh_form a refresh_token = put (txt "client_secret") a.config.client_secret (
    put (txt "client_id") a.config.client_id
      (put (txt "refresh_token") refresh_token (put (txt "grant_type") (txt "refresh_token") [])))

unfoldable pub revoke_form : AuthService → Text → Bool → FormMap
revoke_form a token is_refresh = put (txt "client_secret") a.config.client_secret (
    put (txt "client_id") a.config.client_id (
      put (txt "token_type_hint") (if is_refresh then txt "refresh_token" else txt "access_token")
        (put (txt "token") token [])))

-- issuedAt + std::chrono::seconds(expiresIn)
unfoldable pub expiry : ℕ → ℕ → ℤ → ℕ
expiry second issued (ℤ.pos n) = issued + n * second
expiry second issued (ℤ.negsuc n) = issued - suc n * second

abbrev pub is_2xx : ℕ → Bool
is_2xx status = leb 200 status && ltb status 300

-- What differs between exchange and refresh: the texts and the default of the refresh token.
pub record Wording : Type 0 where
  pub failure : Text
  pub unreadable : Text
  pub notice : Text
  pub default_refresh : Text

module _ {J D S : Type 0} (second : ℕ) (lib : Json J D) (system : System S) (net : TokenNet S) where
  -- The fields that are read before the clock.
  pub record Fields : Type 0 where
    pub access_token : Text
    pub refresh_token : Text
    pub token_type : Text
    pub expires_in : ℤ

  read_fields : Text → J → Outcome (Fields × J)
  read_fields default_refresh json = do
    access_token ← lib.text_value json (txt "access_token") (txt "")
    refresh_token ← lib.text_value json (txt "refresh_token") default_refresh
    token_type ← lib.text_value json (txt "token_type") (txt "Bearer")
    expires_in ← lib.int_value json (txt "expires_in") (ℤ.pos 86400)
    ok (
      record {
        access_token = access_token;
        refresh_token = refresh_token;
        token_type = token_type;
        expires_in = expires_in;
      },
      json,
    )

  abbrev token_of : Fields → ℕ → Text → TokenInfo
  token_of f now scope = record {
    access_token = f.access_token;
    refresh_token = f.refresh_token;
    token_type = f.token_type;
    expires_at = expiry second now f.expires_in;
    issued_at = now;
    scopes = parse_scope_string scope;
    is_valid = not (is_empty f.access_token);
  }

  -- catch (const nlohmann::json::exception& e)
  abbrev bad_json : Wording → Exception → Outcome TokenInfo
  bad_json w e = throw (Exception.api (api_error 400 (w.unreadable ++ what e)))

  read_scope : Wording → Fields → ℕ → Outcome Text → S → Outcome TokenInfo × S
  read_scope w f now (throw e) s = (bad_json w e, s)
  read_scope w f now (ok scope) s =
      (ok (token_of f now scope), net.refreshed (token_of f now scope) s)

  read_token : Wording → Outcome (Fields × J) → S → Outcome TokenInfo × S
  unfolding read_scope
  read_token w (throw e) s = (bad_json w e, s)
  read_token w (ok (f, json)) s =
      let (now, s') = system.now s in
      read_scope w f now (lib.text_value json (txt "scope") (txt "")) s'

  -- catch (const std::exception& e): tell the callback and throw on.
  abbrev report : Wording → Exception → S → Outcome TokenInfo × S
  report w e s = (throw e, net.failed (w.notice ++ what e) s)

  -- The try block of exchangeAuthorizationCode and refreshAccessToken
  unfoldable pub receive_token : Wording → Transfer → S → Outcome TokenInfo × S
  unfolding read_token read_fields
  receive_token w (Transfer.curl_error message) s =
      report w (Exception.connection (txt "CURL error: " ++ message)) s
  receive_token w (Transfer.received status body lines) s =
      let token = read_token w (lib.parse body >>= read_fields w.default_refresh) s in
      if is_2xx status
      then token
      else report w (Exception.api (api_error status (w.failure ++ body))) s

  unfoldable pub request_token : Wording → Text → FormMap → S → Outcome TokenInfo × S
  unfolding receive_token post_data
  request_token w url form s =
      let (answer, s') = net.post url (post_data form) s in receive_token w answer s'
