-- ===== src/Tests/Auth.antt =====
-- src/auth.cpp with a clock that moves by one at each reading, random bytes that are all 7, and a
-- digest that is the text itself.
use libtradier.Codec.Bytes.{IsBytes}
use libtradier.Codec.Base64.{base64_url_encode, base64_char}
use libtradier.Query.RoundTrip.{IsBytesPair}
use libtradier.Base.{
  Bool, ltb, ◌&&◌, All, ℕ, zero, suc, ◌+◌, ◌≤◌, ◌≡◌, refl, ◌↔◌, true, false, List, [], ◌∷◌, map,
  some, arith,
}
use libtradier.Text.{Text, txt, text_lt}
use libtradier.Errors.{ok}
use libtradier.Http.{Transfer}
use libtradier.Auth.Requests.{TokenNet}
use libtradier.FormMap.{FormMap, find}
use libtradier.Query.{joined}
use libtradier.Auth.Scopes.{TokenScope, scopes_to_string, scope_to_string}
use libtradier.Auth.Tokens.{TokenInfo}
use libtradier.Auth.States.{StateCache, validate_state}
use libtradier.Auth.Lookup.{validate_state-once}
use libtradier.Auth.Authorize.{
  AuthService, System, random_char, authorization_address, get_authorization_url,
}
use libtradier.Auth.Authorize.Address.{
  Asks, request_pairs, get_authorization_url-validate_state, get_authorization_url-Matched,
}

abbrev scopes : List TokenScope
scopes = TokenScope.read ∷ TokenScope.trade ∷ []

abbrev token : TokenInfo
token = record {
  access_token = txt "abc";
  refresh_token = txt "";
  token_type = txt "Bearer";
  expires_at = 9500;
  issued_at = 0;
  scopes = scopes;
  is_valid = true;
}

abbrev cache : StateCache
cache = (txt "a1", 10) ∷ (txt "b2", 50) ∷ []

validate_state-once_example :
    (((validate_state 600 400 401 (txt "b2") cache).0 ≡ true)
      ↔ ((since : ℕ) × (find (txt "b2") cache ≡ some since) × (401 ≤ since + 600)))
    × ((later latest : ℕ)
        → (validate_state 600 later latest
            (txt "b2")
            (validate_state 600 400 401 (txt "b2") cache).1).0
          ≡ false)
unfolding txt text_lt
validate_state-once_example =
    validate_state-once 600 400 401 (txt "b2") cache ((refl, tt), (tt, tt)) (omega arith)

abbrev service : AuthService
service = record {
  config = record {
    client_id = txt "my app";
    client_secret = txt "s3cret";
    redirect_uri = txt "http://localhost:8080/callback";
    requested_scopes = scopes;
    use_pkce = true;
    state_expiration = 600;
    auto_refresh = true;
    refresh_threshold = 300;
  };
  endpoints = record {
    authorization_url = txt "https://sandbox.tradier.com/oauth/authorize";
    access_token_url = txt "";
    refresh_token_url = txt "";
    revoke_token_url = txt "";
    user_profile_url = txt "";
  };
  state_cache = [];
  current_state = txt "xyz";
  code_verifier = txt "";
  code_challenge = txt "abc";
}

abbrev sevens : ℕ → List ℕ
sevens zero = []
sevens (suc n) = 7 ∷ sevens n

abbrev system : System ℕ
system = record {
  now = λ s. (s, s + 1);
  random_bytes = λ n s. (ok (sevens n), s);
  sha256 = λ t. ok t;
}

get_authorization_url-validate_state_example :
    ((validate_state 600 500 501
        (map random_char (sevens 32))
        (get_authorization_url system service scopes 5).1.state_cache).0
      ≡ true)
    ↔ (501 ≤ (system.now 6).0 + 600)
get_authorization_url-validate_state_example =
    get_authorization_url-validate_state system service scopes 5 (sevens 32) 500 501 refl tt
      (omega arith)

all_bytes : Text → Bool
all_bytes [] = true
all_bytes (c ∷ s) = ltb c 256 && all_bytes s

all_bytes_sound : (s : Text) → all_bytes s ≡ true → IsBytes s
unfolding all_bytes
all_bytes_sound [] h = tt
all_bytes_sound (c ∷ s) h = (ground arith, all_bytes_sound s (ground arith))

all_pairs : FormMap → Bool
unfolding all_bytes
all_pairs [] = true
all_pairs (p ∷ pairs) = all_bytes p.0 && (all_bytes p.1 && all_pairs pairs)

all_pairs_sound : (pairs : FormMap) → all_pairs pairs ≡ true → All IsBytesPair pairs
unfolding all_pairs
all_pairs_sound [] h = tt
all_pairs_sound (p ∷ pairs) h = (
  (all_bytes_sound p.0 (ground arith), all_bytes_sound p.1 (ground arith)),
  all_pairs_sound pairs (ground arith),
)

asked-IsBytesPair :
    All IsBytesPair (request_pairs (get_authorization_url system service scopes 5).1 scopes)
unfolding all_pairs get_authorization_url base64_url_encode base64_char txt scopes_to_string joined
    scope_to_string
asked-IsBytesPair =
    all_pairs_sound (request_pairs (get_authorization_url system service scopes 5).1 scopes) refl

get_authorization_url-Matched_example :
    Asks system service scopes
      (get_authorization_url system service scopes 5).1
      (authorization_address (get_authorization_url system service scopes 5).1 scopes)
unfolding get_authorization_url
get_authorization_url-Matched_example =
    get_authorization_url-Matched system service scopes 5
      (authorization_address (get_authorization_url system service scopes 5).1 scopes) refl refl
      asked-IsBytesPair

-- The server answers every code with an empty object.
abbrev generous : TokenNet ℕ
generous = record {
  post = λ url body s. (Transfer.received 200 (txt "{}") [], s);
  get = λ url header s. (Transfer.received 200 (txt "{}") [], s);
  refreshed = λ token s. s;
  failed = λ message s. s;
}

abbrev waiting : AuthService
waiting = record service { state_cache = cache }

abbrev empty_token : TokenInfo
empty_token = record {
  access_token = txt "";
  refresh_token = txt "";
  token_type = txt "Bearer";
  expires_at = 86400402;
  issued_at = 402;
  scopes = [];
  is_valid = false;
}
