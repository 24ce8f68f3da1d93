-- ===== src/Auth/Authorize/Address.antt =====
-- What getAuthorizationUrl of src/auth.cpp leaves behind, and what a server reads from the address.
use libtradier.Base.{
  ℕ, ◌+◌, ◌≤◌, ◌≡◌, refl, ap, ◌∙◌, ◌↔◌, true, List, [], ◌∷◌, ◌++◌, map, if◌then◌else◌, some, All,
  Bool-cases, inl, inr, arith,
}
use libtradier.Text.{Text, txt}
use libtradier.Errors.{Outcome, ok, throw}
use libtradier.Codec.Base64.{base64_url_encode}
use libtradier.Codec.UrlEncode.{url_encode, encode_byte, is_unreserved}
use libtradier.FormMap.{FormMap, IsSorted, put}
use libtradier.Query.{parse_form}
use libtradier.Query.RoundTrip.{IsBytesPair, pair_text, rest_text, parse_pairs-rest}
use libtradier.Auth.Scopes.{TokenScope, scopes_to_string}
use libtradier.Auth.States.{validate_state}
use libtradier.Auth.Lookup.{cleanup-IsSorted, validate_state-put}
use libtradier.Auth.Authorize.Challenge.{Matched, address-Matched}
use libtradier.Auth.Authorize.{
  AuthService, System, random_char, authorization_address, generate_random_string, challenge_step,
  prepare_challenge, with_state, get_authorization_url,
}

abbrev later_pairs : AuthService → List TokenScope → FormMap
later_pairs a scopes =
    (txt "client_id", a.config.client_id)
    ∷ (txt "redirect_uri", a.config.redirect_uri)
    ∷ (txt "scope", scopes_to_string scopes)
    ∷ (txt "state", a.current_state)
    ∷ (if a.config.use_pkce
        then (txt "code_challenge", a.code_challenge)
          ∷ (txt "code_challenge_method", txt "S256")
          ∷ []
        else [])

-- What the address asks for.
abbrev pub request_pairs : AuthService → List TokenScope → FormMap
request_pairs a scopes = (txt "response_type", txt "code") ∷ later_pairs a scopes

query_text : AuthService → List TokenScope → Text
query_text a scopes =
    pair_text (txt "response_type", txt "code") ++ rest_text (later_pairs a scopes)

-- The authorization address has a query that reads back, percent-decoded, as the response type, the
-- client, the redirect address, the scopes and the state, and, with PKCE, the challenge and its
-- method.
pub authorization_address-parse_form :
    (a : AuthService) (scopes : List TokenScope)
    → All IsBytesPair (request_pairs a scopes)
    → (query : Text) × (authorization_address a scopes
        ≡ a.endpoints.authorization_url ++ (txt "?" ++ query))
      × (parse_form query ≡ some (request_pairs a scopes))
unfolding authorization_address pair_text rest_text parse_form txt url_encode encode_byte query_text
    scopes_to_string is_unreserved
authorization_address-parse_form a scopes bytes = (
  query_text a scopes,
  elim (Bool-cases a.config.use_pkce) [ inl on ↦ simp on | inr off ↦ simp off ],
  parse_pairs-rest (txt "response_type", txt "code") (later_pairs a scopes) bytes.0 bytes.1,
)

module _ {S : Type 0} (system : System S) where
  challenge_step-keeps :
      (verifier : Outcome Text) (a : AuthService)
      → ((challenge_step system verifier a).1.state_cache ≡ a.state_cache)
  unfolding challenge_step
  challenge_step-keeps (throw e) a = refl
  challenge_step-keeps (ok verifier) a = ground arith

  prepare_challenge-keeps :
      (a : AuthService) (s : S) → (prepare_challenge system a s).1.state_cache ≡ a.state_cache
  unfolding prepare_challenge
  prepare_challenge-keeps a s = elim (Bool-cases a.config.use_pkce) [
    | inl on ↦ simp on (challenge_step-keeps (generate_random_string system 128 s).0 a)
    | inr off ↦ simp off
  ]

  abbrev after_random : S → S
  after_random s = (system.random_bytes 32 (system.now s).1).1

  -- The state of an authorization address, made of the random bytes, is accepted when it comes back up
  -- to the expiration after the moment at which it was put into the cache, and refused later; this
  -- holds even if the PKCE challenge fails afterwards.
  pub get_authorization_url-validate_state :
      (a : AuthService) (scopes : List TokenScope) (s : S) (bytes : List ℕ) (back later : ℕ)
      → (system.random_bytes 32 (system.now s).1).0 ≡ ok bytes
      → IsSorted a.state_cache
      → back ≤ later
      → ((validate_state a.config.state_expiration back later
            (map random_char bytes)
            (get_authorization_url system a scopes s).1.state_cache).0
          ≡ true)
        ↔ (later ≤ (system.now (after_random s)).0 + a.config.state_expiration)
  unfolding get_authorization_url with_state generate_random_string
  get_authorization_url-validate_state a scopes s bytes back later h v le =
      rw (h, prepare_challenge-keeps)
        (validate_state-put a.config.state_expiration (system.now (after_random s)).0 back later
          (map random_char bytes) _
          (cleanup-IsSorted a.config.state_expiration (system.now s).0 a.state_cache v) le)

  -- The configuration and the endpoints stay.
  abbrev KeepsSettings : AuthService → AuthService → Type 0
  KeepsSettings a b = (b.config ≡ a.config) × (b.endpoints ≡ a.endpoints)

  challenge_step-KeepsSettings :
      (verifier : Outcome Text) (a : AuthService)
      → KeepsSettings a (challenge_step system verifier a).1
  unfolding challenge_step
  challenge_step-KeepsSettings (throw e) a = (refl, refl)
  challenge_step-KeepsSettings (ok verifier) a = ground arith

  with_state-KeepsSettings :
      (state : Outcome Text) (a : AuthService) (scopes : List TokenScope) (s : S)
      → KeepsSettings a (with_state system state a scopes s).1
  unfolding with_state prepare_challenge
  with_state-KeepsSettings (throw e) a scopes s = (refl, refl)
  with_state-KeepsSettings (ok state) a scopes s =
      let kept =
        challenge_step-KeepsSettings (generate_random_string system 128 (system.now s).1).0
          (record a {
            current_state = state;
            state_cache = put state (system.now s).0 a.state_cache;
          }) in
      ground (arith, kept)

  get_authorization_url-KeepsSettings :
      (a : AuthService) (scopes : List TokenScope) (s : S)
      → KeepsSettings a (get_authorization_url system a scopes s).1
  unfolding get_authorization_url
  get_authorization_url-KeepsSettings a scopes s = with_state-KeepsSettings _ _ scopes _

  -- What the address asks for with PKCE, written out.
  abbrev pub pkce_pairs : AuthService → List TokenScope → Text → Text → FormMap
  pkce_pairs a scopes state challenge =
      (txt "response_type", txt "code")
      ∷ (txt "client_id", a.config.client_id)
      ∷ (txt "redirect_uri", a.config.redirect_uri)
      ∷ (txt "scope", scopes_to_string scopes)
      ∷ (txt "state", state)
      ∷ (txt "code_challenge", challenge)
      ∷ (txt "code_challenge_method", txt "S256")
      ∷ []

  pairs-eq :
      (a b : AuthService) (scopes : List TokenScope) (challenge : Text)
      → a.config.use_pkce ≡ true
      → b.config ≡ a.config
      → b.code_challenge ≡ challenge
      → request_pairs b scopes ≡ pkce_pairs a scopes b.current_state challenge
  pairs-eq a b scopes challenge on same e = rw (same, on, e) refl

  -- What the service `a` returns as the address when it leaves `b` behind.
  abbrev pub Asks : AuthService → List TokenScope → AuthService → Text → Type 0
  Asks a scopes b url =
      (hash : Text) × (query : Text) × (system.sha256 b.code_verifier ≡ ok hash)
      × All (λ c. is_unreserved c ≡ true) b.code_verifier
      × (url ≡ a.endpoints.authorization_url ++ (txt "?" ++ query))
      × (parse_form query ≡ some (pkce_pairs a scopes b.current_state (base64_url_encode hash)))

  Matched-Asks :
      (a b : AuthService) (scopes : List TokenScope) (url : Text)
      → a.config.use_pkce ≡ true
      → KeepsSettings a b
      → All IsBytesPair (request_pairs b scopes)
      → Matched system b
      → url ≡ authorization_address b scopes
      → Asks a scopes b url
  Matched-Asks a b scopes url on (config, endpoints) bytes (hash, hashed, challenge, safe) same =
      let (query, address, reads) = authorization_address-parse_form b scopes bytes in
      (
        hash,
        query,
        hashed,
        safe,
        same ∙ address ∙ ap (λ e. e.authorization_url ++ (txt "?" ++ query)) endpoints,
        reads ∙ ap some (pairs-eq a b scopes (base64_url_encode hash) on config challenge),
      )

  -- With PKCE, and on texts of bytes, what getAuthorizationUrl returns is the authorization endpoint
  -- with a query that reads back, percent-decoded, as the response type, the client, the redirect
  -- address, the scopes, the state that the service keeps, the method S256, and a challenge that is
  -- the URL-safe base64 of the SHA-256 of the verifier that the service keeps, which is made of
  -- unreserved characters.
  pub get_authorization_url-Matched :
      (a : AuthService) (scopes : List TokenScope) (s : S) (url : Text)
      → a.config.use_pkce ≡ true
      → (get_authorization_url system a scopes s).0 ≡ ok url
      → All IsBytesPair (request_pairs (get_authorization_url system a scopes s).1 scopes)
      → Asks a scopes (get_authorization_url system a scopes s).1 url
  get_authorization_url-Matched a scopes s url on h bytes =
      let (matched, same) = address-Matched system a scopes s url on h in
      Matched-Asks a _ scopes url on (get_authorization_url-KeepsSettings a scopes s) bytes matched
        same
