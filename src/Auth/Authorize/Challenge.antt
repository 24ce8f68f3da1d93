-- ===== src/Auth/Authorize/Challenge.antt =====
-- The PKCE pair that getAuthorizationUrl of src/auth.cpp keeps: a verifier and its challenge.
use mathlib.Core.Path.{subst}
use libtradier.Base.{
  ℕ, ◌≡◌, refl, sym, ap, ◌∙◌, true, List, [], ◌∷◌, map, All, inl, inr, arith, ◌⊎◌, ◌%◌, get_or,
}
use libtradier.Text.{Text, txt}
use libtradier.Errors.{Exception, Outcome, ok, throw}
use libtradier.Codec.Bytes.{all_below, all_below_sound}
use libtradier.Codec.Base64.{base64_url_encode}
use libtradier.Codec.UrlEncode.{is_unreserved, is_alnum}
use libtradier.FormMap.{put}
use libtradier.Auth.Scopes.{TokenScope}
use libtradier.Auth.Authorize.{
  AuthService, System, charset, random_char, authorization_address, finish, generate_random_string,
  challenge_step, prepare_challenge, with_state, get_authorization_url,
}

Outcome-cases :
    {A : Type 0} (o : Outcome A) → ((a : A) × (o ≡ ok a)) ⊎ ((e : Exception) × (o ≡ throw e))
Outcome-cases (ok a) = inl (a, refl)
Outcome-cases (throw e) = inr (e, refl)

ok_eq : {A : Type 0} {a b : A} → ok a ≡ ok b → a ≡ b
ok_eq h = cc

finish-ok :
    (o : Outcome (Unit {0})) (address url : Text)
    → finish o address ≡ ok url
    → (o ≡ ok tt) × (url ≡ address)
unfolding finish
finish-ok (ok tt) address url h = (refl, ok_eq (sym h))
finish-ok (throw e) address url h = cc

-- The 66 characters are unreserved.
random_char-unreserved : (byte : ℕ) → is_unreserved (random_char byte) ≡ true
unfolding random_char is_unreserved is_alnum all_below txt
random_char-unreserved byte =
    all_below_sound 66 (λ i. is_unreserved (get_or charset i 0)) refl (byte % 66) (omega arith)

map-random_char : (bytes : List ℕ) → All (λ c. is_unreserved c ≡ true) (map random_char bytes)
map-random_char [] = tt
map-random_char (byte ∷ bytes) = (random_char-unreserved byte, map-random_char bytes)

module _ {S : Type 0} (system : System S) where
  -- A verifier and a challenge that belong together: the challenge is the URL-safe base64 of the
  -- verifier's SHA-256, and the verifier is made of the unreserved characters of RFC 7636.
  abbrev pub Matched : AuthService → Type 0
  Matched a =
      (hash : Text) × (system.sha256 a.code_verifier ≡ ok hash)
      × (a.code_challenge ≡ base64_url_encode hash)
      × All (λ c. is_unreserved c ≡ true) a.code_verifier

  random_text :
      (n : ℕ) (s : S) (v : Text)
      → (generate_random_string system n s).0 ≡ ok v
      → All (λ c. is_unreserved c ≡ true) v
  unfolding generate_random_string
  random_text n s v h = elim (Outcome-cases (system.random_bytes n s).0) [
    | inl (bytes, e) ↦
        subst (All (λ c. is_unreserved c ≡ true)) (ok_eq (sym (random_ok e) ∙ h))
          (map-random_char bytes)
    | inr (x, e) ↦ ground arith
  ]
    where
      random_ok :
          {bytes : List ℕ}
          → (system.random_bytes n s).0 ≡ ok bytes
          → (generate_random_string system n s).0 ≡ ok (map random_char bytes)
      random_ok e = rw e refl

  challenge_step-Matched :
      (verifier : Outcome Text) (a : AuthService)
      → ((v : Text) → verifier ≡ ok v → All (λ c. is_unreserved c ≡ true) v)
      → (challenge_step system verifier a).0 ≡ ok tt
      → Matched (challenge_step system verifier a).1
  unfolding challenge_step
  challenge_step-Matched (throw e) a safe h = cc
  challenge_step-Matched (ok verifier) a safe h = elim (Outcome-cases (system.sha256 verifier)) [
    | inl (hash, e) ↦ rw (e, challenge_step) (hash, e, refl, safe verifier refl)
    | inr (x, e) ↦ ground arith
  ]

  prepare_challenge-on :
      (a : AuthService) (s : S)
      → a.config.use_pkce ≡ true
      → prepare_challenge system a s ≡ (
        (challenge_step system (generate_random_string system 128 s).0 a).0,
        (challenge_step system (generate_random_string system 128 s).0 a).1,
        (generate_random_string system 128 s).1,
      )
  unfolding prepare_challenge
  prepare_challenge-on a s on = simp on

  prepare_challenge-Matched :
      (a : AuthService) (s : S)
      → a.config.use_pkce ≡ true
      → (prepare_challenge system a s).0 ≡ ok tt
      → Matched (prepare_challenge system a s).1
  unfolding prepare_challenge
  prepare_challenge-Matched a s on h =
      subst (λ r. Matched r.1) (sym (prepare_challenge-on a s on))
        (challenge_step-Matched (generate_random_string system 128 s).0 a (random_text 128 s)
          (sym (ap (λ r. r.0) (prepare_challenge-on a s on)) ∙ h))

  with_state-Matched :
      (state : Outcome Text) (a : AuthService) (scopes : List TokenScope) (s : S) (url : Text)
      → a.config.use_pkce ≡ true
      → (with_state system state a scopes s).0 ≡ ok url
      → Matched (with_state system state a scopes s).1
        × (url ≡ authorization_address (with_state system state a scopes s).1 scopes)
  unfolding with_state
  with_state-Matched (throw e) a scopes s url on h = cc
  with_state-Matched (ok state) a scopes s url on h =
      let a' = record a {
        current_state = state;
        state_cache = put state (system.now s).0 a.state_cache;
      } in
      let s' = (system.now s).1 in
      let (done, same) = finish-ok (prepare_challenge system a' s').0 _ url h in
      (prepare_challenge-Matched a' s' on done, same)

  pub address-Matched :
      (a : AuthService) (scopes : List TokenScope) (s : S) (url : Text)
      → a.config.use_pkce ≡ true
      → (get_authorization_url system a scopes s).0 ≡ ok url
      → Matched (get_authorization_url system a scopes s).1
        × (url ≡ authorization_address (get_authorization_url system a scopes s).1 scopes)
  unfolding get_authorization_url
  address-Matched a scopes s url on h = with_state-Matched _ _ scopes _ url on h
