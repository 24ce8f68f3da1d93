-- ===== src/Auth/Redirect/Parameters.antt =====
-- The parameters of a redirect, as src/auth.cpp finds them.
use libtradier.Base.{
  ℕ, ◌≡◌, refl, ◌∙◌, true, false, ◌||◌, not, [], ◌∷◌, ◌++◌, Option, none, some, ◌==◌, if◌then◌else◌,
  is_empty, All, Bool-cases, inl, inr, arith,
}
use libtradier.Text.{Text, txt, text_eq}
use libtradier.FormMap.{FormMap, find}
use libtradier.Auth.Redirect.{
  after_prefix, span, value_at, extract_parameter, extract_auth_code_from_url,
  extract_state_from_url, extract_error_from_url,
}

-- A question mark before the first parameter, an ampersand before each other one
abbrev pub parameters : ℕ → FormMap → Text
parameters mark [] = []
parameters mark ((key, value) ∷ rest) = mark ∷ (key ++ b'=' ∷ (value ++ parameters b'&' rest))

abbrev pub redirect : Text → FormMap → Text
redirect uri params = uri ++ parameters b'?' params

abbrev pub IsPlain : Text → Type 0
IsPlain text = All (λ c. ((c == b'?') ≡ false) × ((c == b'&') ≡ false)) text

abbrev pub HasNoEquals : Text → Type 0
HasNoEquals key = All (λ c. (c == b'=') ≡ false) key

-- A value that is not empty, with none of the marks that would end it or be taken for its key's
abbrev pub IsParameter : Text × Text → Type 0
IsParameter (key, value) = IsPlain key × HasNoEquals key × IsPlain value × (is_empty value ≡ false)

abbrev pub found : Option Text → Text
found none = []
found (some value) = value

skip_plain :
    (key text rest : Text)
    → IsPlain text
    → extract_parameter key (text ++ rest) ≡ extract_parameter key rest
unfolding extract_parameter
skip_plain key [] rest h = refl
skip_plain key (c ∷ text) rest (h, hs) = rw (h.0, h.1) (skip_plain key text rest hs)

-- The key is the one that is looked for, or another one.
after_prefix-key :
    (key k rest : Text)
    → HasNoEquals key
    → HasNoEquals k
    → after_prefix (key ++ txt "=") (k ++ b'=' ∷ rest) ≡ (if text_eq k key then some rest else none)
unfolding after_prefix text_eq txt
after_prefix-key [] [] rest h hk = refl
after_prefix-key [] (c ∷ k) rest h hk = let other = hk.0 in ground arith
after_prefix-key (d ∷ key) [] rest h hk = rw h.0
after_prefix-key (d ∷ key) (c ∷ k) rest h hk =
    let ih = after_prefix-key key k rest h.1 hk.1 in ground arith

span-value :
    (value : Text) (rest : FormMap)
    → IsPlain value
    → (span (λ c. not (c == b'&')) (value ++ parameters b'&' rest)).0 ≡ value
unfolding span
span-value [] [] h = refl
span-value [] ((k, v) ∷ rest) h = refl
span-value (c ∷ value) rest (h, hs) = rw (h.1, span-value value rest hs)

later_parameters :
    (key k value : Text) (rest : FormMap)
    → IsParameter (k, value)
    → extract_parameter key (k ++ b'=' ∷ (value ++ parameters b'&' rest))
      ≡ extract_parameter key (parameters b'&' rest)
unfolding extract_parameter
later_parameters key k value rest (plain, free, plain', filled) =
    skip_plain key k _ plain ∙ skip_plain key value _ plain'

this_value :
    (key k value : Text) (rest : FormMap)
    → HasNoEquals key
    → IsParameter (k, value)
    → value_at (after_prefix (key ++ txt "=") (k ++ b'=' ∷ (value ++ parameters b'&' rest)))
      ≡ (if text_eq k key then value else [])
this_value key k value rest free' (plain, free, plain', filled) =
    rw (after_prefix-key key k (value ++ parameters b'&' rest) free' free)
      (elim (Bool-cases (text_eq k key)) [
        | inl same ↦ rw same (span-value value rest plain')
        | inr other ↦ rw other
      ])

extract-parameters :
    (key : Text) (mark : ℕ) (params : FormMap)
    → ((mark == b'?') || (mark == b'&')) ≡ true
    → HasNoEquals key
    → All IsParameter params
    → extract_parameter key (parameters mark params) ≡ found (find key params)
unfolding extract_parameter find
extract-parameters key mark [] marked free h = refl
extract-parameters key mark ((k, value) ∷ rest) marked free (p, ps) =
    rw
      (
        this_value key k value rest free p,
        later_parameters key k value rest p,
        extract-parameters key b'&' rest refl free ps,
        marked,
      )
      (elim (Bool-cases (text_eq k key)) [ inl same ↦ rw (same, p.3) | inr other ↦ rw other ])

extract-redirect :
    (key uri : Text) (params : FormMap)
    → HasNoEquals key
    → IsPlain uri
    → All IsParameter params
    → extract_parameter key (redirect uri params) ≡ found (find key params)
extract-redirect key uri params free plain h =
    skip_plain key uri _ plain ∙ extract-parameters key b'?' params refl free h

-- From a redirect to an address without ? and &, whose parameters have keys without ?, & and = and
-- values that are not empty and without ? and &, extractAuthCodeFromUrl, extractStateFromUrl and
-- extractErrorFromUrl read the first value of code, of state and of error, as it stands there, or the
-- empty text if there is none.
pub extract_from_redirect :
    (uri : Text) (params : FormMap)
    → IsPlain uri
    → All IsParameter params
    → (extract_auth_code_from_url (redirect uri params) ≡ found (find (txt "code") params))
      × (extract_state_from_url (redirect uri params) ≡ found (find (txt "state") params))
      × (extract_error_from_url (redirect uri params) ≡ found (find (txt "error") params))
unfolding extract_auth_code_from_url extract_state_from_url extract_error_from_url txt
extract_from_redirect uri params plain h = (
  extract-redirect (txt "code") uri params (refl, (refl, (refl, (refl, tt)))) plain h,
  extract-redirect (txt "state") uri params (refl, (refl, (refl, (refl, (refl, tt))))) plain h,
  extract-redirect (txt "error") uri params (refl, (refl, (refl, (refl, (refl, tt))))) plain h,
)
