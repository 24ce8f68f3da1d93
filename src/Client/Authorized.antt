-- ===== src/Client/Authorized.antt =====
-- The token in the requests of a client that the constructor of src/client.cpp accepted.
use mathlib.Core.List.{map-append}
use libtradier.Base.{
  ℕ, ◌≡◌, refl, sym, ap, ◌∙◌, true, false, List, [], ◌∷◌, ◌++◌, map, Option, some, is_empty, arith,
  Bool-cases, inl, inr, of_some,
}
use libtradier.Text.{Text, txt, text_eq, text_eq_iff}
use libtradier.Errors.{ok}
use libtradier.FormMap.{FormMap, find}
use libtradier.Config.{Config}
use libtradier.Http.{
  Method, HttpRequest, build_headers, header_line, build_request, form_loop, with_query, with_form,
  content_type,
}
use libtradier.Http.Laws.{find-build_headers}
use libtradier.Service.Laws.{bind-ok}
use libtradier.HttpClient.{http_client}
use libtradier.Client.{TradierClient, tradier_client}

-- An element of a list, by what stands on both sides of it.
abbrev pub Holds {ℓ} : {A : Type ℓ} → A → List A → Type ℓ
Holds {A = A} x xs = (before : List A) × (after : List A) × (xs ≡ before ++ x ∷ after)

pair_eq : {j k v w : Text} → j ≡ k → w ≡ v → ◌≡◌ {A = Text × Text} (j, w) (k, v)
pair_eq h e i = (h i, e i)

ok_eq : {A : Type 0} {a b : A} → ok a ≡ ok b → a ≡ b
ok_eq h = cc

find-Holds : (k v : Text) (m : FormMap) → find k m ≡ some v → Holds (k, v) m
unfolding find
find-Holds k v [] h = cc
find-Holds k v ((j, w) ∷ m) h = elim (Bool-cases (text_eq j k)) [
  | inl same ↦ (
    [],
    m,
    ap (λ p. p ∷ m) (pair_eq ((text_eq_iff j k).0 same) (of_some (sym (rw same refl) ∙ h))),
  )
  | inr other ↦
      let (before, after, e) = find-Holds k v m (sym (rw other refl) ∙ h) in
      ((j, w) ∷ before, after, ap (λ rest. (j, w) ∷ rest) e)
]

map-Holds {ℓ κ} :
    {A : Type ℓ} {B : Type κ} (f : A → B) (x : A) (xs : List A)
    → Holds x xs
    → Holds (f x) (map f xs)
map-Holds f x xs (before, after, e) =
    (map f before, map f after, ap (map f) e ∙ map-append f before (x ∷ after))

form_lines :
    (escape : Text → Option Text) (method : Method) (config : Config) (endpoint : Text)
    (params : FormMap) (request : HttpRequest)
    → with_form escape method config endpoint params ≡ ok request
    → (additional : FormMap) × (request.header_lines
        ≡ map header_line (build_headers config additional))
unfolding with_form
form_lines escape method config endpoint params request h =
    let (text, _, e) = (bind-ok (form_loop escape true (txt "") params) _ request).0 h in
    (content_type, ap (λ r. r.header_lines) (sym (ok_eq e)))

-- The header lines of a request, whatever its method.
header_lines-build_headers :
    (escape : Text → Option Text) (method : Method) (config : Config) (endpoint : Text)
    (params : FormMap) (request : HttpRequest)
    → build_request escape method config endpoint params ≡ ok request
    → (additional : FormMap) × (request.header_lines
        ≡ map header_line (build_headers config additional))
unfolding build_request with_query with_form
header_lines-build_headers escape Method.get config endpoint params request h =
    ([], ap (λ r. r.header_lines) (sym (ok_eq h)))
header_lines-build_headers escape Method.del config endpoint params request h =
    ([], ap (λ r. r.header_lines) (sym (ok_eq h)))
header_lines-build_headers escape Method.post config endpoint params request h =
    form_lines escape Method.post config endpoint params request h
header_lines-build_headers escape Method.put_method config endpoint params request h =
    form_lines escape Method.put_method config endpoint params request h

module _ {D : Type 0} where
  constructed :
      (config : Config) (two : D) (minute start : ℕ) (c : TradierClient D)
      → tradier_client config two minute start ≡ ok c
      → (is_empty config.access_token ≡ false) × (c.http.config ≡ config)
  unfolding tradier_client http_client
  constructed config two minute start c h = elim (Bool-cases (is_empty config.access_token)) [
    | inl none_given ↦ ground arith
    | inr given ↦
        let made : tradier_client config two minute start
            ≡ ok (record { config = config; http = http_client config two minute start }) =
          rw given refl in
        (given, ap (λ c'. c'.http.config) (ok_eq (sym h ∙ made)))
  ]

  -- TradierClient's constructor accepts a configuration only with a token, and every request of the
  -- client it makes, with any method, carries the line `Authorization: Bearer <token>`.
  pub tradier_client-authorized :
      (config : Config) (two : D) (minute start : ℕ) (c : TradierClient D)
      (escape : Text → Option Text) (method : Method) (endpoint : Text) (params : FormMap)
      (request : HttpRequest)
      → tradier_client config two minute start ≡ ok c
      → build_request escape method c.http.config endpoint params ≡ ok request
      → (is_empty config.access_token ≡ false)
        × Holds
            (header_line (txt "Authorization", txt "Bearer " ++ config.access_token))
            request.header_lines
  tradier_client-authorized config two minute start c escape method endpoint params request h k =
      let (given, same) = constructed config two minute start c h in
      let (additional, lines) =
        header_lines-build_headers escape method c.http.config endpoint params request k in
      let (authorized, _, _) = find-build_headers config additional in
      (
        given,
        rw (lines, same)
            (map-Holds header_line _ _
              (find-Holds (txt "Authorization") _ _ (authorized ∙ rw given refl))),
      )
