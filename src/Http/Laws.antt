-- ===== src/Http/Laws.antt =====
-- The requests that src/common/http_client.cpp sends: their headers, and what a server reads from
-- the address of a GET or a DELETE.
use libtradier.Base.{
  ◌≡◌, refl, ap, ◌∙◌, false, ◌&&◌, not, [], ◌∷◌, ◌++◌, map, Option, none, some, is_empty, All,
  if◌then◌else◌, Bool-cases, inl, inr,
}
use libtradier.Text.{Text, txt, text_eq}
use libtradier.Errors.{ok}
use libtradier.FormMap.{FormMap, find}
use libtradier.FormMap.Laws.{find-put}
use libtradier.Codec.UrlEncode.{url_encode}
use libtradier.Query.{join_params, parse_form}
use libtradier.Query.RoundTrip.{IsBytesPair, parse_form-join_params}
use libtradier.Config.{Config}
use libtradier.Http.{
  Method, HttpRequest, build_url, build_headers, add_accept, add_authorization, add_account,
  header_line, build_request, query_url,
}

abbrev pub or_json : Option Text → Text
or_json none = txt "application/json"
or_json (some v) = v

add_authorization-find :
    (config : Config) (h : FormMap)
    → (find (txt "Authorization") (add_authorization config h) ≡ (
        if is_empty config.access_token
        then find (txt "Authorization") h
        else some (txt "Bearer " ++ config.access_token)))
      × (find (txt "Tradier-Account") (add_authorization config h) ≡ find (txt "Tradier-Account") h)
      × (find (txt "Accept") (add_authorization config h) ≡ find (txt "Accept") h)
unfolding add_authorization txt text_eq
add_authorization-find config h = elim (Bool-cases (is_empty config.access_token)) [
  | inl e ↦ rw e (refl, refl, refl)
  | inr e ↦ rw e (simp find-put, simp find-put, simp find-put)
]

add_account-find :
    (config : Config) (h : FormMap)
    → (find (txt "Tradier-Account") (add_account config h) ≡ (
        if config.sandbox_mode && not (is_empty config.account_number)
        then some config.account_number
        else find (txt "Tradier-Account") h))
      × (find (txt "Authorization") (add_account config h) ≡ find (txt "Authorization") h)
      × (find (txt "Accept") (add_account config h) ≡ find (txt "Accept") h)
unfolding add_account txt text_eq
add_account-find config h =
    elim (Bool-cases (config.sandbox_mode && not (is_empty config.account_number))) [
      | inl e ↦ rw e (simp find-put, simp find-put, simp find-put)
      | inr e ↦ rw e (refl, refl, refl)
    ]

add_accept-find :
    (h : FormMap) (o : Option Text)
    → find (txt "Accept") h ≡ o
    → (find (txt "Accept") (add_accept o h) ≡ some (or_json o))
      × (find (txt "Authorization") (add_accept o h) ≡ find (txt "Authorization") h)
      × (find (txt "Tradier-Account") (add_accept o h) ≡ find (txt "Tradier-Account") h)
unfolding add_accept txt text_eq
add_accept-find h none e = (simp find-put, simp find-put, simp find-put)
add_accept-find h (some v) e = (e, refl, refl)

-- The headers of a request: the bearer token if there is one, the account number in the sandbox if
-- there is one, and an Accept header, which is application/json unless the caller gave another.
pub find-build_headers :
    (config : Config) (additional : FormMap)
    → (find (txt "Authorization") (build_headers config additional) ≡ (
        if is_empty config.access_token
        then find (txt "Authorization") additional
        else some (txt "Bearer " ++ config.access_token)))
      × (find (txt "Tradier-Account") (build_headers config additional) ≡ (
          if config.sandbox_mode && not (is_empty config.account_number)
          then some config.account_number
          else find (txt "Tradier-Account") additional))
      × (find (txt "Accept") (build_headers config additional)
          ≡ some (or_json (find (txt "Accept") additional)))
unfolding build_headers
find-build_headers config additional =
    let authorized = add_authorization config additional in
    let h = add_account config authorized in
    let (a1, a2, a3) = add_authorization-find config additional in
    let (b1, b2, b3) = add_account-find config authorized in
    let (c1, c2, c3) = add_accept-find h (find (txt "Accept") h) refl in
    (c2 ∙ (b2 ∙ a1), c3 ∙ (b1 ∙ rw a2 refl), c1 ∙ ap (λ o. some (or_json o)) (b3 ∙ a3))

-- A GET with parameters goes to the endpoint's address with a query behind a question mark that
-- reads back, percent-decoded, as exactly these parameters; it has no body.
pub build_request-parse_form :
    (escape : Text → Option Text) (config : Config) (endpoint : Text) (params : FormMap)
    → is_empty params ≡ false
    → All IsBytesPair params
    → (query : Text) × (request : HttpRequest) × (build_request escape Method.get config endpoint
          params
        ≡ ok request)
      × (request.url ≡ build_url config endpoint ++ (txt "?" ++ query))
      × (parse_form query ≡ some params)
      × (request.post_data ≡ none)
      × (request.header_lines ≡ map header_line (build_headers config []))
unfolding build_request query_url
build_request-parse_form escape config endpoint [] h bytes = cc
build_request-parse_form escape config endpoint ((key, value) ∷ rest) h bytes = (
  join_params url_encode ((key, value) ∷ rest),
  _,
  refl,
  refl,
  parse_form-join_params key value rest bytes,
  refl,
  refl,
)
