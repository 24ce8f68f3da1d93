-- ===== src/Http.antt =====
-- include/tradier/common/types.hpp, and what src/common/http_client.cpp hands to libcurl and takes
-- from it: the request that performSingleRequest sets up, and the callback that reads a header line.
pub mod Laws
use mathlib.Core.List.{reverse}
use libtradier.Base.{
  ℕ, ◌+◌, ◌≡◌, refl, Bool, true, false, ◌&&◌, ◌||◌, not, List, [], ◌∷◌, ◌++◌, map, Option, none,
  some, leb, ltb, ◌==◌, if◌then◌else◌, is_empty,
}
use libtradier.Text.{Text, txt}
use libtradier.Int.{ℤ}
use libtradier.Errors.{Exception, Outcome, ok, throw, ◌>>=◌}
use libtradier.Codec.UrlEncode.{url_encode}
use libtradier.FormMap.{FormMap, put, find}
use libtradier.Query.{join_params, cut}
use libtradier.Config.{Config, base_url}

-- struct Response
pub record Response : Type 0 where
  pub status : ℕ
  pub body : Text
  pub headers : FormMap

-- Response::success
unfoldable pub success : Response → Bool
success r = leb 200 r.status && ltb r.status 300

pub data Method : Type 0 where
  get post put_method del : Method

-- What the options of curl_easy_setopt say.
pub record HttpRequest : Type 0 where
  pub method : Method
  pub url : Text
  -- CURLOPT_POSTFIELDS
  pub post_data : Option Text
  -- CURLOPT_HTTPHEADER
  pub header_lines : List Text
  pub timeout : ℤ

-- What curl_easy_perform comes to: CURLE_OK with the status code, the body and the header lines that
-- the callbacks got, or an error with curl_easy_strerror's text.
pub data Transfer : Type 0 where
  received : ℕ → Text → List Text → Transfer
  curl_error : Text → Transfer

abbrev leading_slash : Text → Text
leading_slash [] = []
leading_slash (c ∷ s) = if c == b'/' then c ∷ s else b'/' ∷ c ∷ s

-- buildUrl
unfoldable pub build_url : Config → Text → Text
build_url config endpoint = base_url config ++ leading_slash endpoint

add_accept : Option Text → FormMap → FormMap
add_accept none h = put (txt "Accept") (txt "application/json") h
add_accept (some v) h = h

add_authorization : Config → FormMap → FormMap
add_authorization config h =
    if not (is_empty config.access_token)
    then put (txt "Authorization") (txt "Bearer " ++ config.access_token) h
    else h

add_account : Config → FormMap → FormMap
add_account config h =
    if config.sandbox_mode && not (is_empty config.account_number)
    then put (txt "Tradier-Account") config.account_number h
    else h

-- buildHeaders
unfoldable pub build_headers : Config → FormMap → FormMap
unfolding add_accept add_authorization add_account
build_headers config additional =
    let h = add_account config (add_authorization config additional) in
    add_accept (find (txt "Accept") h) h

abbrev pub content_type : FormMap
content_type = (txt "Content-Type", txt "application/x-www-form-urlencoded") ∷ []

abbrev pub header_line : Text × Text → Text
header_line (k, v) = k ++ (txt ": " ++ v)

-- Impl::urlEncode around curl_easy_escape, which is the argument `escape`; `none` is its failure.
escaped : Option Text → Outcome Text
escaped none = throw (Exception.connection (txt "Failed to URL encode value"))
escaped (some t) = ok t

-- The loop that writes the form of a POST or a PUT.
unfoldable pub form_loop : (Text → Option Text) → Bool → Text → FormMap → Outcome Text
unfolding escaped
form_loop escape first text [] = ok text
form_loop escape first text ((key, value) ∷ rest) = do
  k ← escaped (escape key)
  v ← escaped (escape value)
  form_loop escape false ((if first then text else text ++ txt "&") ++ (k ++ (txt "=" ++ v))) rest

unfoldable pub query_url : Text → FormMap → Text
query_url url params =
    if is_empty params then url else url ++ (txt "?" ++ join_params url_encode params)

unfoldable pub with_query : Method → Config → Text → FormMap → Outcome HttpRequest
unfolding query_url
with_query method config endpoint params = ok (record {
  method = method;
  url = query_url (build_url config endpoint) params;
  post_data = none;
  header_lines = map header_line (build_headers config []);
  timeout = config.timeout_seconds;
})

unfoldable pub with_form :
    (Text → Option Text) → Method → Config → Text → FormMap → Outcome HttpRequest
unfolding form_loop
with_form escape method config endpoint params = do
  text ← form_loop escape true (txt "") params
  ok (record {
    method = method;
    url = build_url config endpoint;
    post_data = some text;
    header_lines = map header_line (build_headers config content_type);
    timeout = config.timeout_seconds;
  })

-- performSingleRequest up to curl_easy_perform: parameters go into the URL of a GET or a DELETE and
-- into the form of a POST or a PUT.
unfoldable pub build_request :
    (Text → Option Text) → Method → Config → Text → FormMap → Outcome HttpRequest
unfolding with_query with_form
build_request escape Method.get = with_query Method.get
build_request escape Method.del = with_query Method.del
build_request escape Method.post = with_form escape Method.post
build_request escape Method.put_method = with_form escape Method.put_method

abbrev is_blank : ℕ → Bool
is_blank c = c == 32 || c == 9

abbrev is_line_space : ℕ → Bool
is_line_space c = is_blank c || c == 13 || c == 10

-- s.erase(0, s.find_first_not_of(…)); a text of such characters alone is erased whole.
unfoldable pub trim_left : (ℕ → Bool) → Text → Text
trim_left drop [] = []
trim_left drop (c ∷ s) = let rest = trim_left drop s in if drop c then rest else c ∷ s

-- s.erase(s.find_last_not_of(…) + 1)
unfoldable pub trim_right : (ℕ → Bool) → Text → Text
unfolding trim_left
trim_right drop s = reverse (trim_left drop (reverse s))

unfoldable pub trim : Text → Text
unfolding trim_right
trim s = trim_right is_line_space (trim_left is_blank s)

-- headerCallback
unfoldable pub header_callback : Text → FormMap → FormMap
unfolding trim
header_callback line headers = elim (cut b':' line) [
  | none ↦ headers
  | some (key, value) ↦ put (trim key) (trim value) headers
]

unfoldable pub read_headers : List Text → FormMap → FormMap
unfolding header_callback
read_headers [] headers = headers
read_headers (line ∷ lines) headers = read_headers lines (header_callback line headers)

-- What performSingleRequest makes of curl's answer.
unfoldable pub receive : Transfer → Outcome Response
unfolding read_headers
receive (Transfer.received status body lines) =
    ok (record { status = status; body = body; headers = read_headers lines [] })
receive (Transfer.curl_error message) = throw (Exception.connection (txt "CURL error: " ++ message))

header_callback_test :
    header_callback (txt " X-Ratelimit-Used :  12" ++ 13 ∷ 10 ∷ []) []
    ≡ (txt "X-Ratelimit-Used", txt "12") ∷ []
unfolding header_callback cut put txt
header_callback_test = refl
