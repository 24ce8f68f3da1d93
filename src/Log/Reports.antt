-- ===== src/Log/Reports.antt =====
-- The functions of src/common/debug.cpp that write several lines. The steps of such a function are
-- values of `Action`; a file that cannot be opened makes saveResponseToFile return as well, since it
-- catches what ScopedFileLogger throws.
use libtradier.Base.{
  ℕ, ◌+◌, Bool, ◌&&◌, ◌||◌, not, List, [], ◌∷◌, ◌++◌, Option, none, some, ltb, ◌==◌, if◌then◌else◌,
  is_empty, length, take, map,
}
use libtradier.Text.{Text, txt, text_eq, decimal}
use libtradier.FormMap.{FormMap}
use libtradier.Http.{Response}
use libtradier.Log.{Level, debug, error, info, Logger, Stamp, log}
use libtradier.Streaming.Session.{contains_text}

-- A message to the logger, or a file that gets a text behind the date
pub data Action : Type 0 where
  message : Level → Text → Action
  save : Text → Text → Action

-- What is written: a line on std::cerr, or a text into a file
pub data Written : Type 0 where
  line : Text → Written
  file : Text → Text → Written

abbrev pub debugs : List Text → List Action
debugs [] = []
debugs (text ∷ texts) = message debug text ∷ debugs texts

abbrev pub errors : List Text → List Action
errors [] = []
errors (text ∷ texts) = message error text ∷ errors texts

-- `opens` says which files can be opened for appending, `stamps` is the stamp of each step.
module _ (opens : Text → Bool) (stamps : ℕ → Stamp) where
  -- saveResponseToFile, and a call of the logger
  unfoldable pub perform_action : Action → ℕ → Logger → Logger × List Written
  perform_action (message level text) n logger =
      let (logger', lines) = log level text (stamps n) logger in (logger', map line lines)
  perform_action (save name text) n logger =
      (logger, if opens name then file name text ∷ [] else [])

  unfoldable pub perform_actions : List Action → ℕ → Logger → Logger × List Written
  unfolding perform_action
  perform_actions [] n logger = (logger, [])
  perform_actions (action ∷ actions) n logger =
      let (logger', now) = perform_action action n logger in
      let (logger'', later) = perform_actions actions (n + 1) logger' in (logger'', now ++ later)

unfoldable pub log_thread_info : Text → Text → Text → List Action
log_thread_info thread operation details = debugs (
    (txt "Thread["
      ++ (thread
          ++ (txt "] " ++ (operation ++ (if is_empty details then [] else txt ": " ++ details)))))
    ∷ [])

unfoldable pub log_performance_metric : Text → ℕ → List Action
log_performance_metric operation millis =
    message info (txt "PERF: " ++ (operation ++ (txt " took " ++ (decimal millis ++ txt "ms"))))
    ∷ []

abbrev pub header_text : Text → Text → Text
header_text key value = txt "  " ++ (key ++ (txt ": " ++ value))

-- A header of a request; a token is cut after 12 characters.
unfoldable pub request_header : Text → Text → Text
request_header key value =
    if text_eq key (txt "Authorization")
    then header_text key (take 12 value ++ txt "...")
    else header_text key value

unfoldable pub request_headers : FormMap → List Text
unfolding request_header
request_headers [] = []
request_headers ((key, value) ∷ headers) = request_header key value ∷ request_headers headers

unfoldable pub log_http_request : Text → Text → FormMap → Text → List Action
unfolding request_headers
log_http_request method url headers body = debugs (
    (txt "=== HTTP REQUEST ===")
      ∷ (txt "Method: " ++ method)
      ∷ (txt "URL: " ++ url)
      ∷ (txt "Headers:")
      ∷ []
    ++ (request_headers headers
        ++ ((if is_empty body then [] else (txt "Body: " ++ body) ∷ [])
            ++ (txt "=== END REQUEST ===") ∷ [])))

unfoldable pub response_headers : FormMap → List Text
response_headers [] = []
response_headers ((key, value) ∷ headers) = header_text key value ∷ response_headers headers

unfoldable pub body_preview : Text → Text
body_preview body = take 200 body ++ (if ltb 200 (length body) then txt "..." else [])

-- What logHttpResponse saves; `seconds` is the system clock.
unfoldable pub saved_response : ℕ → Response → Bool → List Action
saved_response seconds response save_to_file =
    let name =
      txt "debug_response_"
      ++ (decimal response.status ++ (txt "_" ++ (decimal seconds ++ txt ".html"))) in
    if save_to_file && not (response.status == 200)
    then save name response.body ∷ message debug (txt "Full response saved to: " ++ name) ∷ []
    else []

unfoldable pub log_http_response : ℕ → Text → Response → Bool → List Action
unfolding response_headers body_preview saved_response
log_http_response seconds endpoint response save_to_file =
    debugs (
      (txt "=== HTTP RESPONSE ===")
        ∷ (txt "Endpoint: " ++ endpoint)
        ∷ (txt "Status: " ++ decimal response.status)
        ∷ (txt "Response Headers:")
        ∷ []
      ++ (response_headers response.headers
          ++ (txt "Body Preview: " ++ body_preview response.body) ∷ []))
    ++ (saved_response seconds response save_to_file ++ debugs ((txt "=== END RESPONSE ===") ∷ []))

abbrev pub error_status : Option Response → List Text
error_status none = []
error_status (some response) =
    (txt "HTTP Status: " ++ decimal response.status)
    ∷ (txt "Response Body Preview: " ++ take 300 response.body)
    ∷ []

unfoldable pub log_api_error : Text → Text → Option Response → List Action
log_api_error operation cause response = errors (
    (txt "=== API ERROR ===") ∷ (txt "Operation: " ++ operation) ∷ (txt "Error: " ++ cause) ∷ []
    ++ (error_status response ++ (txt "=== END API ERROR ===") ∷ []))

unfoldable pub html_report : Text → List Action
html_report body =
    if contains_text (txt "<html") body || contains_text (txt "<!DOCTYPE") body
    then errors (
        (txt "*** Response appears to be HTML instead of JSON! ***")
        ∷ (txt "*** This usually indicates authentication failure ***")
        ∷ [])
      ++ save (txt "json_parse_error_response.html") body
        ∷ message error (txt "Full HTML response saved to: json_parse_error_response.html")
        ∷ []
    else []

unfoldable pub log_json_parse_error : Text → Text → Text → List Action
unfolding html_report
log_json_parse_error operation json_error body =
    errors (
      (txt "=== JSON PARSE ERROR ===")
      ∷ (txt "Operation: " ++ operation)
      ∷ (txt "JSON Error: " ++ json_error)
      ∷ (txt "Response Body (first 500 chars):")
      ∷ take 500 body
      ∷ [])
    ++ (html_report body ++ errors ((txt "=== END JSON PARSE ERROR ===") ∷ []))
