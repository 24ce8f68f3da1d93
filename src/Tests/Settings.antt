-- ===== src/Tests/Settings.antt =====
-- Config::fromEnvironment, the headers and the addresses at concrete settings.
use libtradier.Base.{
  ℕ, ◌≡◌, refl, ◌↔◌, true, false, none, some, [], ◌∷◌, ◌++◌, map, is_empty, if◌then◌else◌, arith,
}
use libtradier.Text.{Text, txt, text_eq}
use libtradier.Int.{ℤ}
use libtradier.Errors.{ok}
use libtradier.FormMap.{FormMap}
use libtradier.Query.{parse_form, join_params, join_loop}
use libtradier.Codec.UrlEncode.{url_encode, encode_byte, is_unreserved, is_alnum, hex_digit}
use libtradier.Config.{Config, Environment, from_environment, base_url, ws_url}
use libtradier.Config.Environments.{IsOff, or_empty, from_environment-credentials}
use libtradier.HttpClient.{http_client}
use libtradier.Client.{TradierClient, tradier_client}
use libtradier.Client.Authorized.{Holds, tradier_client-authorized}
use libtradier.Http.{
  Method, HttpRequest, build_url, build_headers, header_line, build_request, with_query, query_url,
}
use libtradier.Http.Laws.{build_request-parse_form}

abbrev live : Environment
live name =
    if text_eq name (txt "TRADIER_SBX_ENABLE")
    then some (txt "off")
    else if text_eq name (txt "TRADIER_PROD_TOKEN")
    then some (txt "abc")
    else none

from_environment-credentials_example :
    (((from_environment live).sandbox_mode ≡ false)
      ↔ ((s : Text) × (live (txt "TRADIER_SBX_ENABLE") ≡ some s) × IsOff s))
    × ((from_environment live).sandbox_mode ≡ true
        → ((from_environment live).access_token ≡ or_empty (live (txt "TRADIER_SBX_TOKEN")))
          × ((from_environment live).account_number ≡ or_empty (live (txt "TRADIER_SBX_ACCNUM")))
          × (base_url (from_environment live) ≡ txt "https://sandbox.tradier.com/v1")
          × (ws_url (from_environment live) ≡ txt "wss://sandbox.tradier.com/v1"))
    × ((from_environment live).sandbox_mode ≡ false
        → ((from_environment live).access_token ≡ or_empty (live (txt "TRADIER_PROD_TOKEN")))
          × ((from_environment live).account_number ≡ txt "")
          × (base_url (from_environment live) ≡ txt "https://api.tradier.com/v1")
          × (ws_url (from_environment live) ≡ txt "wss://ws.tradier.com/v1"))
from_environment-credentials_example = from_environment-credentials live

abbrev sandbox : Config
sandbox = record {
  access_token = txt "abc";
  account_number = txt "VA1234";
  sandbox_mode = true;
  timeout_seconds = ℤ.pos 30;
}

abbrev symbols : FormMap
symbols = (txt "symbols", txt "AAPL,BRK/B") ∷ []

build_request-parse_form_example :
    (query : Text) × (request : HttpRequest) × (build_request some Method.get sandbox
        (txt "markets/quotes")
        symbols
      ≡ ok request)
    × (request.url ≡ build_url sandbox (txt "markets/quotes") ++ (txt "?" ++ query))
    × (parse_form query ≡ some symbols)
    × (request.post_data ≡ none)
    × (request.header_lines ≡ map header_line (build_headers sandbox []))
unfolding txt
build_request-parse_form_example =
    build_request-parse_form some sandbox (txt "markets/quotes") symbols refl (ground arith)

abbrev sandbox_client : TradierClient ℕ
sandbox_client = record { config = sandbox; http = http_client sandbox 2 60 7 }

abbrev symbols_request : HttpRequest
symbols_request = record {
  method = Method.get;
  url = txt "https://sandbox.tradier.com/v1/markets/quotes?symbols=AAPL%2cBRK%2fB";
  post_data = none;
  header_lines = map header_line (build_headers sandbox []);
  timeout = ℤ.pos 30;
}

tradier_client-authorized_example :
    (is_empty sandbox.access_token ≡ false)
    × Holds
        (header_line (txt "Authorization", txt "Bearer " ++ sandbox.access_token))
        symbols_request.header_lines
unfolding txt tradier_client http_client build_request with_query query_url join_params join_loop
    build_url base_url url_encode encode_byte is_unreserved is_alnum hex_digit
tradier_client-authorized_example =
    tradier_client-authorized sandbox 2 60 7 sandbox_client some Method.get (txt "markets/quotes")
      symbols symbols_request refl refl
