-- ===== src/Account/Answers.antt =====
-- How the functions of AccountService in src/account.cpp read an answer. `as_json` is the conversion of a SafeJsonParser to
-- nlohmann::json that the calls of the parsers make.
use libtradier.Base.{Bool, true, ◌&&◌, not, List, [], ◌∷◌, ◌++◌, none, if◌then◌else◌}
use libtradier.Text.{Text, txt}
use libtradier.Errors.{Exception, api_error, Outcome, ok, throw, ◌>>=◌}
use libtradier.ApiResult.{ApiResult, try_execute}
use libtradier.FormMap.{FormMap}
use libtradier.Http.{Response, success}
use libtradier.Validation.{Doubles}
use libtradier.Service.{Client, Json, Call, or_throw}
use libtradier.Dates.{Calendar}
use libtradier.SafeJson.{
  SafeJsonParser, holds_key, field_of, safe_value, convert, parse_response_safe, parse_date_time,
}
use libtradier.Market.Reading.{text_at, double_at}
use libtradier.Account.Types.{AccountBalances, HistoryEvent}

-- std::string::operator= of a bool, which takes it for a character
unfoldable pub char_of : Bool → Text
char_of b = if b then 1 ∷ [] else 0 ∷ []

module _ {J D S : Type 0} (lib : Json J D) (client : Client S) where
  unfoldable pub read_safe_answer :
      {A : Type 0} → Call → (SafeJsonParser J → Outcome A) → Response → Outcome A
  unfolding parse_response_safe
  read_safe_answer call parser response =
      if not (success response)
      then throw (Exception.api (api_error response.status (call.failure ++ response.body)))
      else or_throw call.unreadable (parse_response_safe lib response parser)

  unfoldable pub run_safe :
      {A : Type 0} → Call → (SafeJsonParser J → Outcome A) → Outcome FormMap → S → ApiResult A × S
  unfolding read_safe_answer
  run_safe call parser (throw e) s = (try_execute (throw e) call.operation, s)
  run_safe call parser (ok params) s =
      let (answer, s') = client.send call.method call.path params s in
      (try_execute (answer >>= read_safe_answer call parser) call.operation, s')

  -- tryExecute around a function of the service
  unfoldable pub perform_safe :
      {A : Type 0} → Call → (SafeJsonParser J → Outcome A) → S → ApiResult A × S
  unfolding run_safe
  perform_safe call parser = run_safe call parser call.prepare

module _ {J D : Type 0} (lib : Json J D) (as_json : SafeJsonParser J → J) where
  -- What three of the functions do with the object under a key
  unfoldable pub under_key :
      {A : Type 0} → Text → Text → (J → Outcome A) → SafeJsonParser J → Outcome A
  unfolding holds_key field_of
  under_key key message parser p =
      if not (holds_key lib p key)
      then throw (Exception.api (api_error 400 message))
      else parser (as_json (field_of lib p key))

module _ {J D : Type 0} (lib : Json J D) (doubles : Doubles D) where
  -- SafeJsonParser::value(key, 0.0)
  abbrev amount_at : SafeJsonParser J → Text → D
  amount_at p key = safe_value lib lib.get_double p key (doubles.whole 0)

  -- SafeJsonParser::value(key, ""): of the overloads, the one for bool is chosen.
  unfoldable pub literal_value : SafeJsonParser J → Text → Bool
  unfolding safe_value
  literal_value p key = safe_value lib lib.get_bool p key true

  buying_power_of : SafeJsonParser J → D
  unfolding holds_key field_of convert
  buying_power_of balances =
      if holds_key lib balances (txt "margin")
        && holds_key lib (field_of lib balances (txt "margin")) (txt "stock_buying_power")
      then convert lib lib.get_double (doubles.whole 0)
          (field_of lib (field_of lib balances (txt "margin")) (txt "stock_buying_power"))
      else if holds_key lib balances (txt "cash")
          && holds_key lib (field_of lib balances (txt "cash")) (txt "cash_available")
      then convert lib lib.get_double (doubles.whole 0)
          (field_of lib (field_of lib balances (txt "cash")) (txt "cash_available"))
      else doubles.whole 0

  unfoldable pub read_balances : SafeJsonParser J → AccountBalances D
  unfolding safe_value literal_value char_of buying_power_of
  read_balances p = record {
    account_number = char_of (literal_value p (txt "account_number"));
    account_type = char_of (literal_value p (txt "account_type"));
    total_equity = amount_at p (txt "total_equity");
    total_cash = amount_at p (txt "total_cash");
    buying_power = buying_power_of p;
    market_value = amount_at p (txt "market_value");
    day_change = amount_at p (txt "close_pl");
  }

  unfoldable pub parse_balances : SafeJsonParser J → Outcome (AccountBalances D)
  unfolding holds_key field_of read_balances
  parse_balances p =
      if not (holds_key lib p (txt "balances"))
      then throw (Exception.api (api_error 400 (txt "Invalid balances response format")))
      else ok (read_balances (field_of lib p (txt "balances")))

module _ {J D Tm : Type 0} (lib : Json J D) (doubles : Doubles D) (calendar : Calendar Tm)
    (as_json : SafeJsonParser J → J) where
  -- An element of the array of events
  read_event : J → Outcome (HistoryEvent D)
  unfolding text_at double_at parse_date_time
  read_event event = do
    type ← text_at lib event (txt "type")
    amount ← double_at lib doubles event (txt "amount")
    ok (record {
      amount = amount;
      date = parse_date_time lib calendar event (txt "date");
      type = type;
      description = [];
      symbol = none;
    })

  read_events : List J → Outcome (List (HistoryEvent D))
  unfolding read_event
  read_events [] = ok []
  read_events (event ∷ events) = do
    first ← read_event event
    rest ← read_events events
    ok (first ∷ rest)

  -- A single event, which is read through SafeJsonParser
  single_event : SafeJsonParser J → HistoryEvent D
  unfolding literal_value char_of safe_value parse_date_time
  single_event event = record {
    amount = safe_value lib lib.get_double event (txt "amount") (doubles.whole 0);
    date = parse_date_time lib calendar (as_json event) (txt "date");
    type = char_of (literal_value lib doubles event (txt "type"));
    description = [];
    symbol = none;
  }

  events_of : SafeJsonParser J → Outcome (List (HistoryEvent D))
  unfolding read_events single_event
  events_of events =
      if lib.is_array events.json
      then read_events (lib.elements events.json)
      else if lib.is_object events.json
      then ok (single_event events ∷ [])
      else ok []

  unfoldable pub parse_history : SafeJsonParser J → Outcome (List (HistoryEvent D))
  unfolding holds_key field_of events_of
  parse_history p =
      if holds_key lib p (txt "history")
        && holds_key lib (field_of lib p (txt "history")) (txt "event")
      then events_of (field_of lib (field_of lib p (txt "history")) (txt "event"))
      else ok []
