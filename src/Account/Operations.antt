-- ===== src/Account/Operations.antt =====
-- The functions of AccountService in src/account.cpp.
use libtradier.Base.{List, [], ◌++◌}
use libtradier.Text.{Text, txt}
use libtradier.Int.{ℤ, to_text}
use libtradier.Errors.{Exception, Outcome, ok, ◌>>◌}
use libtradier.ApiResult.{ApiResult}
use libtradier.FormMap.{FormMap}
use libtradier.Http.{Method}
use libtradier.Validation.{Doubles}
use libtradier.Service.{Client, Json, Call}
use libtradier.Dates.{Calendar}
use libtradier.SafeJson.{SafeJsonParser}
use libtradier.Market.Requests.{require, put_given}
use libtradier.Account.Types.{
  Account, AccountProfile, Position, Order, AccountBalances, HistoryEvent,
}
use libtradier.Account.Parsers.{
  parse_account, parse_account_profile, parse_positions, parse_order, parse_orders,
}
use libtradier.Account.Answers.{perform_safe, under_key, parse_balances, parse_history}

abbrev account_path : Text → Text → Text
account_path number rest = txt "/accounts/" ++ (number ++ rest)

abbrev get_call : Text → Outcome FormMap → Text → Text → Text → Call
get_call path prepare failure unreadable operation = record {
  method = Method.get;
  path = path;
  prepare = prepare;
  failure = failure;
  unreadable = Exception.standard unreadable;
  operation = operation;
}

unfoldable pub get_profile_call : Call
get_profile_call =
    get_call (txt "/user/profile") (ok []) (txt "Failed to get profile: ")
      (txt "Failed to parse profile response") (txt "getProfile")

unfoldable pub get_account_call : Text → Call
get_account_call number =
    get_call (account_path number (txt ""))
      (require number (txt "Account number cannot be empty") >> ok [])
      (txt "Failed to get account: ") (txt "Failed to parse account response") (txt "getAccount")

unfoldable pub get_balances_call : Text → Call
get_balances_call number =
    get_call (account_path number (txt "/balances")) (ok []) (txt "Failed to get balances: ")
      (txt "Failed to parse balances response") (txt "getBalances")

unfoldable pub get_positions_call : Text → Call
get_positions_call number =
    get_call (account_path number (txt "/positions")) (ok []) (txt "Failed to get positions: ")
      (txt "Failed to parse positions response") (txt "getPositions")

unfoldable pub get_orders_call : Text → Call
get_orders_call number =
    get_call (account_path number (txt "/orders")) (ok []) (txt "Failed to get orders: ")
      (txt "Failed to parse orders response") (txt "getOrders")

unfoldable pub get_order_call : Text → ℤ → Call
unfolding to_text
get_order_call number order_id =
    get_call (account_path number (txt "/orders/" ++ to_text order_id)) (ok [])
      (txt "Failed to get order: ") (txt "Failed to parse order response") (txt "getOrder")

unfoldable pub get_history_call : Text → Text → Text → Call
get_history_call number start_date end_date =
    get_call (account_path number (txt "/history"))
      (ok (put_given (txt "end") end_date (put_given (txt "start") start_date [])))
      (txt "Failed to get history: ") (txt "Failed to parse history response") (txt "getHistory")

module _ {J D Tm S : Type 0} (lib : Json J D) (doubles : Doubles D) (calendar : Calendar Tm)
    (as_json : SafeJsonParser J → J) (client : Client S) where
  unfoldable pub get_profile : S → ApiResult AccountProfile × S
  unfolding get_profile_call perform_safe under_key parse_account_profile
  get_profile = perform_safe lib client (get_profile_call) (
      under_key lib as_json (txt "profile") (txt "Invalid profile response format")
        (parse_account_profile lib doubles calendar))

  unfoldable pub get_account : Text → S → ApiResult Account × S
  unfolding get_account_call perform_safe under_key parse_account
  get_account number = perform_safe lib client (get_account_call number) (
      under_key lib as_json (txt "account") (txt "Invalid account response format")
        (parse_account lib doubles calendar))

  unfoldable pub get_balances : Text → S → ApiResult (AccountBalances D) × S
  unfolding get_balances_call perform_safe parse_balances
  get_balances number =
      perform_safe lib client (get_balances_call number) (parse_balances lib doubles)

  unfoldable pub get_positions : Text → S → ApiResult (List (Position D)) × S
  unfolding get_positions_call perform_safe parse_positions
  get_positions number =
      perform_safe lib client (get_positions_call number)
        (λ p. parse_positions lib doubles calendar (as_json p))

  unfoldable pub get_orders : Text → S → ApiResult (List (Order D)) × S
  unfolding get_orders_call perform_safe parse_orders
  get_orders number =
      perform_safe lib client (get_orders_call number)
        (λ p. parse_orders lib doubles calendar (as_json p))

  unfoldable pub get_order : Text → ℤ → S → ApiResult (Order D) × S
  unfolding get_order_call perform_safe under_key parse_order to_text
  get_order number order_id = perform_safe lib client (get_order_call number order_id) (
      under_key lib as_json (txt "order") (txt "Invalid order response format")
        (parse_order lib doubles calendar))

  unfoldable pub get_history : Text → Text → Text → S → ApiResult (List (HistoryEvent D)) × S
  unfolding get_history_call perform_safe parse_history
  get_history number start_date end_date =
      perform_safe lib client (get_history_call number start_date end_date)
        (parse_history lib doubles calendar as_json)
