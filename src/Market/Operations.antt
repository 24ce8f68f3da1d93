-- ===== src/Market/Operations.antt =====
-- The functions of MarketService in src/market.cpp on quotes, options, histories and the market.
use libtradier.Base.{Bool, List, [], ◌∷◌, if◌then◌else◌, is_empty, ◌++◌}
use libtradier.Text.{Text, txt}
use libtradier.Errors.{Exception, api_error, Outcome, ok, throw}
use libtradier.ApiResult.{ApiResult, and_then, validation_error}
use libtradier.Service.{Json, Client, perform}
use libtradier.Validation.{Doubles}
use libtradier.Dates.{Calendar}
use libtradier.Market.Quotes.{Quote, parse_quotes}
use libtradier.Market.Chains.{OptionChain, parse_option_chains}
use libtradier.Market.Options.{
  Expiration, OptionSymbol, parse_strikes, parse_expirations, parse_option_symbols,
}
use libtradier.Market.History.{
  HistoricalData, TimeSalesData, Security, parse_historical_data_list, parse_time_sales_list,
  parse_securities,
}
use libtradier.Market.Days.{MarketCalendar, MarketClock, parse_market_calendar, parse_market_clock}
use libtradier.Market.Calls.{
  get_quotes_call, get_quotes_post_call, get_option_chain_call, get_option_strikes_call,
  get_option_expirations_call, lookup_option_symbols_call, get_historical_data_call,
  get_time_sales_call, get_etb_list_call, get_clock_call, get_calendar_call, search_symbols_call,
  lookup_symbols_call,
}

-- MarketService::QuoteRequest; the setters set a field each.
pub record QuoteRequest : Type 0 where
  pub symbols : List Text
  pub greeks : Bool
  pub use_post : Bool

module _ {J D Tm S : Type 0} (lib : Json J D) (doubles : Doubles D) (calendar : Calendar Tm)
    (client : Client S) where
  unfoldable pub get_quotes : List Text → Bool → S → ApiResult (List (Quote D)) × S
  unfolding get_quotes_call parse_quotes
  get_quotes symbols greeks =
      perform lib client (get_quotes_call symbols greeks) (parse_quotes lib doubles calendar)

  unfoldable pub get_quotes_post : List Text → Bool → S → ApiResult (List (Quote D)) × S
  unfolding get_quotes_post_call parse_quotes
  get_quotes_post symbols greeks =
      perform lib client (get_quotes_post_call symbols greeks) (parse_quotes lib doubles calendar)

  unfoldable pub get_option_chain : Text → Text → Bool → S → ApiResult (List (OptionChain D)) × S
  unfolding get_option_chain_call parse_option_chains
  get_option_chain symbol expiration greeks =
      perform lib client (get_option_chain_call symbol expiration greeks)
        (parse_option_chains lib doubles calendar)

  unfoldable pub first_quote : Text → List (Quote D) → Outcome (Quote D)
  first_quote symbol [] =
      throw (Exception.api (api_error 404 (txt "No quote found for symbol: " ++ symbol)))
  first_quote symbol (quote ∷ quotes) = ok quote

  unfoldable pub get_quote : Text → Bool → S → ApiResult (Quote D) × S
  unfolding get_quotes first_quote
  get_quote symbol greeks s =
      if is_empty symbol
      then (validation_error (txt "Symbol cannot be empty"), s)
      else (let (quotes, s') = get_quotes (symbol ∷ []) greeks s in
          (and_then quotes (first_quote symbol), s'))

  -- QuoteRequest::execute
  unfoldable pub execute : QuoteRequest → S → ApiResult (List (Quote D)) × S
  unfolding get_quotes get_quotes_post
  execute request =
      if request.use_post
      then get_quotes_post request.symbols request.greeks
      else get_quotes request.symbols request.greeks

module _ {J D S : Type 0} (lib : Json J D) (doubles : Doubles D) (client : Client S) where
  unfoldable pub get_option_strikes : Text → Text → Bool → S → ApiResult (List D) × S
  unfolding get_option_strikes_call parse_strikes
  get_option_strikes symbol expiration include_all_roots =
      perform lib client (get_option_strikes_call symbol expiration include_all_roots)
        (parse_strikes lib)

  unfoldable pub get_option_expirations :
      Text → Bool → Bool → Bool → Bool → S → ApiResult (List (Expiration D)) × S
  unfolding get_option_expirations_call parse_expirations
  get_option_expirations symbol include_all_roots strikes contract_size expiration_type =
      perform lib client
        (get_option_expirations_call symbol include_all_roots strikes contract_size expiration_type)
        (parse_expirations lib)

  unfoldable pub lookup_option_symbols : Text → S → ApiResult (List OptionSymbol) × S
  unfolding lookup_option_symbols_call parse_option_symbols
  lookup_option_symbols underlying =
      perform lib client (lookup_option_symbols_call underlying) (parse_option_symbols lib)

  unfoldable pub get_historical_data :
      Text → Text → Text → Text → Text → S → ApiResult (List (HistoricalData D)) × S
  unfolding get_historical_data_call parse_historical_data_list
  get_historical_data symbol interval start finish session_filter =
      perform lib client (get_historical_data_call symbol interval start finish session_filter)
        (parse_historical_data_list lib doubles)

  unfoldable pub get_time_sales :
      Text → Text → Text → Text → Text → S → ApiResult (List (TimeSalesData D)) × S
  unfolding get_time_sales_call parse_time_sales_list
  get_time_sales symbol interval start finish session_filter =
      perform lib client (get_time_sales_call symbol interval start finish session_filter)
        (parse_time_sales_list lib doubles)

  unfoldable pub get_etb_list : S → ApiResult (List Security) × S
  unfolding get_etb_list_call parse_securities
  get_etb_list = perform lib client get_etb_list_call (parse_securities lib)

  unfoldable pub get_clock : Bool → S → ApiResult MarketClock × S
  unfolding get_clock_call parse_market_clock
  get_clock delayed = perform lib client (get_clock_call delayed) (parse_market_clock lib)

  unfoldable pub get_calendar : Text → Text → S → ApiResult MarketCalendar × S
  unfolding get_calendar_call parse_market_calendar
  get_calendar month year =
      perform lib client (get_calendar_call month year) (parse_market_calendar lib)

  unfoldable pub search_symbols : Text → Bool → S → ApiResult (List Security) × S
  unfolding search_symbols_call parse_securities
  search_symbols query indexes =
      perform lib client (search_symbols_call query indexes) (parse_securities lib)

  unfoldable pub lookup_symbols : Text → Text → Text → S → ApiResult (List Security) × S
  unfolding lookup_symbols_call parse_securities
  lookup_symbols query exchanges types =
      perform lib client (lookup_symbols_call query exchanges types) (parse_securities lib)
