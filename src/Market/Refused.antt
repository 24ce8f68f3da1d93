-- ===== src/Market/Refused.antt =====
-- The functions of src/market.cpp without a symbol, an expiration or a query: nothing is sent.
use libtradier.Base.{◌≡◌, refl, Bool, [], ◌∷◌}
use libtradier.Text.{Text, txt}
use libtradier.Errors.{ApiError, Outcome, throw}
use libtradier.ApiResult.{
  ApiResult, of_error, try_execute, catch_all, validation_error, of_category,
}
use libtradier.Validation.{Doubles, invalid}
use libtradier.Service.{Client, Json, Call, perform}
use libtradier.Service.Laws.{perform-unprepared}
use libtradier.Dates.{Calendar}
use libtradier.Market.Requests.{prepare_expiration}
use libtradier.Market.Calls.{
  get_quotes_call, get_quotes_post_call, get_option_chain_call, get_option_strikes_call,
  get_option_expirations_call, lookup_option_symbols_call, get_historical_data_call,
  get_time_sales_call, search_symbols_call, lookup_symbols_call,
}
use libtradier.Market.Quotes.{parse_quotes}
use libtradier.Market.Chains.{parse_option_chains}
use libtradier.Market.Options.{parse_strikes, parse_expirations, parse_option_symbols}
use libtradier.Market.History.{parse_historical_data_list, parse_time_sales_list, parse_securities}
use libtradier.Market.Actions.{parse_corporate_calendar, parse_dividends, parse_corporate_actions}
use libtradier.Market.Ratios.{parse_financial_ratios}
use libtradier.Market.Statements.{parse_financial_statements}
use libtradier.Market.Prices.{parse_price_statistics}
use libtradier.Market.Operations.{
  get_quotes, get_quotes_post, get_quote, get_option_chain, get_option_strikes,
  get_option_expirations, lookup_option_symbols, get_historical_data, get_time_sales,
  search_symbols, lookup_symbols,
}
use libtradier.Market.Fundamentals.{
  get_company_info, get_corporate_calendar, get_dividends, get_corporate_actions,
  get_financial_ratios, get_financial_statements, get_price_statistics, get_corporate_calendar_call,
  get_dividends_call, get_corporate_actions_call, get_financial_ratios_call,
  get_financial_statements_call, get_price_statistics_call,
}

-- Nothing is sent, and the result is an error with code 0.
abbrev pub Refuses : {A S : Type 0} → S → ApiResult A × S → Type 0
Refuses s r = (r.1 ≡ s) × (e : ApiError) × (r.0 ≡ of_error e) × (e.status_code ≡ 0)

refused :
    {A S : Type 0} (message operation : Text) (s : S)
    → Refuses {A = A} s (try_execute (throw (invalid message)) operation, s)
unfolding try_execute catch_all validation_error of_category
refused message operation s = (refl, _, refl, refl)

-- Without an expiration, whatever the symbol
without_expiration :
    (name symbol : Text) (flag : Bool)
    → (message : Text) × (prepare_expiration name symbol [] flag ≡ throw (invalid message))
unfolding prepare_expiration
without_expiration name [] flag = (_, refl)
without_expiration name (c ∷ symbol) flag = (_, refl)

module _ {J D S : Type 0} (lib : Json J D) (client : Client S) where
  perform-Refuses :
      {A : Type 0} (call : Call) (parser : J → Outcome A) (s : S) (message : Text)
      → call.prepare ≡ throw (invalid message)
      → Refuses s (perform lib client call parser s)
  perform-Refuses {A} call parser s message h =
      rw (perform-unprepared lib client call parser s (invalid message) h)
        (refused {A = A} message call.operation s)

module _ {J D Tm S : Type 0} (lib : Json J D) (doubles : Doubles D) (calendar : Calendar Tm)
    (client : Client S) where
  -- Every function without what it needs
  abbrev pub AllRefuse : Bool → Bool → Bool → Bool → Text → Text → Text → Text → Text → S → Type 0
  AllRefuse a b c d given interval start finish session s =
      Refuses s (get_quotes lib doubles calendar client [] a s)
      × Refuses s (get_quotes_post lib doubles calendar client [] a s)
      × Refuses s (get_quote lib doubles calendar client [] a s)
      × Refuses s (get_option_chain lib doubles calendar client [] given a s)
      × Refuses s (get_option_chain lib doubles calendar client given [] a s)
      × Refuses s (get_option_strikes lib doubles client [] given a s)
      × Refuses s (get_option_strikes lib doubles client given [] a s)
      × Refuses s (get_option_expirations lib doubles client [] a b c d s)
      × Refuses s (lookup_option_symbols lib doubles client [] s)
      × Refuses s (get_historical_data lib doubles client [] interval start finish session s)
      × Refuses s (get_time_sales lib doubles client [] interval start finish session s)
      × Refuses s (search_symbols lib doubles client [] a s)
      × Refuses s (lookup_symbols lib doubles client [] given interval s)
      × Refuses s (get_company_info lib doubles client [] s)
      × Refuses s (get_corporate_calendar lib doubles client [] s)
      × Refuses s (get_dividends lib doubles client [] s)
      × Refuses s (get_corporate_actions lib doubles client [] s)
      × Refuses s (get_financial_ratios lib doubles client [] s)
      × Refuses s (get_financial_statements lib doubles client [] s)
      × Refuses s (get_price_statistics lib doubles client [] s)

  -- An empty list of symbols, an empty symbol, expiration or query is refused by every function that
  -- takes one: nothing is sent, and the result is an error with code 0.
  pub market_calls-refused :
      (a b c d : Bool) (given interval start finish session : Text) (s : S)
      → AllRefuse a b c d given interval start finish session s
  unfolding get_quotes get_quotes_post get_quote get_option_chain get_option_strikes
      get_option_expirations lookup_option_symbols get_historical_data get_time_sales search_symbols
      lookup_symbols get_company_info get_corporate_calendar get_dividends get_corporate_actions
      get_financial_ratios get_financial_statements get_price_statistics validation_error
  market_calls-refused a b c d given interval start finish session s = (
    perform-Refuses lib client (get_quotes_call [] a) (parse_quotes lib doubles calendar) s
        (txt "Symbols list cannot be empty") refl,
    perform-Refuses lib client (get_quotes_post_call [] a) (parse_quotes lib doubles calendar) s
        (txt "Symbols list cannot be empty") refl,
    (refl, _, refl, refl),
    perform-Refuses lib client (get_option_chain_call [] given a)
        (parse_option_chains lib doubles calendar) s (txt "Symbol cannot be empty") refl,
    (let (m, e) = without_expiration (txt "greeks") given a in
        perform-Refuses lib client (get_option_chain_call given [] a)
          (parse_option_chains lib doubles calendar) s m e),
    perform-Refuses lib client (get_option_strikes_call [] given a) (parse_strikes lib) s
        (txt "Symbol cannot be empty") refl,
    (let (m, e) = without_expiration (txt "includeAllRoots") given a in
        perform-Refuses lib client (get_option_strikes_call given [] a) (parse_strikes lib) s m e),
    perform-Refuses lib client (get_option_expirations_call [] a b c d) (parse_expirations lib) s
        (txt "Symbol cannot be empty") refl,
    perform-Refuses lib client (lookup_option_symbols_call []) (parse_option_symbols lib) s
        (txt "Underlying symbol cannot be empty") refl,
    perform-Refuses lib client (get_historical_data_call [] interval start finish session)
        (parse_historical_data_list lib doubles) s (txt "Symbol cannot be empty") refl,
    perform-Refuses lib client (get_time_sales_call [] interval start finish session)
        (parse_time_sales_list lib doubles) s (txt "Symbol cannot be empty") refl,
    perform-Refuses lib client (search_symbols_call [] a) (parse_securities lib) s
        (txt "Search query cannot be empty") refl,
    perform-Refuses lib client (lookup_symbols_call [] given interval) (parse_securities lib) s
        (txt "Search query cannot be empty") refl,
    refused (txt "Symbol cannot be empty") (txt "getCompanyInfo") s,
    perform-Refuses lib client (get_corporate_calendar_call []) (parse_corporate_calendar lib) s
        (txt "Symbol cannot be empty") refl,
    perform-Refuses lib client (get_dividends_call []) (parse_dividends lib doubles) s
        (txt "Symbol cannot be empty") refl,
    perform-Refuses lib client (get_corporate_actions_call []) (parse_corporate_actions lib doubles)
        s (txt "Symbol cannot be empty") refl,
    perform-Refuses lib client (get_financial_ratios_call []) (parse_financial_ratios lib doubles) s
        (txt "Symbol cannot be empty") refl,
    perform-Refuses lib client (get_financial_statements_call [])
        (parse_financial_statements lib doubles) s (txt "Symbol cannot be empty") refl,
    perform-Refuses lib client (get_price_statistics_call []) (parse_price_statistics lib doubles) s
        (txt "Symbol cannot be empty") refl,
  )
