-- ===== src/Market/Fundamentals.antt =====
-- The functions of MarketService in src/market.cpp on the fundamentals of a company.
use libtradier.Base.{List, if◌then◌else◌, ◌&&◌, not, ◌==◌}
use libtradier.Text.{Text, txt}
use libtradier.Errors.{Exception, api_error, Outcome, ok, throw, ◌>>=◌}
use libtradier.FormMap.{FormMap}
use libtradier.Http.{Method, Response, success}
use libtradier.ApiResult.{ApiResult, try_execute}
use libtradier.Service.{Json, Client, Call, perform, read_answer}
use libtradier.Validation.{Doubles}
use libtradier.Market.Requests.{prepare_fundamentals}
use libtradier.Market.Company.{CompanyFundamentals, parse_company_fundamentals}
use libtradier.Market.Actions.{
  CorporateCalendarEvent, Dividend, CorporateActions, parse_corporate_calendar, parse_dividends,
  parse_corporate_actions,
}
use libtradier.Market.Ratios.{FinancialRatios, parse_financial_ratios}
use libtradier.Market.Statements.{FinancialStatement, parse_financial_statements}
use libtradier.Market.Prices.{PriceStatistics, parse_price_statistics}

unfoldable pub get_company_info_call : Text → Call
unfolding prepare_fundamentals
get_company_info_call symbol = record {
  method = Method.get;
  path = txt "/beta/markets/fundamentals/company";
  prepare = prepare_fundamentals symbol;
  failure = txt "Failed to get company info: ";
  unreadable = Exception.standard (txt "Failed to parse company fundamentals response");
  operation = txt "getCompanyInfo";
}

unfoldable pub get_corporate_calendar_call : Text → Call
unfolding prepare_fundamentals
get_corporate_calendar_call symbol = record {
  method = Method.get;
  path = txt "/beta/markets/fundamentals/calendars";
  prepare = prepare_fundamentals symbol;
  failure = txt "Failed to get corporate calendar: ";
  unreadable = Exception.standard (txt "Failed to parse corporate calendar response");
  operation = txt "getCorporateCalendar";
}

unfoldable pub get_dividends_call : Text → Call
unfolding prepare_fundamentals
get_dividends_call symbol = record {
  method = Method.get;
  path = txt "/beta/markets/fundamentals/dividends";
  prepare = prepare_fundamentals symbol;
  failure = txt "Failed to get dividends: ";
  unreadable = Exception.standard (txt "Failed to parse dividends response");
  operation = txt "getDividends";
}

unfoldable pub get_corporate_actions_call : Text → Call
unfolding prepare_fundamentals
get_corporate_actions_call symbol = record {
  method = Method.get;
  path = txt "/beta/markets/fundamentals/corporate_actions";
  prepare = prepare_fundamentals symbol;
  failure = txt "Failed to get corporate actions: ";
  unreadable = Exception.standard (txt "Failed to parse corporate actions response");
  operation = txt "getCorporateActions";
}

unfoldable pub get_financial_ratios_call : Text → Call
unfolding prepare_fundamentals
get_financial_ratios_call symbol = record {
  method = Method.get;
  path = txt "/beta/markets/fundamentals/ratios";
  prepare = prepare_fundamentals symbol;
  failure = txt "Failed to get financial ratios: ";
  unreadable = Exception.standard (txt "Failed to parse financial ratios response");
  operation = txt "getFinancialRatios";
}

unfoldable pub get_financial_statements_call : Text → Call
unfolding prepare_fundamentals
get_financial_statements_call symbol = record {
  method = Method.get;
  path = txt "/beta/markets/fundamentals/financials";
  prepare = prepare_fundamentals symbol;
  failure = txt "Failed to get financial statements: ";
  unreadable = Exception.standard (txt "Failed to parse financial statements response");
  operation = txt "getFinancialStatements";
}

unfoldable pub get_price_statistics_call : Text → Call
unfolding prepare_fundamentals
get_price_statistics_call symbol = record {
  method = Method.get;
  path = txt "/beta/markets/fundamentals/statistics";
  prepare = prepare_fundamentals symbol;
  failure = txt "Failed to get price statistics: ";
  unreadable = Exception.standard (txt "Failed to parse price statistics response");
  operation = txt "getPriceStatistics";
}

module _ {J D S : Type 0} (lib : Json J D) (doubles : Doubles D) (client : Client S) where
  read_company_answer : Text → Response → Outcome (CompanyFundamentals D)
  unfolding read_answer parse_company_fundamentals
  read_company_answer symbol response =
      if not (success response) && response.status == 302
      then throw (
          Exception.api
            (api_error 302 (txt "Company fundamentals endpoint redirected - feature unavailable")))
      else read_answer lib client (get_company_info_call symbol)
          (parse_company_fundamentals lib doubles) response

  -- The body of getCompanyInfo, after its check
  company_info : Text → Outcome FormMap → S → ApiResult (CompanyFundamentals D) × S
  unfolding read_company_answer
  company_info symbol (throw e) s = (try_execute (throw e) (txt "getCompanyInfo"), s)
  company_info symbol (ok params) s =
      let (answer, s') =
        client.send Method.get (txt "/beta/markets/fundamentals/company") params s in
      (try_execute (answer >>= read_company_answer symbol) (txt "getCompanyInfo"), s')

  unfoldable pub get_company_info : Text → S → ApiResult (CompanyFundamentals D) × S
  unfolding company_info prepare_fundamentals
  get_company_info symbol = company_info symbol (prepare_fundamentals symbol)

  unfoldable pub get_corporate_calendar : Text → S → ApiResult (List CorporateCalendarEvent) × S
  unfolding get_corporate_calendar_call parse_corporate_calendar
  get_corporate_calendar symbol =
      perform lib client (get_corporate_calendar_call symbol) (parse_corporate_calendar lib)

  unfoldable pub get_dividends : Text → S → ApiResult (List (Dividend D)) × S
  unfolding get_dividends_call parse_dividends
  get_dividends symbol =
      perform lib client (get_dividends_call symbol) (parse_dividends lib doubles)

  unfoldable pub get_corporate_actions : Text → S → ApiResult (CorporateActions D) × S
  unfolding get_corporate_actions_call parse_corporate_actions
  get_corporate_actions symbol =
      perform lib client (get_corporate_actions_call symbol) (parse_corporate_actions lib doubles)

  unfoldable pub get_financial_ratios : Text → S → ApiResult (List (FinancialRatios D)) × S
  unfolding get_financial_ratios_call parse_financial_ratios
  get_financial_ratios symbol =
      perform lib client (get_financial_ratios_call symbol) (parse_financial_ratios lib doubles)

  unfoldable pub get_financial_statements : Text → S → ApiResult (FinancialStatement D) × S
  unfolding get_financial_statements_call parse_financial_statements
  get_financial_statements symbol =
      perform lib client (get_financial_statements_call symbol)
        (parse_financial_statements lib doubles)

  unfoldable pub get_price_statistics : Text → S → ApiResult (PriceStatistics D) × S
  unfolding get_price_statistics_call parse_price_statistics
  get_price_statistics symbol =
      perform lib client (get_price_statistics_call symbol) (parse_price_statistics lib doubles)
