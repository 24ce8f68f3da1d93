-- ===== src/Market/Calls.antt =====
-- What the functions of src/market.cpp ask of the client.
use libtradier.Base.{Bool, List, [], if◌then◌else◌}
use libtradier.Text.{Text, txt}
use libtradier.Errors.{Exception, ok, ◌>>◌}
use libtradier.FormMap.{put}
use libtradier.Http.{Method}
use libtradier.Service.{Call}
use libtradier.Market.Requests.{
  require, require_symbol, prepare_quotes, prepare_expiration, expirations_form, prepare_range,
  calendar_form, search_form, lookup_form, prepare_query,
}

unfoldable pub get_quotes_call : List Text → Bool → Call
unfolding prepare_quotes
get_quotes_call symbols greeks = record {
  method = Method.get;
  path = txt "/markets/quotes";
  prepare = prepare_quotes symbols greeks;
  failure = txt "Failed to get quotes: ";
  unreadable = Exception.standard (txt "Failed to parse quotes response");
  operation = txt "getQuotes";
}

unfoldable pub get_quotes_post_call : List Text → Bool → Call
unfolding prepare_quotes
get_quotes_post_call symbols greeks = record {
  method = Method.post;
  path = txt "/markets/quotes";
  prepare = prepare_quotes symbols greeks;
  failure = txt "Failed to get quotes via POST: ";
  unreadable = Exception.standard (txt "Failed to parse quotes POST response");
  operation = txt "getQuotesPost";
}

unfoldable pub get_option_chain_call : Text → Text → Bool → Call
unfolding prepare_expiration
get_option_chain_call symbol expiration greeks = record {
  method = Method.get;
  path = txt "/markets/options/chains";
  prepare = prepare_expiration (txt "greeks") symbol expiration greeks;
  failure = txt "Failed to get option chain: ";
  unreadable = Exception.standard (txt "Failed to parse option chain response");
  operation = txt "getOptionChain";
}

unfoldable pub get_option_strikes_call : Text → Text → Bool → Call
unfolding prepare_expiration
get_option_strikes_call symbol expiration include_all_roots = record {
  method = Method.get;
  path = txt "/markets/options/strikes";
  prepare = prepare_expiration (txt "includeAllRoots") symbol expiration include_all_roots;
  failure = txt "Failed to get option strikes: ";
  unreadable = Exception.standard (txt "Failed to parse option strikes response");
  operation = txt "getOptionStrikes";
}

unfoldable pub get_option_expirations_call : Text → Bool → Bool → Bool → Bool → Call
unfolding expirations_form
get_option_expirations_call symbol include_all_roots strikes contract_size expiration_type =
    record {
      method = Method.get;
      path = txt "/markets/options/expirations";
      prepare =
          require_symbol symbol
          >> ok (expirations_form symbol include_all_roots strikes contract_size expiration_type);
      failure = txt "Failed to get option expirations: ";
      unreadable = Exception.standard (txt "Failed to parse option expirations response");
      operation = txt "getOptionExpirations";
    }

unfoldable pub lookup_option_symbols_call : Text → Call
lookup_option_symbols_call underlying = record {
  method = Method.get;
  path = txt "/markets/options/lookup";
  prepare =
      require underlying (txt "Underlying symbol cannot be empty")
      >> ok (put (txt "underlying") underlying []);
  failure = txt "Failed to lookup option symbols: ";
  unreadable = Exception.standard (txt "Failed to parse option symbols response");
  operation = txt "lookupOptionSymbols";
}

unfoldable pub get_historical_data_call : Text → Text → Text → Text → Text → Call
unfolding prepare_range
get_historical_data_call symbol interval start finish session_filter = record {
  method = Method.get;
  path = txt "/markets/history";
  prepare = prepare_range symbol interval start finish session_filter;
  failure = txt "Failed to get historical data: ";
  unreadable = Exception.standard (txt "Failed to parse historical data response");
  operation = txt "getHistoricalData";
}

unfoldable pub get_time_sales_call : Text → Text → Text → Text → Text → Call
unfolding prepare_range
get_time_sales_call symbol interval start finish session_filter = record {
  method = Method.get;
  path = txt "/markets/timesales";
  prepare = prepare_range symbol interval start finish session_filter;
  failure = txt "Failed to get time sales data: ";
  unreadable = Exception.standard (txt "Failed to parse time sales response");
  operation = txt "getTimeSales";
}

unfoldable pub get_etb_list_call : Call
get_etb_list_call = record {
  method = Method.get;
  path = txt "/markets/etb";
  prepare = ok [];
  failure = txt "Failed to get ETB list: ";
  unreadable = Exception.standard (txt "Failed to parse ETB list response");
  operation = txt "getETBList";
}

unfoldable pub get_clock_call : Bool → Call
get_clock_call delayed = record {
  method = Method.get;
  path = txt "/markets/clock";
  prepare = ok (if delayed then put (txt "delayed") (txt "true") [] else []);
  failure = txt "Failed to get market clock: ";
  unreadable = Exception.standard (txt "Failed to parse market clock response");
  operation = txt "getClock";
}

unfoldable pub get_calendar_call : Text → Text → Call
unfolding calendar_form
get_calendar_call month year = record {
  method = Method.get;
  path = txt "/markets/calendar";
  prepare = ok (calendar_form month year);
  failure = txt "Failed to get market calendar: ";
  unreadable = Exception.standard (txt "Failed to parse market calendar response");
  operation = txt "getCalendar";
}

unfoldable pub search_symbols_call : Text → Bool → Call
unfolding prepare_query search_form
search_symbols_call query indexes = record {
  method = Method.get;
  path = txt "/markets/search";
  prepare = prepare_query query (search_form query indexes);
  failure = txt "Failed to search symbols: ";
  unreadable = Exception.standard (txt "Failed to parse symbol search response");
  operation = txt "searchSymbols";
}

unfoldable pub lookup_symbols_call : Text → Text → Text → Call
unfolding lookup_form prepare_query
lookup_symbols_call query exchanges types = record {
  method = Method.get;
  path = txt "/markets/lookup";
  prepare = prepare_query query (lookup_form query exchanges types);
  failure = txt "Failed to lookup symbols: ";
  unreadable = Exception.standard (txt "Failed to parse symbol lookup response");
  operation = txt "lookupSymbols";
}
