-- ===== src/Market/Requests.antt =====
-- The parameters of the functions of src/market.cpp.
use libtradier.Base.{Bool, List, [], if◌then◌else◌, is_empty}
use libtradier.Text.{Text, txt}
use libtradier.Errors.{Outcome, ok, ◌>>◌, throw_if}
use libtradier.FormMap.{FormMap, put}
use libtradier.Query.{joined}
use libtradier.Validation.{invalid}

abbrev pub flag_text : Bool → Text
flag_text b = if b then txt "true" else txt "false"

-- if (value.empty()) throw ValidationError(message);
abbrev pub require : Text → Text → Outcome (Unit {0})
require value message = throw_if (is_empty value) (invalid message)

abbrev pub require_symbol : Text → Outcome (Unit {0})
require_symbol symbol = require symbol (txt "Symbol cannot be empty")

-- if (!value.empty()) params[key] = value;
abbrev pub put_given : Text → Text → FormMap → FormMap
put_given key value form = if is_empty value then form else put key value form

-- getQuotes and getQuotesPost
unfoldable pub quotes_form : List Text → Bool → FormMap
unfolding joined
quotes_form symbols greeks =
    put (txt "greeks") (flag_text greeks) (put (txt "symbols") (joined b',' symbols) [])

unfoldable pub prepare_quotes : List Text → Bool → Outcome FormMap
unfolding quotes_form
prepare_quotes symbols greeks =
    throw_if (is_empty symbols) (invalid (txt "Symbols list cannot be empty"))
    >> ok (quotes_form symbols greeks)

-- getOptionChain and getOptionStrikes, which name their flag differently
unfoldable pub expiration_form : Text → Text → Text → Bool → FormMap
expiration_form name symbol expiration flag =
    put name (flag_text flag) (put (txt "expiration") expiration (put (txt "symbol") symbol []))

unfoldable pub prepare_expiration : Text → Text → Text → Bool → Outcome FormMap
unfolding expiration_form
prepare_expiration name symbol expiration flag =
    require_symbol symbol
    >> (require expiration (txt "Expiration date cannot be empty")
        >> ok (expiration_form name symbol expiration flag))

-- getOptionExpirations
unfoldable pub expirations_form : Text → Bool → Bool → Bool → Bool → FormMap
expirations_form symbol all_roots strikes contract_size expiration_type =
    put (txt "expirationType") (flag_text expiration_type) (
      put (txt "contractSize") (flag_text contract_size) (
        put (txt "strikes") (flag_text strikes)
          (put (txt "includeAllRoots") (flag_text all_roots) (put (txt "symbol") symbol []))))

-- getHistoricalData and getTimeSales
unfoldable pub range_form : Text → Text → Text → Text → Text → FormMap
range_form symbol interval start finish session_filter = put_given (txt "end") finish (
    put_given (txt "start") start (
      put (txt "session_filter") session_filter
        (put (txt "interval") interval (put (txt "symbol") symbol []))))

unfoldable pub prepare_range : Text → Text → Text → Text → Text → Outcome FormMap
unfolding range_form
prepare_range symbol interval start finish session_filter =
    require_symbol symbol >> ok (range_form symbol interval start finish session_filter)

-- getCalendar
unfoldable pub calendar_form : Text → Text → FormMap
calendar_form month year = put_given (txt "year") year (put_given (txt "month") month [])

-- searchSymbols
unfoldable pub search_form : Text → Bool → FormMap
search_form query indexes = put (txt "indexes") (flag_text indexes) (put (txt "q") query [])

-- lookupSymbols
unfoldable pub lookup_form : Text → Text → Text → FormMap
lookup_form query exchanges types =
    put_given (txt "types") types (put_given (txt "exchanges") exchanges (put (txt "q") query []))

unfoldable pub prepare_query : Text → FormMap → Outcome FormMap
prepare_query query form = require query (txt "Search query cannot be empty") >> ok form

-- The functions on the fundamentals
unfoldable pub prepare_fundamentals : Text → Outcome FormMap
prepare_fundamentals symbol = require_symbol symbol >> ok (put (txt "symbols") symbol [])
