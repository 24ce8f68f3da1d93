-- ===== src/Market/Quotes.antt =====
-- Quote of include/tradier/market.hpp, and parseQuote and parseQuotes of src/json/market.cpp. `start`
-- is the field open.
use libtradier.Base.{◌&&◌, not, List, [], Option, none, if◌then◌else◌}
use libtradier.Text.{Text, txt}
use libtradier.Int.{ℤ}
use libtradier.Errors.{Outcome, ok, ◌>>=◌}
use libtradier.Service.{Json}
use libtradier.Validation.{Doubles}
use libtradier.Dates.{Calendar}
use libtradier.Market.Reading.{text_at, double_at, optional_double, moment_at, given, items_under}
use libtradier.Market.Greeks.{Greeks, parse_greeks}

pub record Quote (D : Type 0) : Type 0 where
  pub symbol : Text
  pub description : Text
  pub exchange : Text
  pub type : Text
  pub last : Option D
  pub change : Option D
  pub volume : ℤ
  pub start : Option D
  pub high : Option D
  pub low : Option D
  pub close : Option D
  pub bid : D
  pub ask : D
  pub change_percentage : Option D
  pub average_volume : ℤ
  pub last_volume : ℤ
  pub trade_date : ℤ
  pub timestamp : ℤ
  pub prev_close : Option D
  pub week52_high : D
  pub week52_low : D
  pub bid_size : ℤ
  pub bid_exchange : Text
  pub bid_date : ℤ
  pub ask_size : ℤ
  pub ask_exchange : Text
  pub ask_date : ℤ
  pub root_symbols : Text
  pub underlying : Option Text
  pub strike : Option D
  pub open_interest : Option ℤ
  pub contract_size : Option ℤ
  pub expiration_date : Option Text
  pub expiration_type : Option Text
  pub option_type : Option Text
  pub root_symbol : Option Text
  pub greeks : Option (Greeks D)

-- A default-constructed value; a default time is the epoch.
unfoldable pub no_quote : {D : Type 0} → Doubles D → Quote D
no_quote doubles = record {
  symbol = [];
  description = [];
  exchange = [];
  type = [];
  last = none;
  change = none;
  volume = ℤ.pos 0;
  start = none;
  high = none;
  low = none;
  close = none;
  bid = doubles.whole 0;
  ask = doubles.whole 0;
  change_percentage = none;
  average_volume = ℤ.pos 0;
  last_volume = ℤ.pos 0;
  trade_date = ℤ.pos 0;
  timestamp = ℤ.pos 0;
  prev_close = none;
  week52_high = doubles.whole 0;
  week52_low = doubles.whole 0;
  bid_size = ℤ.pos 0;
  bid_exchange = [];
  bid_date = ℤ.pos 0;
  ask_size = ℤ.pos 0;
  ask_exchange = [];
  ask_date = ℤ.pos 0;
  root_symbols = [];
  underlying = none;
  strike = none;
  open_interest = none;
  contract_size = none;
  expiration_date = none;
  expiration_type = none;
  option_type = none;
  root_symbol = none;
  greeks = none;
}

module _ {J D Tm : Type 0} (lib : Json J D) (doubles : Doubles D) (calendar : Calendar Tm) where
  read_quote : J → Outcome (Quote D)
  unfolding text_at double_at optional_double moment_at given parse_greeks no_quote
  read_quote json = do
    symbol ← text_at lib json (txt "symbol")
    description ← text_at lib json (txt "description")
    exchange ← text_at lib json (txt "exch")
    type ← text_at lib json (txt "type")
    last ← optional_double lib json (txt "last")
    change ← optional_double lib json (txt "change")
    volume ← lib.int_value json (txt "volume") (ℤ.pos 0)
    start ← optional_double lib json (txt "open")
    high ← optional_double lib json (txt "high")
    low ← optional_double lib json (txt "low")
    close ← optional_double lib json (txt "close")
    bid ← double_at lib doubles json (txt "bid")
    ask ← double_at lib doubles json (txt "ask")
    change_percentage ← optional_double lib json (txt "change_percentage")
    average_volume ← lib.int_value json (txt "average_volume") (ℤ.pos 0)
    last_volume ← lib.int_value json (txt "last_volume") (ℤ.pos 0)
    trade_date ← moment_at lib json (txt "trade_date")
    prev_close ← optional_double lib json (txt "prevclose")
    week52_high ← double_at lib doubles json (txt "week_52_high")
    week52_low ← double_at lib doubles json (txt "week_52_low")
    bid_size ← lib.int_value json (txt "bidsize") (ℤ.pos 0)
    bid_exchange ← text_at lib json (txt "bidexch")
    bid_date ← moment_at lib json (txt "bid_date")
    ask_size ← lib.int_value json (txt "asksize") (ℤ.pos 0)
    ask_exchange ← text_at lib json (txt "askexch")
    ask_date ← moment_at lib json (txt "ask_date")
    root_symbols ← text_at lib json (txt "root_symbols")
    underlying ← given lib json (txt "underlying") (text_at lib json (txt "underlying"))
    strike ← given lib json (txt "strike") (double_at lib doubles json (txt "strike"))
    open_interest ←
        given lib json (txt "open_interest") (lib.int_value json (txt "open_interest") (ℤ.pos 0))
    contract_size ←
        given lib json (txt "contract_size") (lib.int_value json (txt "contract_size") (ℤ.pos 100))
    expiration_date ←
        given lib json (txt "expiration_date") (text_at lib json (txt "expiration_date"))
    expiration_type ←
        given lib json (txt "expiration_type") (text_at lib json (txt "expiration_type"))
    option_type ← given lib json (txt "option_type") (text_at lib json (txt "option_type"))
    root_symbol ← given lib json (txt "root_symbol") (text_at lib json (txt "root_symbol"))
    greeks ←
        given lib json (txt "greeks")
          (parse_greeks lib doubles calendar (lib.at json (txt "greeks")))
    ok (record (no_quote doubles) {
      symbol = symbol;
      description = description;
      exchange = exchange;
      type = type;
      last = last;
      change = change;
      volume = volume;
      start = start;
      high = high;
      low = low;
      close = close;
      bid = bid;
      ask = ask;
      change_percentage = change_percentage;
      average_volume = average_volume;
      last_volume = last_volume;
      trade_date = trade_date;
      prev_close = prev_close;
      week52_high = week52_high;
      week52_low = week52_low;
      bid_size = bid_size;
      bid_exchange = bid_exchange;
      bid_date = bid_date;
      ask_size = ask_size;
      ask_exchange = ask_exchange;
      ask_date = ask_date;
      root_symbols = root_symbols;
      underlying = underlying;
      strike = strike;
      open_interest = open_interest;
      contract_size = contract_size;
      expiration_date = expiration_date;
      expiration_type = expiration_type;
      option_type = option_type;
      root_symbol = root_symbol;
      greeks = greeks;
    })

  unfoldable pub parse_quote : J → Outcome (Quote D)
  unfolding read_quote no_quote
  parse_quote json =
      if not (lib.is_null json) && lib.is_object json
      then read_quote json
      else ok (no_quote doubles)

  unfoldable pub parse_quotes : J → Outcome (List (Quote D))
  unfolding items_under parse_quote
  parse_quotes = items_under lib (txt "quotes") (txt "quote") parse_quote
