-- ===== src/Market/History.antt =====
-- HistoricalData, TimeSalesData, Security and their parsers, of include/tradier/market.hpp and
-- src/json/market.cpp. `start` is the field open.
use libtradier.Base.{◌&&◌, not, List, [], if◌then◌else◌}
use libtradier.Text.{Text, txt}
use libtradier.Int.{ℤ}
use libtradier.Errors.{Outcome, ok, ◌>>=◌}
use libtradier.Service.{Json}
use libtradier.Validation.{Doubles}
use libtradier.Market.Reading.{present, text_at, double_at, items_under}

pub record HistoricalData (D : Type 0) : Type 0 where
  pub date : Text
  pub start : D
  pub high : D
  pub low : D
  pub close : D
  pub volume : ℤ

pub record TimeSalesData (D : Type 0) : Type 0 where
  pub time : Text
  pub timestamp : ℤ
  pub price : D
  pub start : D
  pub high : D
  pub low : D
  pub close : D
  pub volume : ℤ
  pub vwap : D

pub record Security : Type 0 where
  pub symbol : Text
  pub exchange : Text
  pub type : Text
  pub description : Text

-- Default-constructed values
unfoldable pub no_history : {D : Type 0} → Doubles D → HistoricalData D
no_history doubles = record {
  date = [];
  start = doubles.whole 0;
  high = doubles.whole 0;
  low = doubles.whole 0;
  close = doubles.whole 0;
  volume = ℤ.pos 0;
}

unfoldable pub no_sales : {D : Type 0} → Doubles D → TimeSalesData D
no_sales doubles = record {
  time = [];
  timestamp = ℤ.pos 0;
  price = doubles.whole 0;
  start = doubles.whole 0;
  high = doubles.whole 0;
  low = doubles.whole 0;
  close = doubles.whole 0;
  volume = ℤ.pos 0;
  vwap = doubles.whole 0;
}

unfoldable pub no_security : Security
no_security = record { symbol = []; exchange = []; type = []; description = [] }

module _ {J D : Type 0} (lib : Json J D) (doubles : Doubles D) where
  read_history : J → Outcome (HistoricalData D)
  unfolding text_at double_at
  read_history json = do
    date ← text_at lib json (txt "date")
    start ← double_at lib doubles json (txt "open")
    high ← double_at lib doubles json (txt "high")
    low ← double_at lib doubles json (txt "low")
    close ← double_at lib doubles json (txt "close")
    volume ← lib.long_value json (txt "volume") (ℤ.pos 0)
    ok (record {
      date = date;
      start = start;
      high = high;
      low = low;
      close = close;
      volume = volume;
    })

  unfoldable pub parse_historical_data : J → Outcome (HistoricalData D)
  unfolding read_history no_history
  parse_historical_data json =
      if not (lib.is_null json) && lib.is_object json
      then read_history json
      else ok (no_history doubles)

  unfoldable pub parse_historical_data_list : J → Outcome (List (HistoricalData D))
  unfolding items_under parse_historical_data
  parse_historical_data_list = items_under lib (txt "history") (txt "day") parse_historical_data

  read_sales : J → Outcome (TimeSalesData D)
  unfolding text_at double_at
  read_sales json = do
    time ← text_at lib json (txt "time")
    timestamp ← lib.long_value json (txt "timestamp") (ℤ.pos 0)
    price ← double_at lib doubles json (txt "price")
    start ← double_at lib doubles json (txt "open")
    high ← double_at lib doubles json (txt "high")
    low ← double_at lib doubles json (txt "low")
    close ← double_at lib doubles json (txt "close")
    volume ← lib.long_value json (txt "volume") (ℤ.pos 0)
    vwap ← double_at lib doubles json (txt "vwap")
    ok (record {
      time = time;
      timestamp = timestamp;
      price = price;
      start = start;
      high = high;
      low = low;
      close = close;
      volume = volume;
      vwap = vwap;
    })

  unfoldable pub parse_time_sales_data : J → Outcome (TimeSalesData D)
  unfolding read_sales no_sales
  parse_time_sales_data json =
      if not (lib.is_null json) && lib.is_object json
      then read_sales json
      else ok (no_sales doubles)

  unfoldable pub parse_time_sales_list : J → Outcome (List (TimeSalesData D))
  unfolding items_under parse_time_sales_data
  parse_time_sales_list = items_under lib (txt "series") (txt "data") parse_time_sales_data

module _ {J D : Type 0} (lib : Json J D) where
  unfoldable pub string_or_empty : J → Text → Outcome Text
  string_or_empty json key =
      if present lib json key && lib.is_string (lib.at json key)
      then lib.get_text (lib.at json key)
      else ok (txt "")

  read_security : J → Outcome Security
  unfolding string_or_empty
  read_security json = do
    symbol ← string_or_empty json (txt "symbol")
    exchange ← string_or_empty json (txt "exchange")
    type ← string_or_empty json (txt "type")
    description ← string_or_empty json (txt "description")
    ok (record { symbol = symbol; exchange = exchange; type = type; description = description })

  unfoldable pub parse_security : J → Outcome Security
  unfolding read_security no_security
  parse_security json =
      if not (lib.is_null json) && lib.is_object json then read_security json else ok no_security

  unfoldable pub parse_securities : J → Outcome (List Security)
  unfolding items_under parse_security
  parse_securities = items_under lib (txt "securities") (txt "security") parse_security
