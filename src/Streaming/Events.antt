-- ===== src/Streaming/Events.antt =====
-- The events of include/tradier/streaming.hpp, and how processEvent of src/streaming.cpp reads them
-- from a message.
use libtradier.Base.{Bool, false, ◌||◌, not, if◌then◌else◌, is_empty}
use libtradier.Text.{Text, txt}
use libtradier.Int.{ℤ}
use libtradier.Errors.{or_default, Outcome, ok, ◌>>=◌}
use libtradier.Service.{Json}
use libtradier.Validation.{Doubles}

pub record TradeEvent (D : Type 0) : Type 0 where
  pub type : Text
  pub symbol : Text
  pub exchange : Text
  pub price : D
  pub size : ℤ
  pub cvol : ℤ
  pub date : Text
  pub last : D

pub record QuoteEvent (D : Type 0) : Type 0 where
  pub type : Text
  pub symbol : Text
  pub bid : D
  pub bid_size : ℤ
  pub bid_exchange : Text
  pub bid_date : Text
  pub ask : D
  pub ask_size : ℤ
  pub ask_exchange : Text
  pub ask_date : Text

-- `start` is the field open.
pub record SummaryEvent (D : Type 0) : Type 0 where
  pub type : Text
  pub symbol : Text
  pub start : D
  pub high : D
  pub low : D
  pub prev_close : D

pub record TimesaleEvent (D : Type 0) : Type 0 where
  pub type : Text
  pub symbol : Text
  pub exchange : Text
  pub bid : D
  pub ask : D
  pub last : D
  pub size : ℤ
  pub date : Text
  pub seq : ℤ
  pub flag : Text
  pub cancel : Bool
  pub correction : Bool
  pub session : Text

-- std::stod, and static_cast of a double to an integer.
pub record Conversions (D : Type 0) : Type 0 where
  pub stod : Text → Outcome D
  pub truncate : D → ℤ

module _ {J D : Type 0} (lib : Json J D) (doubles : Doubles D) (conversions : Conversions D) where
  -- The text of a numeric field; an empty one stands for the default, and so does one that stod
  -- refuses.
  numeric_text : J → D → D
  unfolding or_default
  numeric_text item d =
      or_default d
        (do text ← lib.get_text item; if is_empty text then ok d else conversions.stod text)

  -- parseNumericField; get<double> of a number does not throw, and the outcome is that of the call.
  unfoldable pub parse_numeric_field : J → Text → D → Outcome D
  unfolding numeric_text
  parse_numeric_field json key d =
      if not (lib.contains json key) || lib.is_null (lib.at json key)
      then ok d
      else if lib.is_number (lib.at json key)
      then lib.get_double (lib.at json key)
      else if lib.is_string (lib.at json key)
      then ok (numeric_text (lib.at json key) d)
      else ok d

  unfoldable pub numeric : J → Text → Outcome D
  unfolding parse_numeric_field
  numeric json key = parse_numeric_field json key (doubles.whole 0)

  unfoldable pub whole_numeric : J → Text → Outcome ℤ
  unfolding numeric
  whole_numeric json key = numeric json key >>= (λ d. ok (conversions.truncate d))

  unfoldable pub read_trade : J → Text → Text → Outcome (TradeEvent D)
  unfolding numeric whole_numeric
  read_trade json type symbol = do
    exchange ← lib.text_value json (txt "exch") (txt "")
    price ← numeric json (txt "price")
    size ← whole_numeric json (txt "size")
    cvol ← whole_numeric json (txt "cvol")
    last ← numeric json (txt "last")
    date ← lib.text_value json (txt "date") (txt "")
    ok (record {
      type = type;
      symbol = symbol;
      exchange = exchange;
      price = price;
      size = size;
      cvol = cvol;
      date = date;
      last = last;
    })

  unfoldable pub read_quote : J → Text → Text → Outcome (QuoteEvent D)
  unfolding numeric whole_numeric
  read_quote json type symbol = do
    bid ← numeric json (txt "bid")
    ask ← numeric json (txt "ask")
    bid_size ← whole_numeric json (txt "bidsz")
    ask_size ← whole_numeric json (txt "asksz")
    bid_exchange ← lib.text_value json (txt "bidexch") (txt "")
    bid_date ← lib.text_value json (txt "biddate") (txt "")
    ask_exchange ← lib.text_value json (txt "askexch") (txt "")
    ask_date ← lib.text_value json (txt "askdate") (txt "")
    ok (record {
      type = type;
      symbol = symbol;
      bid = bid;
      bid_size = bid_size;
      bid_exchange = bid_exchange;
      bid_date = bid_date;
      ask = ask;
      ask_size = ask_size;
      ask_exchange = ask_exchange;
      ask_date = ask_date;
    })

  unfoldable pub read_summary : J → Text → Text → Outcome (SummaryEvent D)
  unfolding numeric
  read_summary json type symbol = do
    start ← numeric json (txt "open")
    high ← numeric json (txt "high")
    low ← numeric json (txt "low")
    prev_close ← numeric json (txt "prevClose")
    ok (record {
      type = type;
      symbol = symbol;
      start = start;
      high = high;
      low = low;
      prev_close = prev_close;
    })

  unfoldable pub read_timesale : J → Text → Text → Outcome (TimesaleEvent D)
  unfolding numeric whole_numeric
  read_timesale json type symbol = do
    exchange ← lib.text_value json (txt "exch") (txt "")
    bid ← numeric json (txt "bid")
    ask ← numeric json (txt "ask")
    last ← numeric json (txt "last")
    size ← whole_numeric json (txt "size")
    seq ← whole_numeric json (txt "seq")
    date ← lib.text_value json (txt "date") (txt "")
    flag ← lib.text_value json (txt "flag") (txt "")
    cancel ← lib.bool_value json (txt "cancel") false
    correction ← lib.bool_value json (txt "correction") false
    session ← lib.text_value json (txt "session") (txt "")
    ok (record {
      type = type;
      symbol = symbol;
      exchange = exchange;
      bid = bid;
      ask = ask;
      last = last;
      size = size;
      date = date;
      seq = seq;
      flag = flag;
      cancel = cancel;
      correction = correction;
      session = session;
    })
