-- ===== src/Streaming/Messages.antt =====
-- handleMessage and processEvent of src/streaming.cpp: a message of the stream is filtered, read, and
-- handed to the handler of its type. `S` is the state that the handlers work on; a handler may throw.
use libtradier.Base.{
  ℕ, Bool, true, false, ◌&&◌, ◌||◌, not, List, [], ◌∷◌, ◌++◌, Option, none, some, if◌then◌else◌,
  is_empty,
}
use libtradier.Int.{next64}
use libtradier.Text.{Text, txt, text_eq}
use libtradier.Errors.{what, Outcome, ok, throw, ◌>>=◌}
use libtradier.Service.{Json}
use libtradier.Validation.{Doubles}
use libtradier.Streaming.Events.{
  TradeEvent, QuoteEvent, SummaryEvent, TimesaleEvent, Conversions, read_trade, read_quote,
  read_summary, read_timesale,
}

-- std::function, empty or a callable
abbrev pub Handler : Type 0 → Type 0 → Type 0
Handler E S = Option (E → S → Outcome (Unit {0}) × S)

pub record Handlers (D S : Type 0) : Type 0 where
  pub trade : Handler (TradeEvent D) S
  pub quote : Handler (QuoteEvent D) S
  pub summary : Handler (SummaryEvent D) S
  pub timesale : Handler (TimesaleEvent D) S
  pub error : Handler Text S

-- symbolFilter and exchangeFilter
pub record Filters : Type 0 where
  pub symbols : List Text
  pub exchanges : List Text

-- StreamStatistics; the times are the clock's readings.
pub record StreamStatistics : Type 0 where
  pub messages_received : ℕ
  pub messages_processed : ℕ
  pub errors : ℕ
  pub reconnects : ℕ
  pub connection_start : ℕ
  pub last_message : ℕ

-- reset(), which is also what a new service has
unfoldable pub no_statistics : StreamStatistics
no_statistics = record {
  messages_received = 0;
  messages_processed = 0;
  errors = 0;
  reconnects = 0;
  connection_start = 0;
  last_message = 0;
}

-- find(key) != end()
abbrev pub member : Text → List Text → Bool
member key [] = false
member key (k ∷ keys) = text_eq k key || member key keys

abbrev pub is_set {ℓ} : {A : Type ℓ} → Option A → Bool
is_set none = false
is_set (some h) = true

-- A filter that is empty lets everything through.
abbrev pub passes : Text → List Text → Bool
passes key keys = is_empty keys || member key keys

-- if (errorHandler) errorHandler(message);
unfoldable pub report : {S : Type 0} → Handler Text S → Text → S → Outcome (Unit {0}) × S
report none message s = (ok tt, s)
report (some h) message s = h message s

unfoldable pub deliver : {E S : Type 0} → Outcome E → Handler E S → S → Outcome (Unit {0}) × S
deliver (throw e) h s = (throw e, s)
deliver (ok v) none s = (ok tt, s)
deliver (ok v) (some h) s = h v s

-- catch (const std::exception&) { report }
unfoldable pub rescue :
    {S : Type 0} → Text → Handler Text S → Outcome (Unit {0}) × S → Outcome (Unit {0}) × S
unfolding report
rescue label h (ok done, s) = (ok done, s)
rescue label h (throw e, s) = report h (label ++ what e) s

module _ {J D : Type 0} (lib : Json J D) where
  -- The exchange test, once the symbol has passed.
  unfoldable pub exchange_passes : Filters → J → Outcome Bool
  exchange_passes filters json =
      if not (is_empty filters.exchanges) && lib.contains json (txt "exch")
      then lib.get_text (lib.at json (txt "exch"))
        >>= (λ exchange. ok (member exchange filters.exchanges))
      else ok true

  -- The part of processEvent before its try block: the type and the symbol of a message that is not
  -- dropped.
  unfoldable pub admitted : Filters → J → Outcome (Option (Text × Text))
  unfolding exchange_passes
  admitted filters json = if not (lib.contains json (txt "type")) then ok none else (do
    type ← lib.get_text (lib.at json (txt "type"))
    symbol ← lib.text_value json (txt "symbol") (txt "")
    if not (passes symbol filters.symbols)
        then ok none
        else exchange_passes filters json
          >>= (λ passed. ok (if passed then some (type, symbol) else none)))

module _ {J D S : Type 0} (lib : Json J D) (doubles : Doubles D) (conversions : Conversions D) where
  -- The try block of processEvent.
  unfoldable pub dispatch : Handlers D S → J → Text → Text → S → Outcome (Unit {0}) × S
  unfolding deliver
  dispatch handlers json type symbol s =
      if text_eq type (txt "trade") && is_set handlers.trade
      then deliver (read_trade lib doubles conversions json type symbol) handlers.trade s
      else if text_eq type (txt "quote") && is_set handlers.quote
      then deliver (read_quote lib doubles conversions json type symbol) handlers.quote s
      else if text_eq type (txt "summary") && is_set handlers.summary
      then deliver (read_summary lib doubles conversions json type symbol) handlers.summary s
      else if text_eq type (txt "timesale") && is_set handlers.timesale
      then deliver (read_timesale lib doubles conversions json type symbol) handlers.timesale s
      else (ok tt, s)

  unfoldable pub process_admitted :
      Handlers D S → J → Outcome (Option (Text × Text)) → S → Outcome (Unit {0}) × S
  unfolding dispatch rescue
  process_admitted handlers json (throw e) s = (throw e, s)
  process_admitted handlers json (ok none) s = (ok tt, s)
  process_admitted handlers json (ok (some (type, symbol))) s =
      rescue (txt "Event processing error: ") handlers.error (dispatch handlers json type symbol s)

  unfoldable pub process_event : Handlers D S → Filters → J → S → Outcome (Unit {0}) × S
  unfolding process_admitted admitted
  process_event handlers filters json s =
      process_admitted handlers json (admitted lib filters json) s

  unfoldable pub process_message : Handlers D S → Filters → Outcome J → S → Outcome (Unit {0}) × S
  unfolding process_event
  process_message handlers filters (throw e) s = (throw e, s)
  process_message handlers filters (ok json) s = process_event handlers filters json s

  unfoldable pub count_message :
      Handlers D S
      → StreamStatistics
      → Outcome (Unit {0}) × S
      → Outcome (Unit {0}) × StreamStatistics × S
  unfolding report
  count_message handlers stats (ok done, s) =
      (ok tt, record stats { messages_processed = next64 stats.messages_processed }, s)
  count_message handlers stats (throw e, s) =
      let (reported, s') = report handlers.error (txt "Message parsing error: " ++ what e) s in
      (reported, record stats { errors = next64 stats.errors }, s')

  -- handleMessage, at the time `now`
  unfoldable pub handle_message :
      Handlers D S
      → Filters
      → Text
      → ℕ
      → StreamStatistics
      → S
      → Outcome (Unit {0}) × StreamStatistics × S
  unfolding process_message count_message
  handle_message handlers filters message now stats s =
      count_message handlers
        (record stats { messages_received = next64 stats.messages_received; last_message = now })
        (process_message handlers filters (lib.parse message) s)
