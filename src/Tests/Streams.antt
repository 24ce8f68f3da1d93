-- ===== src/Tests/Streams.antt =====
-- src/streaming.cpp with a trade in the stream and a socket that always works.
use libtradier.Base.{
  length, ◌≤◌, ◌<◌, ℕ, ◌+◌, ◌≡◌, ◌≢◌, refl, ◌⊎◌, inl, true, false, ◌&&◌, ◌||◌, not, List, [], ◌∷◌,
  ◌++◌, none, some, is_empty, All, of_some,
}
use libtradier.Text.{Text, txt}
use libtradier.Int.{ℤ, next64}
use libtradier.Errors.{Exception, Outcome, ok, throw}
use libtradier.Streaming.Events.{TradeEvent, Conversions}
use libtradier.Streaming.Messages.{
  Handler, Handlers, Filters, no_statistics, passes, report, handle_message, is_set,
}
use libtradier.Streaming.Delivery.{HandlersKeep, handle_message-Keeps}
use libtradier.Streaming.Counting.{IsReadable, handle_message-Counted}
use libtradier.Streaming.Symbols.{insert_all}
use libtradier.Streaming.Session.{StreamSession}
use libtradier.Streaming.Connection.{Request, Socket, stream, disconnect, switch_on, with_outcome}
use libtradier.Streaming.Subscriptions.{subscribe_to_trades}
use libtradier.Streaming.Sending.{subscribe_to_trades-HasSent}
use libtradier.Streaming.Calls.{Call, connecting, created, apply_all}
use libtradier.Streaming.Heartbeats.{heartbeat_gone, heartbeat_single}
use libtradier.Streaming.Heartbeat.{Ending, Turn, Beat, too_many_failures, heartbeat_loop}
use libtradier.Streaming.Heartbeat.Failures.{Blamed, FailThrice, heartbeat_loop_ends}
use libtradier.Tests.Documents.{Doc, text, number, object, end, field, documents}
use libtradier.Tests.Orders.{numbers}

abbrev trade : Doc
trade = object (
    field (txt "type") (text (txt "trade")) (
      field (txt "symbol") (text (txt "AAPL"))
        (field (txt "exch") (text (txt "Q")) (field (txt "price") (number 190) end))))

abbrev conversions : Conversions ℕ
conversions = record {
  stod = λ t. throw (Exception.standard (txt "stod"));
  truncate = λ d. ℤ.pos d;
}

abbrev filters : Filters
filters = record { symbols = txt "AAPL" ∷ []; exchanges = txt "Q" ∷ [] }

-- A handler that keeps the symbols of the trades.
abbrev logger : TradeEvent ℕ → List Text → Outcome (Unit {0}) × List Text
logger v log = (ok tt, v.symbol ∷ log)

abbrev logging : Handlers ℕ (List Text)
logging = record {
  trade = some logger;
  quote = none;
  summary = none;
  timesale = none;
  error = none;
}

abbrev Passed : List Text → Type 0
Passed log = All (λ y. passes y filters.symbols ≡ true) log

logging_keep :
    HandlersKeep (documents (λ t. ok trade)) numbers conversions Passed logging filters (ok trade)
logging_keep = record {
  trade = λ f e v log good ps. rw (← of_some e) (good.3.0, ps);
  quote = λ f e. cc;
  summary = λ f e. cc;
  timesale = λ f e. cc;
  error = λ f e. cc;
}

handle_message-Keeps_example :
    let (outcome, stats, log) =
      handle_message
        (documents (λ t. ok trade))
        numbers
        conversions
        logging
        filters
        (txt "{}")
        7
        no_statistics
        [] in
    Passed log
handle_message-Keeps_example =
    handle_message-Keeps (documents (λ t. ok trade)) numbers conversions Passed logging filters
      (txt "{}") 7 no_statistics [] logging_keep tt

handle_message-Counted_example :
    let (outcome, stats, log) =
      handle_message
        (documents (λ t. ok trade))
        numbers
        conversions
        logging
        filters
        (txt "{}")
        7
        no_statistics
        [] in
    (outcome ≡ ok tt)
    × (stats.messages_received ≡ next64 no_statistics.messages_received)
    × (stats.last_message ≡ 7)
    × ((IsReadable (documents (λ t. ok trade)) numbers conversions logging filters (ok trade)
          × (stats.messages_processed ≡ next64 no_statistics.messages_processed)
          × (stats.errors ≡ no_statistics.errors))
        ⊎ (¬ IsReadable (documents (λ t. ok trade)) numbers conversions logging filters (ok trade)
            × (stats.messages_processed ≡ no_statistics.messages_processed)
            × (stats.errors ≡ next64 no_statistics.errors)))
unfolding report
handle_message-Counted_example =
    handle_message-Counted (documents (λ t. ok trade)) numbers conversions logging filters
      (txt "{}") 7 no_statistics [] (λ m s. refl)

abbrev session : StreamSession
session = record {
  url = txt "https://stream.tradier.com/v1/markets/events";
  session_id = txt "s1";
  expires_at = 9;
  is_active = true;
}

abbrev granted : Doc
granted = object (
    field (txt "stream")
      (object (
        field (txt "url") (text (txt "https://x")) (field (txt "sessionid") (text (txt "s2")) end)))
      end)

-- The state counts what the socket is asked for.
abbrev socket : Socket ℕ
socket = record {
  make = λ endpoint token s. (ok tt, s + 1);
  set_auth_token = λ token s. (ok tt, s);
  connect = λ s. (ok tt, s + 1);
  send = λ request s. (ok tt, s + 1);
  disconnect = λ s. s + 1;
  destroy = λ s. s;
  starts = λ s. true;
  now = λ s. s;
  sleep = λ delay s. s;
}

abbrev calls : List (Call ℕ ℕ)
calls = created session ∷ connecting ∷ []

heartbeat_single_example :
    let st = (apply_all socket (txt "abc") calls stream 0).0 in
    (length st.thread_manager.threads ≤ 1)
    × (0 < length st.thread_manager.threads → st.connected ≡ true)
heartbeat_single_example = heartbeat_single socket (txt "abc") calls 0

heartbeat_gone_example :
    let (st, s') = apply_all socket (txt "abc") calls stream 0 in
    let (ended, s'') = disconnect socket (txt "abc") st s' in
    let st' = (apply_all socket (txt "abc") (connecting ∷ []) ended s'').0 in
    (st'.thread_manager.threads ≡ [])
    × ((s : ℕ)
        → switch_on socket (txt "abc") st' s
          ≡ with_outcome socket
              (txt "abc")
              (record st' {
                connected = true;
                stats = record st'.stats { connection_start = socket.now s };
              })
              (report st'.handlers.error (txt "Failed to start heartbeat thread") s))
heartbeat_gone_example = heartbeat_gone socket (txt "abc") calls (connecting ∷ []) 0

-- A turn at the time `t` whose send fails, and one in which the service is disconnected.
abbrev failing : ℕ → Turn
failing t = record {
  before = true;
  after = true;
  connection = true;
  send = throw (Exception.connection (txt "WebSocket not connected"));
  report = ok tt;
  time = t;
}

abbrev off : Turn
off = record {
  before = false;
  after = false;
  connection = true;
  send = ok tt;
  report = ok tt;
  time = 40;
}

abbrev failures : List Turn
failures = failing 10 ∷ failing 20 ∷ failing 30 ∷ []

abbrev fresh_beat : Beat
fresh_beat = record { heartbeat_count = 0; error_count = 0; last_successful_heartbeat = 0 }

heartbeat_loop_ends_example :
    ((heartbeat_loop 300 (failures ++ off ∷ []) fresh_beat).0 ≢ none)
    × ((ending : Ending)
        → (heartbeat_loop 300 (failures ++ off ∷ []) fresh_beat).0 ≡ some ending
        → Blamed ending (failures ++ off ∷ []))
    × ((heartbeat_loop 300 (failures ++ off ∷ []) fresh_beat).0 ≡ some too_many_failures
        → FailThrice (failures ++ off ∷ []))
heartbeat_loop_ends_example = heartbeat_loop_ends 300 failures off fresh_beat (inl refl) refl

gives_up : (heartbeat_loop 300 (failures ++ off ∷ []) fresh_beat).0 ≡ some too_many_failures
unfolding heartbeat_loop
gives_up = refl

abbrev trades : List Text
trades = txt "AAPL" ∷ []

subscribe_to_trades-HasSent_example :
    let h : Handler (TradeEvent ℕ) ℕ = some (λ v s. (ok tt, s)) in
    let refused = not session.is_active || is_empty trades || not (is_set h) in
    let (o, st, s') = subscribe_to_trades socket (txt "abc") session trades h stream 0 in
    (refused ≡ true → (o ≡ ok false) × (st ≡ stream) × (s' ≡ 0))
    × (refused ≡ false
        → (st.handlers.trade ≡ h)
          × (st.subscribed_symbols ≡ insert_all trades (stream {D = ℕ} {S = ℕ}).subscribed_symbols)
          × (o ≡ ok true
              → (s'' : ℕ) × ((st.has_connection && st.connected) ≡ true)
                × (socket.send (Request.symbols_of (txt "trade") trades) s'' ≡ (ok tt, s'))))
subscribe_to_trades-HasSent_example =
    subscribe_to_trades-HasSent socket (txt "abc") session trades (some (λ v s. (ok tt, s))) stream
      0
