-- ===== src/Streaming/Connection.antt =====
-- connect, disconnect, reconnect and the filters of StreamingService in src/streaming.cpp. `S` is the
-- state of the websocket, of the clock and of what the handlers work on; a handler does not call the
-- service back.
use libtradier.Base.{
  ℕ, zero, suc, Bool, true, false, ◌||◌, not, List, [], ◌∷◌, ◌++◌, none, if◌then◌else◌,
}
use libtradier.Text.{Text, txt}
use libtradier.Int.{ℤ}
use libtradier.Errors.{what, Outcome, ok, throw}
use libtradier.Streaming.Messages.{
  Handler, Handlers, Filters, StreamStatistics, no_statistics, report,
}
use libtradier.Streaming.Threads.{ThreadManager, thread_manager, add_thread, stop}
use libtradier.Streaming.Session.{StreamSession, no_session, starts_with}

pub record AccountOrderEvent (D : Type 0) : Type 0 where
  pub order_id : ℤ
  pub event : Text
  pub status : Text
  pub account : Text
  pub symbol : Text
  pub quantity : D
  pub price : D
  pub side : Text
  pub type : Text
  pub timestamp : ℕ

pub record AccountPositionEvent (D : Type 0) : Type 0 where
  pub account : Text
  pub symbol : Text
  pub quantity : D
  pub cost_basis : D
  pub timestamp : ℕ

-- The numbers of milliseconds are those of the source's int fields that are not negative.
pub record StreamingConfig : Type 0 where
  pub auto_reconnect : Bool
  pub reconnect_delay : ℕ
  pub max_reconnect_attempts : ℕ
  pub heartbeat_interval : ℕ
  pub filter_duplicates : Bool
  pub valid_exchanges : List Text

-- StreamingService::Impl; `has_connection` says whether the pointer to the connection is set.
pub record Stream (D S : Type 0) : Type 0 where
  pub config : StreamingConfig
  pub has_connection : Bool
  pub connected : Bool
  pub handlers : Handlers D S
  pub order_handler : Handler (AccountOrderEvent D) S
  pub position_handler : Handler (AccountPositionEvent D) S
  pub subscribed_symbols : List Text
  pub filters : Filters
  pub thread_manager : ThreadManager
  pub stats : StreamStatistics
  pub current_session : StreamSession

-- What is sent over the connection, before dump(): a subscription to a kind of event for symbols, one
-- with the session, one to account events, and the heartbeat.
pub data Request : Type 0 where
  symbols_of : Text → List Text → Request
  session_of : List Text → Text → Request
  events_of : Text → Request
  heartbeat : ℕ → Request

-- The websocket connection, std::thread, the clock and the sleeping thread.
pub record Socket (S : Type 0) : Type 0 where
  -- WebSocketClient::connect(endpoint, token), which only makes the connection
  pub make : Text → Text → S → Outcome (Unit {0}) × S
  pub set_auth_token : Text → S → Outcome (Unit {0}) × S
  pub connect : S → Outcome (Unit {0}) × S
  pub send : Request → S → Outcome (Unit {0}) × S
  pub disconnect : S → S
  -- the destructor
  pub destroy : S → S
  pub starts : S → Bool
  pub now : S → ℕ
  pub sleep : ℕ → S → S

-- substr(count)
unfoldable pub skip : ℕ → Text → Text
skip zero text = text
skip (suc n) [] = []
skip (suc n) (c ∷ text) = skip n text

-- The path of the session's address, as connect() cuts it.
unfoldable pub endpoint_of : Text → Text
unfolding skip starts_with
endpoint_of url =
    if starts_with (txt "https://stream.tradier.com/v1") url
    then skip 29 url
    else if starts_with (txt "https://sandbox.tradier.com/v1") url
    then skip 30 url
    else url

-- A step of the service: what it returns or throws, and the states after it.
abbrev pub Step : Type 0 → Type 0 → Type 0 → Type 0
Step D S A = Outcome A × Stream D S × S

abbrev pub and_then : {D S A B : Type 0} → Step D S A → (Stream D S → S → Step D S B) → Step D S B
and_then (throw e, st, s) k = (throw e, st, s)
and_then (ok a, st, s) k = k st s

module _ {D S : Type 0} where
  -- StreamingService(client)
  unfoldable pub stream : Stream D S
  unfolding no_statistics no_session thread_manager
  stream = record {
    config = record {
      auto_reconnect = true;
      reconnect_delay = 5000;
      max_reconnect_attempts = 10;
      heartbeat_interval = 30000;
      filter_duplicates = true;
      valid_exchanges = [];
    };
    has_connection = false;
    connected = false;
    handlers = record { trade = none; quote = none; summary = none; timesale = none; error = none };
    order_handler = none;
    position_handler = none;
    subscribed_symbols = [];
    filters = record { symbols = []; exchanges = [] };
    thread_manager = thread_manager;
    stats = no_statistics;
    current_session = no_session;
  }

  unfoldable pub set_symbol_filter : List Text → Stream D S → Stream D S
  set_symbol_filter symbols st = record st {
    filters = record { symbols = symbols; exchanges = st.filters.exchanges };
  }

  unfoldable pub set_exchange_filter : List Text → Stream D S → Stream D S
  set_exchange_filter exchanges st = record st {
    filters = record { symbols = st.filters.symbols; exchanges = exchanges };
  }

  unfoldable pub clear_filters : Stream D S → Stream D S
  clear_filters st = record st { filters = record { symbols = []; exchanges = [] } }

module _ {D S : Type 0} (socket : Socket S) (token : Text) where
  -- The new connection takes the place of an old one, which is destroyed.
  unfoldable pub made : Outcome (Unit {0}) × S → Stream D S → Step D S (Unit {0})
  made (throw e, s) st = (throw e, st, s)
  made (ok done, s) st = (
    ok tt,
    record st { has_connection = true },
    if st.has_connection then socket.destroy s else s,
  )

  unfoldable pub with_outcome : Stream D S → Outcome (Unit {0}) × S → Step D S (Unit {0})
  with_outcome st (o, s) = (o, st, s)

  unfoldable pub began : Bool × ThreadManager → Stream D S → S → Step D S (Unit {0})
  unfolding report with_outcome
  began (true, threads) st s = (ok tt, record st { thread_manager = threads }, s)
  began (false, threads) st s =
      with_outcome (record st { thread_manager = threads })
        (report st.handlers.error (txt "Failed to start heartbeat thread") s)

  -- startHeartbeat
  unfoldable pub start_heartbeat : Stream D S → S → Step D S (Unit {0})
  unfolding began add_thread
  start_heartbeat st s = began (add_thread (socket.starts s) st.thread_manager) st s

  -- What connect() does once the websocket is connected.
  unfoldable pub switch_on : Stream D S → S → Step D S (Unit {0})
  unfolding start_heartbeat
  switch_on st s =
      start_heartbeat
        (record st {
          connected = true;
          stats = record st.stats { connection_start = socket.now s };
        })
        s

  unfoldable pub connect_socket : Stream D S → S → Step D S (Unit {0})
  unfolding switch_on with_outcome
  connect_socket st s = and_then (with_outcome st (socket.connect s)) switch_on

  unfoldable pub authorize_socket : Stream D S → S → Step D S (Unit {0})
  unfolding connect_socket with_outcome
  authorize_socket st s = and_then (with_outcome st (socket.set_auth_token token s)) connect_socket

  -- The try block of connect()
  unfoldable pub open_connection : Stream D S → S → Step D S (Unit {0})
  unfolding made authorize_socket endpoint_of
  open_connection st s =
      and_then (made (socket.make (endpoint_of st.current_session.url) token s) st) authorize_socket

  -- connected = false, unless the error handler throws before it
  unfoldable pub give_up : Stream D S → Outcome (Unit {0}) × S → Step D S (Unit {0})
  give_up st (ok done, s) = (ok tt, record st { connected = false }, s)
  give_up st (throw e, s) = (throw e, st, s)

  unfoldable pub catch_connect : Step D S (Unit {0}) → Step D S (Unit {0})
  unfolding give_up report
  catch_connect (ok done, st, s) = (ok tt, st, s)
  catch_connect (throw e, st, s) =
      give_up st (report st.handlers.error (txt "Connection error: " ++ what e) s)

  unfoldable pub connect : Stream D S → S → Step D S (Unit {0})
  unfolding open_connection catch_connect
  connect st s =
      if st.connected || not st.current_session.is_active
      then (ok tt, st, s)
      else catch_connect (open_connection st s)

  -- Impl::disconnect; what is destroyed after its disconnect is destroyed with no further effect.
  unfoldable pub disconnect : Stream D S → S → Stream D S × S
  unfolding stop
  disconnect st s = (
    record st {
      connected = false;
      thread_manager = stop st.thread_manager;
      has_connection = false;
    },
    if st.has_connection then socket.destroy (socket.disconnect s) else s,
  )

  unfoldable pub reconnect : Stream D S → S → Step D S (Unit {0})
  unfolding disconnect connect
  reconnect st s =
      let (st', s') = disconnect st s in connect st' (socket.sleep st.config.reconnect_delay s')
