-- ===== src/Streaming/Calls.antt =====
-- Any sequence of calls of a StreamingService of src/streaming.cpp, and what it does to the heartbeat
-- thread. A message that arrives changes the statistics alone, so it is no call here.
use libtradier.Base.{
  ◌≡◌, Bool, true, false, ◌&&◌, ◌||◌, not, List, [], ◌∷◌, if◌then◌else◌, is_empty,
}
use libtradier.Text.{Text, txt}
use libtradier.Errors.{ok, throw}
use libtradier.Streaming.Events.{TradeEvent, QuoteEvent, SummaryEvent, TimesaleEvent}
use libtradier.Streaming.Messages.{Handler, is_set}
use libtradier.Streaming.Session.{StreamSession}
use libtradier.Streaming.Connection.{
  AccountOrderEvent, AccountPositionEvent, StreamingConfig, Stream, Request, Socket, Step, and_then,
  connect, disconnect, reconnect, set_symbol_filter, set_exchange_filter, clear_filters,
}
use libtradier.Streaming.Subscriptions.{
  add_symbols, remove_symbols, connected_first, send_if, subscribe, subscribe_to_trades,
  subscribe_to_quotes, subscribe_to_summary, subscribe_to_timesales, subscribe_to_order_events,
  subscribe_to_position_events,
}
use libtradier.Streaming.Sending.{send_if-kept}
use libtradier.Streaming.Lifecycle.{stopped, stay, next, Moves-trans, Runs, connect-Runs}

-- The calls that change the service; `created` is what createMarketSession and createAccountSession
-- store.
pub data Call (D S : Type 0) : Type 0 where
  connecting disconnecting reconnecting : Call D S
  trades : StreamSession → List Text → Handler (TradeEvent D) S → Call D S
  quotes : StreamSession → List Text → Handler (QuoteEvent D) S → Call D S
  summaries : StreamSession → List Text → Handler (SummaryEvent D) S → Call D S
  timesales : StreamSession → List Text → Handler (TimesaleEvent D) S → Call D S
  orders : StreamSession → Handler (AccountOrderEvent D) S → Call D S
  positions : StreamSession → Handler (AccountPositionEvent D) S → Call D S
  adding removing symbol_filter exchange_filter : List Text → Call D S
  clearing : Call D S
  created : StreamSession → Call D S
  configured : StreamingConfig → Call D S
  error_handler : Handler Text S → Call D S

abbrev after : {D S A : Type 0} → Step D S A → Stream D S × S
after (o, st, s) = (st, s)

module _ {D S : Type 0} (socket : Socket S) (token : Text) where
  -- The states after a call, whatever it returns or throws.
  unfoldable pub apply : Call D S → Stream D S → S → Stream D S × S
  unfolding connect disconnect reconnect subscribe_to_trades subscribe_to_quotes
      subscribe_to_summary subscribe_to_timesales subscribe_to_order_events
      subscribe_to_position_events
  apply connecting st s = after (connect socket token st s)
  apply disconnecting st s = disconnect socket token st s
  apply reconnecting st s = after (reconnect socket token st s)
  apply (trades session symbols h) st s =
      after (subscribe_to_trades socket token session symbols h st s)
  apply (quotes session symbols h) st s =
      after (subscribe_to_quotes socket token session symbols h st s)
  apply (summaries session symbols h) st s =
      after (subscribe_to_summary socket token session symbols h st s)
  apply (timesales session symbols h) st s =
      after (subscribe_to_timesales socket token session symbols h st s)
  apply (orders session h) st s = after (subscribe_to_order_events socket token session h st s)
  apply (positions session h) st s =
      after (subscribe_to_position_events socket token session h st s)
  apply (adding symbols) st s = (add_symbols symbols st, s)
  apply (removing symbols) st s = (remove_symbols symbols st, s)
  apply (symbol_filter symbols) st s = (set_symbol_filter symbols st, s)
  apply (exchange_filter exchanges) st s = (set_exchange_filter exchanges st, s)
  apply clearing st s = (clear_filters st, s)
  apply (created session) st s = (record st { current_session = session }, s)
  apply (configured config) st s = (record st { config = config }, s)
  apply (error_handler h) st s = (record st { handlers = record st.handlers { error = h } }, s)

  unfoldable pub apply_all : List (Call D S) → Stream D S → S → Stream D S × S
  apply_all [] st s = (st, s)
  apply_all (call ∷ calls) st s = let (st', s') = apply call st s in apply_all calls st' s'

  and_then-Runs :
      {A B : Type 0} (st : Stream D S) (r : Step D S A) (k : Stream D S → S → Step D S B)
      → Runs st r.1
      → ((st' : Stream D S) (s' : S) → (k st' s').1 ≡ st')
      → Runs st (and_then r k).1
  and_then-Runs st (ok a, st', s') k runs kept = (let e = kept st' s' in rw e runs)
  and_then-Runs st (throw e, st', s') k runs kept = runs

  choose-Runs :
      {A : Type 0} (b : Bool) (st : Stream D S) (x y : Step D S A)
      → Runs st x.1
      → Runs st y.1
      → Runs st (if b then x else y).1
  choose-Runs true st x y h k = h
  choose-Runs false st x y h k = k

  connected_first-Runs : (st : Stream D S) (s : S) → Runs st (connected_first socket token st s).1
  unfolding connected_first
  connected_first-Runs st s =
      choose-Runs st.connected st (ok tt, st, s) (connect socket token st s) stay
        (connect-Runs socket token st s)

  subscribe-Runs :
      (noisy : Bool) (ready : Stream D S → Bool) (request : Request) (st : Stream D S) (s : S)
      → Runs st (subscribe socket token noisy ready request st s).1
  unfolding subscribe
  subscribe-Runs noisy ready request st s =
      and_then-Runs st (connected_first socket token st s)
        (send_if socket token noisy ready request) (connected_first-Runs st s)
        (send_if-kept socket token noisy ready request)

  apply-Runs : (call : Call D S) (st : Stream D S) (s : S) → Runs st (apply call st s).0
  unfolding apply disconnect reconnect subscribe_to_trades subscribe_to_quotes subscribe_to_summary
      subscribe_to_timesales subscribe_to_order_events subscribe_to_position_events add_symbols
      remove_symbols set_symbol_filter set_exchange_filter clear_filters
  apply-Runs connecting st s = connect-Runs socket token st s
  apply-Runs disconnecting st s = next stay stopped
  apply-Runs reconnecting st s =
      let (st', s') = disconnect socket token st s in
      Moves-trans (next stay stopped)
        (connect-Runs socket token st' (socket.sleep st.config.reconnect_delay s'))
  apply-Runs (trades session symbols h) st s =
      choose-Runs (not session.is_active || is_empty symbols || not (is_set h)) st (ok false, st, s)
        _ stay
        (subscribe-Runs true (λ st'. st'.has_connection && st'.connected)
          (Request.symbols_of (txt "trade") symbols)
          (add_symbols symbols (record st { handlers = record st.handlers { trade = h } })) s)
  apply-Runs (quotes session symbols h) st s =
      choose-Runs (not session.is_active || is_empty symbols) st (ok false, st, s) _ stay
        (subscribe-Runs true (λ st'. st'.has_connection)
          (Request.session_of symbols session.session_id)
          (add_symbols symbols (record st { handlers = record st.handlers { quote = h } })) s)
  apply-Runs (summaries session symbols h) st s =
      choose-Runs (not session.is_active || is_empty symbols) st (ok false, st, s) _ stay
        (subscribe-Runs false (λ st'. st'.has_connection)
          (Request.symbols_of (txt "summary") symbols)
          (add_symbols symbols (record st { handlers = record st.handlers { summary = h } })) s)
  apply-Runs (timesales session symbols h) st s =
      choose-Runs (not session.is_active || is_empty symbols) st (ok false, st, s) _ stay
        (subscribe-Runs false (λ st'. st'.has_connection)
          (Request.symbols_of (txt "timesale") symbols)
          (add_symbols symbols (record st { handlers = record st.handlers { timesale = h } })) s)
  apply-Runs (orders session h) st s =
      choose-Runs (not session.is_active) st (ok false, st, s) _ stay
        (subscribe-Runs false (λ st'. st'.has_connection) (Request.events_of (txt "order"))
          (record st { order_handler = h }) s)
  apply-Runs (positions session h) st s =
      choose-Runs (not session.is_active) st (ok false, st, s) _ stay
        (subscribe-Runs false (λ st'. st'.has_connection) (Request.events_of (txt "position"))
          (record st { position_handler = h }) s)
  apply-Runs (adding symbols) st s = stay
  apply-Runs (removing symbols) st s = stay
  apply-Runs (symbol_filter symbols) st s = stay
  apply-Runs (exchange_filter exchanges) st s = stay
  apply-Runs clearing st s = stay
  apply-Runs (created session) st s = stay
  apply-Runs (configured config) st s = stay
  apply-Runs (error_handler h) st s = stay

  pub apply_all-Runs :
      (calls : List (Call D S)) (st : Stream D S) (s : S) → Runs st (apply_all calls st s).0
  unfolding apply_all
  apply_all-Runs [] st s = stay
  apply_all-Runs (call ∷ calls) st s =
      Moves-trans (apply-Runs call st s)
        (apply_all-Runs calls (apply call st s).0 (apply call st s).1)
