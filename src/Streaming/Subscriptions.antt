-- ===== src/Streaming/Subscriptions.antt =====
-- The subscriptions of StreamingService in src/streaming.cpp.
use libtradier.Base.{Bool, true, false, ◌&&◌, ◌||◌, not, List, ◌++◌, if◌then◌else◌, is_empty}
use libtradier.Text.{Text, txt}
use libtradier.Errors.{what, Outcome, ok, throw}
use libtradier.Streaming.Events.{TradeEvent, QuoteEvent, SummaryEvent, TimesaleEvent}
use libtradier.Streaming.Messages.{Handler, is_set, report}
use libtradier.Streaming.Symbols.{insert_all, erase_all}
use libtradier.Streaming.Session.{StreamSession}
use libtradier.Streaming.Connection.{
  AccountOrderEvent, AccountPositionEvent, Stream, Request, Socket, Step, and_then, connect,
}

module _ {D S : Type 0} where
  unfoldable pub add_symbols : List Text → Stream D S → Stream D S
  unfolding insert_all
  add_symbols symbols st = record st {
    subscribed_symbols = insert_all symbols st.subscribed_symbols;
  }

  unfoldable pub remove_symbols : List Text → Stream D S → Stream D S
  unfolding erase_all
  remove_symbols symbols st = record st {
    subscribed_symbols = erase_all symbols st.subscribed_symbols;
  }

module _ {D S : Type 0} (socket : Socket S) (token : Text) where
  unfoldable pub reported : Stream D S → Outcome (Unit {0}) × S → Step D S Bool
  reported st (ok done, s) = (ok false, st, s)
  reported st (throw e, s) = (throw e, st, s)

  -- The catch clauses: subscribeToTrades and subscribeToQuotes report the error, the others do not.
  unfoldable pub sent : Bool → Stream D S → Outcome (Unit {0}) × S → Step D S Bool
  unfolding report reported
  sent noisy st (ok done, s) = (ok true, st, s)
  sent noisy st (throw e, s) =
      if noisy
      then reported st (report st.handlers.error (txt "Subscription error: " ++ what e) s)
      else (ok false, st, s)

  -- if (!connected) connect();
  unfoldable pub connected_first : Stream D S → S → Step D S (Unit {0})
  unfolding connect
  connected_first st s = if st.connected then (ok tt, st, s) else connect socket token st s

  -- The send, if `ready` says that there is a connection for it.
  unfoldable pub send_if : Bool → (Stream D S → Bool) → Request → Stream D S → S → Step D S Bool
  unfolding sent
  send_if noisy ready request st s =
      if ready st then sent noisy st (socket.send request s) else (ok false, st, s)

  unfoldable pub subscribe : Bool → (Stream D S → Bool) → Request → Stream D S → S → Step D S Bool
  unfolding connected_first send_if
  subscribe noisy ready request st s = and_then (connected_first st s) (send_if noisy ready request)

  unfoldable pub subscribe_to_trades :
      StreamSession → List Text → Handler (TradeEvent D) S → Stream D S → S → Step D S Bool
  unfolding subscribe add_symbols
  subscribe_to_trades session symbols handler st s =
      if not session.is_active || is_empty symbols || not (is_set handler)
      then (ok false, st, s)
      else subscribe true (λ st'. st'.has_connection && st'.connected)
          (Request.symbols_of (txt "trade") symbols)
          (add_symbols symbols (record st { handlers = record st.handlers { trade = handler } })) s

  unfoldable pub subscribe_to_quotes :
      StreamSession → List Text → Handler (QuoteEvent D) S → Stream D S → S → Step D S Bool
  unfolding subscribe add_symbols
  subscribe_to_quotes session symbols handler st s =
      if not session.is_active || is_empty symbols
      then (ok false, st, s)
      else subscribe true (λ st'. st'.has_connection)
          (Request.session_of symbols session.session_id)
          (add_symbols symbols (record st { handlers = record st.handlers { quote = handler } })) s

  unfoldable pub subscribe_to_summary :
      StreamSession → List Text → Handler (SummaryEvent D) S → Stream D S → S → Step D S Bool
  unfolding subscribe add_symbols
  subscribe_to_summary session symbols handler st s =
      if not session.is_active || is_empty symbols
      then (ok false, st, s)
      else subscribe false (λ st'. st'.has_connection) (Request.symbols_of (txt "summary") symbols)
          (add_symbols symbols (record st { handlers = record st.handlers { summary = handler } }))
          s

  unfoldable pub subscribe_to_timesales :
      StreamSession → List Text → Handler (TimesaleEvent D) S → Stream D S → S → Step D S Bool
  unfolding subscribe add_symbols
  subscribe_to_timesales session symbols handler st s =
      if not session.is_active || is_empty symbols
      then (ok false, st, s)
      else subscribe false (λ st'. st'.has_connection) (Request.symbols_of (txt "timesale") symbols)
          (add_symbols symbols (record st { handlers = record st.handlers { timesale = handler } }))
          s

  unfoldable pub subscribe_to_order_events :
      StreamSession → Handler (AccountOrderEvent D) S → Stream D S → S → Step D S Bool
  unfolding subscribe
  subscribe_to_order_events session handler st s =
      if not session.is_active
      then (ok false, st, s)
      else subscribe false (λ st'. st'.has_connection) (Request.events_of (txt "order"))
          (record st { order_handler = handler }) s

  unfoldable pub subscribe_to_position_events :
      StreamSession → Handler (AccountPositionEvent D) S → Stream D S → S → Step D S Bool
  unfolding subscribe
  subscribe_to_position_events session handler st s =
      if not session.is_active
      then (ok false, st, s)
      else subscribe false (λ st'. st'.has_connection) (Request.events_of (txt "position"))
          (record st { position_handler = handler }) s
