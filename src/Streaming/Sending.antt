-- ===== src/Streaming/Sending.antt =====
-- What subscribeToTrades of src/streaming.cpp stores, sends and returns.
use libtradier.Base.{
  ◌≡◌, ◌≢◌, refl, ap, ◌∙◌, Bool, true, false, ◌&&◌, ◌||◌, not, List, ◌++◌, if◌then◌else◌, is_empty,
  Bool-cases, inl, inr,
}
use libtradier.Text.{Text, txt}
use libtradier.Errors.{what, Outcome, ok, throw}
use libtradier.Streaming.Events.{TradeEvent}
use libtradier.Streaming.Messages.{Handler, Handlers, is_set, report}
use libtradier.Streaming.Symbols.{insert_all}
use libtradier.Streaming.Session.{StreamSession}
use libtradier.Streaming.Connection.{Stream, Request, Socket, Step, and_then}
use libtradier.Streaming.Keeping.{Same, and_then-Same, connected_first-Same}
use libtradier.Streaming.Subscriptions.{
  add_symbols, sent, reported, connected_first, send_if, subscribe, subscribe_to_trades,
}

guarded :
    {A : Type 0} (b : Bool) (x y : A) (P Q : A → Type 0)
    → P x
    → Q y
    → (b ≡ true → P (if b then x else y)) × (b ≡ false → Q (if b then x else y))
guarded true x y P Q p q = (λ h. p, λ h. cc)
guarded false x y P Q p q = (λ h. cc, λ h. q)

module _ {D S : Type 0} (socket : Socket S) (token : Text) where
  -- The send that a subscription which returned true has made.
  abbrev HasSent : (Stream D S → Bool) → Request → Step D S Bool → Type 0
  HasSent ready request (o, st', s') =
      o ≡ ok true → (s : S) × (ready st' ≡ true) × (socket.send request s ≡ (ok tt, s'))

  reported-false :
      (st : Stream D S) (r : Outcome (Unit {0}) × S) → (reported socket token st r).0 ≢ ok true
  unfolding reported
  reported-false st (ok done, s) = λ h. cc
  reported-false st (throw e, s) = λ h. cc

  reported-kept :
      (st : Stream D S) (r : Outcome (Unit {0}) × S) → (reported socket token st r).1 ≡ st
  unfolding reported
  reported-kept st (ok done, s) = refl
  reported-kept st (throw e, s) = refl

  sent-kept :
      (noisy : Bool) (st : Stream D S) (r : Outcome (Unit {0}) × S)
      → (sent socket token noisy st r).1 ≡ st
  unfolding sent
  sent-kept noisy st (ok done, s) = refl
  sent-kept true st (throw e, s) =
      reported-kept st (report st.handlers.error (txt "Subscription error: " ++ what e) s)
  sent-kept false st (throw e, s) = refl

  -- A send leaves the service as it was.
  pub send_if-kept :
      (noisy : Bool) (ready : Stream D S → Bool) (request : Request) (st : Stream D S) (s : S)
      → (send_if socket token noisy ready request st s).1 ≡ st
  unfolding send_if
  send_if-kept noisy ready request st s = elim (Bool-cases (ready st)) [
    | inl h ↦ rw h (sent-kept noisy st (socket.send request s))
    | inr h ↦ rw h refl
  ]

  sent-true :
      (noisy : Bool) (st : Stream D S) (r : Outcome (Unit {0}) × S)
      → (sent socket token noisy st r).0 ≡ ok true
      → r ≡ (ok tt, (sent socket token noisy st r).2)
  unfolding sent
  sent-true noisy st (ok done, s) h = refl
  sent-true true st (throw e, s) h =
      absurd
        (reported-false st (report st.handlers.error (txt "Subscription error: " ++ what e) s) h)
  sent-true false st (throw e, s) h = cc

  send_if-true :
      (noisy : Bool) (ready : Stream D S → Bool) (request : Request) (st : Stream D S) (s : S)
      → (send_if socket token noisy ready request st s).0 ≡ ok true
      → (ready st ≡ true)
        × (socket.send request s ≡ (ok tt, (send_if socket token noisy ready request st s).2))
  unfolding send_if
  send_if-true noisy ready request st s h = elim (Bool-cases (ready st)) [
    | inl is_ready ↦
        (is_ready, rw is_ready (sent-true noisy st (socket.send request s) (rw is_ready at h)))
    | inr unready ↦ cc (rw unready at h)
  ]

  and_then-HasSent :
      (noisy : Bool) (ready : Stream D S → Bool) (request : Request) (r : Step D S (Unit {0}))
      → HasSent ready request (and_then r (send_if socket token noisy ready request))
  and_then-HasSent noisy ready request (ok done, st, s) h =
      let (is_ready, e) = send_if-true noisy ready request st s h in
      (s, ap ready (send_if-kept noisy ready request st s) ∙ is_ready, e)
  and_then-HasSent noisy ready request (throw e, st, s) h = cc

  subscribe-Same :
      (noisy : Bool) (ready : Stream D S → Bool) (request : Request) (st : Stream D S) (s : S)
      → Same st (subscribe socket token noisy ready request st s).1
  unfolding subscribe
  subscribe-Same noisy ready request st s =
      and_then-Same socket token st (connected_first socket token st s)
        (send_if socket token noisy ready request) (connected_first-Same socket token st s)
        (λ st' s'. (
          ap (λ (x : Stream D S). x.handlers) (send_if-kept noisy ready request st' s'),
          ap (λ (x : Stream D S). x.subscribed_symbols) (send_if-kept noisy ready request st' s'),
        ))

  subscribe-HasSent :
      (noisy : Bool) (ready : Stream D S → Bool) (request : Request) (st : Stream D S) (s : S)
      → HasSent ready request (subscribe socket token noisy ready request st s)
  unfolding subscribe
  subscribe-HasSent noisy ready request st s =
      and_then-HasSent noisy ready request (connected_first socket token st s)

  -- subscribeToTrades refuses a session that is not active, no symbols, and an empty handler: it
  -- returns false and changes nothing. Otherwise the handler and the symbols are stored, whether the
  -- call returns true, returns false or throws; and it returns true only if the service is then
  -- connected and the connection took the subscription to just these symbols.
  pub subscribe_to_trades-HasSent :
      (session : StreamSession) (symbols : List Text) (h : Handler (TradeEvent D) S)
      (st : Stream D S) (s : S)
      → let refused = not session.is_active || is_empty symbols || not (is_set h) in
        let (o, st', s') = subscribe_to_trades socket token session symbols h st s in
        (refused ≡ true → (o ≡ ok false) × (st' ≡ st) × (s' ≡ s))
        × (refused ≡ false
            → (st'.handlers.trade ≡ h)
              × (st'.subscribed_symbols ≡ insert_all symbols st.subscribed_symbols)
              × (o ≡ ok true
                  → (s'' : S) × ((st'.has_connection && st'.connected) ≡ true)
                    × (socket.send (Request.symbols_of (txt "trade") symbols) s'' ≡ (ok tt, s'))))
  unfolding subscribe_to_trades add_symbols
  subscribe_to_trades-HasSent session symbols h st s =
      let refused = not session.is_active || is_empty symbols || not (is_set h) in
      let ready : Stream D S → Bool = λ st'. st'.has_connection && st'.connected in
      let request = Request.symbols_of (txt "trade") symbols in
      let stored =
        add_symbols symbols (record st { handlers = record st.handlers { trade = h } }) in
      let accepted = subscribe socket token true ready request stored s in
      guarded refused (ok false, st, s) accepted (λ r. (r.0 ≡ ok false) × (r.1 ≡ st) × (r.2 ≡ s))
        (λ r.
          (r.1.handlers.trade ≡ h)
          × (r.1.subscribed_symbols ≡ insert_all symbols st.subscribed_symbols)
          × HasSent ready request r)
        (refl, refl, refl)
        (
          ap (λ (x : Handlers D S). x.trade) (subscribe-Same true ready request stored s).0,
          (subscribe-Same true ready request stored s).1,
          subscribe-HasSent true ready request stored s,
        )
