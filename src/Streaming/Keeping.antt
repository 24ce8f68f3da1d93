-- ===== src/Streaming/Keeping.antt =====
-- What connect() of src/streaming.cpp leaves as it was: the handlers and the symbols.
use libtradier.Base.{◌≡◌, refl, ◌∙◌, Bool, true, false, ◌||◌, not, ◌++◌, if◌then◌else◌}
use libtradier.Text.{Text, txt}
use libtradier.Errors.{what, Outcome, ok, throw}
use libtradier.Streaming.Messages.{report}
use libtradier.Streaming.Threads.{ThreadManager, add_thread}
use libtradier.Streaming.Connection.{
  Stream, Socket, Step, and_then, made, with_outcome, began, start_heartbeat, switch_on,
  connect_socket, authorize_socket, open_connection, endpoint_of, give_up, catch_connect, connect,
}
use libtradier.Streaming.Subscriptions.{connected_first}

-- The handlers and the symbols of two states are the same.
abbrev pub Same : {D S : Type 0} → Stream D S → Stream D S → Type 0
Same st st' = (st'.handlers ≡ st.handlers) × (st'.subscribed_symbols ≡ st.subscribed_symbols)

module _ {D S : Type 0} (socket : Socket S) (token : Text) where
  pub and_then-Same :
      {A B : Type 0} (st : Stream D S) (r : Step D S A) (k : Stream D S → S → Step D S B)
      → Same st r.1
      → ((st' : Stream D S) (s' : S) → Same st' (k st' s').1)
      → Same st (and_then r k).1
  and_then-Same st (ok a, st', s') k same kept =
      ((kept st' s').0 ∙ same.0, (kept st' s').1 ∙ same.1)
  and_then-Same st (throw e, st', s') k same kept = same

  made-Same : (r : Outcome (Unit {0}) × S) (st : Stream D S) → Same st (made socket token r st).1
  unfolding made
  made-Same (ok done, s) st = (refl, refl)
  made-Same (throw e, s) st = (refl, refl)

  began-Same :
      (r : Bool × ThreadManager) (st : Stream D S) (s : S) → Same st (began socket token r st s).1
  unfolding began with_outcome
  began-Same (true, threads) st s = (refl, refl)
  began-Same (false, threads) st s = (refl, refl)

  switch_on-Same : (st : Stream D S) (s : S) → Same st (switch_on socket token st s).1
  unfolding switch_on start_heartbeat
  switch_on-Same st s =
      began-Same (add_thread (socket.starts s) st.thread_manager)
        (record st {
          connected = true;
          stats = record st.stats { connection_start = socket.now s };
        })
        s

  connect_socket-Same : (st : Stream D S) (s : S) → Same st (connect_socket socket token st s).1
  unfolding connect_socket with_outcome
  connect_socket-Same st s =
      and_then-Same st (with_outcome socket token st (socket.connect s)) (switch_on socket token)
        (refl, refl) switch_on-Same

  authorize_socket-Same : (st : Stream D S) (s : S) → Same st (authorize_socket socket token st s).1
  unfolding authorize_socket with_outcome
  authorize_socket-Same st s =
      and_then-Same st (with_outcome socket token st (socket.set_auth_token token s))
        (connect_socket socket token) (refl, refl) connect_socket-Same

  open_connection-Same : (st : Stream D S) (s : S) → Same st (open_connection socket token st s).1
  unfolding open_connection
  open_connection-Same st s =
      let r = socket.make (endpoint_of st.current_session.url) token s in
      and_then-Same st (made socket token r st) (authorize_socket socket token) (made-Same r st)
        authorize_socket-Same

  give_up-Same :
      (st : Stream D S) (r : Outcome (Unit {0}) × S) → Same st (give_up socket token st r).1
  unfolding give_up
  give_up-Same st (ok done, s) = (refl, refl)
  give_up-Same st (throw e, s) = (refl, refl)

  catch_connect-Same :
      (st : Stream D S) (r : Step D S (Unit {0}))
      → Same st r.1
      → Same st (catch_connect socket token r).1
  unfolding catch_connect
  catch_connect-Same st (ok done, st', s) same = same
  catch_connect-Same st (throw e, st', s) same =
      let kept =
        give_up-Same st' (report st'.handlers.error (txt "Connection error: " ++ what e) s) in
      (kept.0 ∙ same.0, kept.1 ∙ same.1)

  choose-Same :
      {A : Type 0} (b : Bool) (st : Stream D S) (x y : Step D S A)
      → Same st x.1
      → Same st y.1
      → Same st (if b then x else y).1
  choose-Same true st x y h k = h
  choose-Same false st x y h k = k

  connect-Same : (st : Stream D S) (s : S) → Same st (connect socket token st s).1
  unfolding connect
  connect-Same st s =
      choose-Same (st.connected || not st.current_session.is_active) st (ok tt, st, s)
        (catch_connect socket token (open_connection socket token st s)) (refl, refl)
        (catch_connect-Same st (open_connection socket token st s) (open_connection-Same st s))

  pub connected_first-Same :
      (st : Stream D S) (s : S) → Same st (connected_first socket token st s).1
  unfolding connected_first
  connected_first-Same st s =
      choose-Same st.connected st (ok tt, st, s) (connect socket token st s) (refl, refl)
        (connect-Same st s)
