-- ===== src/WebSocket/Closed.antt =====
-- A WebSocketImpl of src/common/websocket_client.cpp whose IO thread has ended by itself.
use libtradier.Base.{◌≡◌, ◌≢◌, ◌||◌, true, false, arith}
use libtradier.Text.{Text}
use libtradier.WebSocket.{
  Caller, WebSocket, Step, Steps, web_socket, finished, outside, stopping, joining, clearing,
  connect_busy, connect_idle, claim_lost, claim, launch, launch_failed, wait_done, wait_failed,
  disconnect_idle, disconnect_busy, close_stream, no_join, join, clear, send_connected, send_other,
  write, write_failed, send_connecting, send_refused, enqueue, set_token, io_open, io_flush,
  io_read, io_fail, io_leave, io_close, here, then, joinable,
}
use libtradier.WebSocket.Invariant.{IsSound, Step-IsSound, Steps-IsSound}

-- The caller is not in disconnect().
abbrev IsAway : Caller → Type 0
IsAway c = (c ≢ stopping) × (c ≢ joining) × (c ≢ clearing)

record IsDead (w : WebSocket) : Type 0 where
  ended : w.io ≡ finished
  away : IsAway w.caller
  sound : IsSound w

ended-Step : {w u : WebSocket} → Step w u → IsDead w → (u.io ≡ finished) × IsAway u.caller
ended-Step (connect_busy c e) h = ground arith
ended-Step (connect_idle c e) h = ground arith
ended-Step (claim_lost c e) h = ground arith
ended-Step (claim c e) h = ground arith
ended-Step (launch c) h = ground arith
ended-Step (launch_failed c e) h = ground arith
ended-Step (wait_done c e) h = ground arith
ended-Step (wait_failed c e) h = ground arith
ended-Step (disconnect_idle c e) h = ground arith
ended-Step (disconnect_busy c e) h = ground arith
ended-Step (close_stream c) h = ground arith
ended-Step (no_join c e) h = ground arith
ended-Step (join c e) h = ground arith
ended-Step (clear c) h = ground arith
ended-Step (send_connected m c e) h = ground arith
ended-Step (send_other m c e) h = ground arith
ended-Step (write m c) h = ground arith
ended-Step (write_failed m c) h = ground arith
ended-Step (send_connecting m c e) h = ground arith
ended-Step (send_refused m c e) h = ground arith
ended-Step (enqueue m c) h = ground arith
ended-Step (set_token t c e) h = ground arith
ended-Step (io_open e) h = ground arith
ended-Step (io_flush taken left e p) h = ground arith
ended-Step (io_read e) h = ground arith
ended-Step (io_fail e) h = ground arith
ended-Step (io_leave e) h = ground arith
ended-Step (io_close e) h = ground arith

Step-IsDead : {w u : WebSocket} → Step w u → IsDead w → IsDead u
Step-IsDead st h =
    let (ended, away) = ended-Step st h in
    record { ended = ended; away = away; sound = Step-IsSound st h.sound }

Steps-IsDead : {w u : WebSocket} → IsDead w → Steps w u → IsDead u
Steps-IsDead h here = h
Steps-IsDead h (then r st) = Step-IsDead st (Steps-IsDead h r)

dead_state :
    {u : WebSocket}
    → IsDead u
    → (u.connected ≡ false)
      × (joinable u.io ≡ true)
      × (u.caller ≡ outside → (u.connected || u.connecting) ≡ false)
dead_state h = ground arith

-- If the IO thread has come to its end while no call is under way, as it does when the other side
-- closes the connection, the object never works again: whatever is called later, it is not connected,
-- its thread is still joinable, and a disconnect() returns at once, also that of the destructor, so
-- that the destructor of std::thread ends the program.
pub closed_for_good :
    (token : Text) {w u : WebSocket}
    → Steps (web_socket token) w
    → w.io ≡ finished
    → w.caller ≡ outside
    → Steps w u
    → (u.connected ≡ false)
      × (joinable u.io ≡ true)
      × (u.caller ≡ outside → (u.connected || u.connecting) ≡ false)
closed_for_good token r ended out later = dead_state (
    Steps-IsDead (record { ended = ended; away = ground arith; sound = Steps-IsSound token r })
      later)
