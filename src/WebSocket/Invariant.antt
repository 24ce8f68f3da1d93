-- ===== src/WebSocket/Invariant.antt =====
-- What holds of a WebSocketImpl of src/common/websocket_client.cpp between any two steps.
use libtradier.Base.{◌≡◌, ◌⊎◌, true, arith}
use libtradier.Text.{Text}
use libtradier.WebSocket.{
  Io, Caller, WebSocket, Step, Steps, web_socket, flushing, reading, closing, launching, waiting,
  stopping, joining, clearing, connect_busy, connect_idle, claim_lost, claim, launch, launch_failed,
  wait_done, wait_failed, disconnect_idle, disconnect_busy, close_stream, no_join, join, clear,
  send_connected, send_other, write, write_failed, send_connecting, send_refused, enqueue,
  set_token, io_open, io_flush, io_read, io_fail, io_leave, io_close, here, then,
}

-- The IO thread is between onConnect and onClose.
abbrev pub IsOpen : Io → Type 0
IsOpen io = (io ≡ flushing) ⊎ (io ≡ reading) ⊎ (io ≡ closing)

-- The caller is in connect(), with the flag set, or in disconnect().
abbrev pub IsBusy : Caller → Type 0
IsBusy c = (c ≡ launching) ⊎ (c ≡ waiting) ⊎ (c ≡ stopping) ⊎ (c ≡ joining) ⊎ (c ≡ clearing)

pub record IsSound (w : WebSocket) : Type 0 where
  pub connected_open : w.connected ≡ true → IsOpen w.io
  pub connecting_busy : w.connecting ≡ true → IsBusy w.caller ⊎ IsOpen w.io

pub Step-IsSound : {w u : WebSocket} → Step w u → IsSound w → IsSound u
Step-IsSound (connect_busy c e) h = h
Step-IsSound (connect_idle c e) h = ground arith
Step-IsSound (claim_lost c e) h = ground arith
Step-IsSound (claim c e) h = ground arith
Step-IsSound {w} (launch c) h = ground arith
Step-IsSound (launch_failed c e) h = ground arith
Step-IsSound (wait_done c e) h = ground arith
Step-IsSound (wait_failed c e) h = ground arith
Step-IsSound (disconnect_idle c e) h = h
Step-IsSound (disconnect_busy c e) h = ground arith
Step-IsSound (close_stream c) h = ground arith
Step-IsSound (no_join c e) h = ground arith
Step-IsSound (join c e) h = ground arith
Step-IsSound (clear c) h = ground arith
Step-IsSound (send_connected m c e) h = ground arith
Step-IsSound (send_other m c e) h = ground arith
Step-IsSound (write m c) h = ground arith
Step-IsSound (write_failed m c) h = ground arith
Step-IsSound (send_connecting m c e) h = ground arith
Step-IsSound (send_refused m c e) h = ground arith
Step-IsSound (enqueue m c) h = ground arith
Step-IsSound (set_token t c e) h = ground arith
Step-IsSound (io_open e) h = ground arith
Step-IsSound (io_flush taken left e p) h = ground arith
Step-IsSound (io_read e) h = h
Step-IsSound (io_fail e) h = ground arith
Step-IsSound (io_leave e) h = ground arith
Step-IsSound (io_close e) h = ground arith

-- However the caller and the IO thread interleave, from a new object on: `connected` is on only while
-- the IO thread is between onConnect and onClose, and `connecting` only then or while a call of
-- connect() or disconnect() is under way.
pub Steps-IsSound : (token : Text) {w : WebSocket} → Steps (web_socket token) w → IsSound w
unfolding web_socket
Steps-IsSound token here = ground arith
Steps-IsSound token (then r st) = Step-IsSound st (Steps-IsSound token r)
