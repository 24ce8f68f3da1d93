-- ===== src/WebSocket/Stranded.antt =====
-- The queue of send() in src/common/websocket_client.cpp.
use mathlib.Core.List.{append-nil}
use libtradier.Base.{◌≡◌, refl, sym, ◌⊎◌, inl, inr, true, List, [], ◌∷◌, ◌++◌, arith}
use libtradier.Text.{Text}
use libtradier.WebSocket.{
  Io, WebSocket, Step, Steps, web_socket, reading, closing, finished, writing, connect_busy,
  connect_idle, claim_lost, claim, launch, launch_failed, wait_done, wait_failed, disconnect_idle,
  disconnect_busy, close_stream, no_join, join, clear, send_connected, send_other, write,
  write_failed, send_connecting, send_refused, enqueue, set_token, io_open, io_flush, io_read,
  io_fail, io_leave, io_close, here, then,
}

-- The IO thread is past onConnect.
abbrev pub HasFlushed : Io → Type 0
HasFlushed io = (io ≡ reading) ⊎ (io ≡ closing) ⊎ (io ≡ finished)

-- What a step does to the queue and to the stream: the queue is added to at its end, or emptied; the
-- stream gets what a sender writes by itself.
abbrev pub LeavesQueue : WebSocket → WebSocket → Type 0
LeavesQueue w u =
    (((more : List Text) × (u.pending ≡ w.pending ++ more)) ⊎ (u.pending ≡ []))
    × ((u.written ≡ w.written)
        ⊎ ((message : Text) × (w.sender ≡ writing message)
            × (u.written ≡ w.written ++ message ∷ [])))

Step-LeavesQueue : {w u : WebSocket} → Step w u → HasFlushed w.io → LeavesQueue w u
Step-LeavesQueue (connect_busy c e) h = (inl ([], sym (append-nil _)), inl refl)
Step-LeavesQueue (connect_idle c e) h = (inl ([], sym (append-nil _)), inl refl)
Step-LeavesQueue (claim_lost c e) h = (inl ([], sym (append-nil _)), inl refl)
Step-LeavesQueue (claim c e) h = (inl ([], sym (append-nil _)), inl refl)
Step-LeavesQueue (launch c) h = (inl ([], sym (append-nil _)), inl refl)
Step-LeavesQueue (launch_failed c e) h = (inl ([], sym (append-nil _)), inl refl)
Step-LeavesQueue (wait_done c e) h = (inl ([], sym (append-nil _)), inl refl)
Step-LeavesQueue (wait_failed c e) h = (inl ([], sym (append-nil _)), inl refl)
Step-LeavesQueue (disconnect_idle c e) h = (inl ([], sym (append-nil _)), inl refl)
Step-LeavesQueue (disconnect_busy c e) h = (inl ([], sym (append-nil _)), inl refl)
Step-LeavesQueue (close_stream c) h = (inl ([], sym (append-nil _)), inl refl)
Step-LeavesQueue (no_join c e) h = (inl ([], sym (append-nil _)), inl refl)
Step-LeavesQueue (join c e) h = (inl ([], sym (append-nil _)), inl refl)
Step-LeavesQueue (clear c) h = (inr refl, inl refl)
Step-LeavesQueue (send_connected m c e) h = (inl ([], sym (append-nil _)), inl refl)
Step-LeavesQueue (send_other m c e) h = (inl ([], sym (append-nil _)), inl refl)
Step-LeavesQueue (write m c) h = (inl ([], sym (append-nil _)), inr (m, c, refl))
Step-LeavesQueue (write_failed m c) h = (inl ([], sym (append-nil _)), inl refl)
Step-LeavesQueue (send_connecting m c e) h = (inl ([], sym (append-nil _)), inl refl)
Step-LeavesQueue (send_refused m c e) h = (inl ([], sym (append-nil _)), inl refl)
Step-LeavesQueue (enqueue m c) h = (inl (m ∷ [], refl), inl refl)
Step-LeavesQueue (set_token t c e) h = (inl ([], sym (append-nil _)), inl refl)
Step-LeavesQueue (io_open e) h = (inl ([], sym (append-nil _)), inl refl)
Step-LeavesQueue (io_flush taken left e p) h = ground arith
Step-LeavesQueue (io_read e) h = (inl ([], sym (append-nil _)), inl refl)
Step-LeavesQueue (io_fail e) h = (inl ([], sym (append-nil _)), inl refl)
Step-LeavesQueue (io_leave e) h = (inl ([], sym (append-nil _)), inl refl)
Step-LeavesQueue (io_close e) h = (inl ([], sym (append-nil _)), inl refl)

-- A thread that sends while another one is in connect() may put its message into the queue after
-- onConnect has gone through it: the object is connected, and the message stays in the queue. No step
-- takes a message off the queue and writes it once the IO thread is past onConnect.
pub queue_stranded :
    (token message : Text)
    → ((w : WebSocket) × Steps (web_socket token) w
        × (w.connected ≡ true)
        × HasFlushed w.io
        × (w.pending ≡ message ∷ [])
        × (w.written ≡ []))
      × ((w u : WebSocket) → Step w u → HasFlushed w.io → LeavesQueue w u)
unfolding web_socket
queue_stranded token message = (
  (
    _,
    then
        (then
          (then
            (then
              (then
                (then (then (then here (connect_idle refl refl)) (claim refl refl)) (launch refl))
                (send_other message refl refl))
              (send_connecting message refl refl))
            (io_open refl))
          (io_flush [] [] refl refl))
        (enqueue message refl),
    refl,
    inl refl,
    refl,
    refl,
  ),
  λ w u st h. Step-LeavesQueue st h,
)
