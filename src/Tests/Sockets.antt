-- ===== src/Tests/Sockets.antt =====
-- src/common/websocket_client.cpp: a connection that the other side closes.
use libtradier.Base.{◌≡◌, refl, ◌||◌, true, false, [], ◌∷◌}
use libtradier.Text.{txt}
use libtradier.WebSocket.{
  WebSocket, Step, Steps, web_socket, joinable, outside, connect_idle, claim, launch, wait_done,
  io_open, io_flush, io_leave, io_close, here, then,
}
use libtradier.WebSocket.Invariant.{IsSound, Steps-IsSound}
use libtradier.WebSocket.Closed.{closed_for_good}
use libtradier.WebSocket.Stranded.{HasFlushed, LeavesQueue, queue_stranded}

record Run : Type 0 where
  last : WebSocket
  steps : Steps (web_socket (txt "abc")) last

-- connect() succeeds, and the other side closes the connection.
abbrev closed : Run
unfolding web_socket
closed = record {
  last = _;
  steps =
      then
        (then
          (then
            (then
              (then
                (then (then (then here (connect_idle refl refl)) (claim refl refl)) (launch refl))
                (io_open refl))
              (io_flush [] [] refl refl))
            (wait_done refl refl))
          (io_leave refl))
        (io_close refl);
}

Steps-IsSound_example : IsSound closed.last
Steps-IsSound_example = Steps-IsSound (txt "abc") closed.steps

closed_for_good_example :
    (closed.last.connected ≡ false)
    × (joinable closed.last.io ≡ true)
    × (closed.last.caller ≡ outside → (closed.last.connected || closed.last.connecting) ≡ false)
unfolding web_socket
closed_for_good_example = closed_for_good (txt "abc") closed.steps refl refl here

queue_stranded_example :
    ((w : WebSocket) × Steps (web_socket (txt "abc")) w
      × (w.connected ≡ true)
      × HasFlushed w.io
      × (w.pending ≡ txt "hello" ∷ [])
      × (w.written ≡ []))
    × ((w u : WebSocket) → Step w u → HasFlushed w.io → LeavesQueue w u)
queue_stranded_example = queue_stranded (txt "abc") (txt "hello")
