-- ===== src/WebSocket.antt =====
-- WebSocketImpl of src/common/websocket_client.cpp: the threads that call it and its IO thread. A step
-- is a part of a call that the model does not cut further: the test of both flags at the start of
-- connect() and of disconnect(), the compare-exchange, the start of the thread, what onConnect and
-- onClose store, a pass over the queue, and what disconnect() clears at its end are one step each, so
-- that interleavings inside these are not covered. Boost's stream is what is written to it and when it closes; the address, the
-- TLS settings and the logging are left out. One thread calls connect, disconnect and setAuthToken, and
-- another one send.
pub mod Invariant
pub mod Closed
pub mod Stranded
use libtradier.Base.{
  ◌≡◌, ◌≢◌, Bool, true, false, ◌||◌, not, List, [], ◌∷◌, ◌++◌, ◌==◌, if◌then◌else◌,
}
use libtradier.Text.{Text, txt}
use libtradier.Config.{Config, ws_url}

-- The IO thread: no thread, before onConnect, in onConnect with the flags set, in the reading loop,
-- before onClose, and at its end but not joined.
pub data Io : Type 0 where
  unstarted starting flushing reading closing finished : Io

-- The caller: outside every call, then in connect() before and after the compare-exchange and in the
-- wait, and in disconnect() before the join, at it, and after it.
pub data Caller : Type 0 where
  outside claiming launching waiting stopping joining clearing : Caller

-- A thread in send(): outside it, or in it with its message.
pub data Sender : Type 0 where
  idle : Sender
  checking queueing writing : Text → Sender

pub record WebSocket : Type 0 where
  pub connected : Bool
  pub connecting : Bool
  pub should_stop : Bool
  pub auth_token : Text
  pub io : Io
  pub caller : Caller
  pub sender : Sender
  -- pendingMessages_
  pub pending : List Text
  -- what has been written to the stream
  pub written : List Text

-- A new object
unfoldable pub web_socket : Text → WebSocket
web_socket token = record {
  connected = false;
  connecting = false;
  should_stop = false;
  auth_token = token;
  io = unstarted;
  caller = outside;
  sender = idle;
  pending = [];
  written = [];
}

-- ioThread_.joinable()
abbrev pub joinable : Io → Bool
joinable unstarted = false
joinable _ = true

-- if (!ioThread_.joinable()) ioThread_ = std::thread(...)
abbrev pub launched : Io → Io
launched unstarted = starting
launched io = io

-- Any thread may take a step; what the network does is left open. connect() waits for 30 seconds at
-- most, so its wait may end at any time.
pub data Step (w : WebSocket) : WebSocket → Type 0 where
  connect_busy : w.caller ≡ outside → (w.connected || w.connecting) ≡ true → Step w w
  connect_idle :
      w.caller ≡ outside
      → (w.connected || w.connecting) ≡ false
      → Step w (record w { caller = claiming })
  claim_lost : w.caller ≡ claiming → w.connecting ≡ true → Step w (record w { caller = outside })
  claim :
      w.caller ≡ claiming
      → w.connecting ≡ false
      → Step w (record w { connecting = true; caller = launching })
  launch :
      w.caller ≡ launching
      → Step w (record w { should_stop = false; io = launched w.io; caller = waiting })
  -- The constructor of std::thread threw: ConnectionError
  launch_failed :
      w.caller ≡ launching
      → w.io ≡ unstarted
      → Step w (record w { should_stop = false; connecting = false; caller = outside })
  wait_done : w.caller ≡ waiting → w.connected ≡ true → Step w (record w { caller = outside })
  -- ConnectionError
  wait_failed :
      w.caller ≡ waiting
      → w.connected ≡ false
      → Step w (record w { connecting = false; caller = outside })
  disconnect_idle : w.caller ≡ outside → (w.connected || w.connecting) ≡ false → Step w w
  disconnect_busy :
      w.caller ≡ outside
      → (w.connected || w.connecting) ≡ true
      → Step w (record w { should_stop = true; caller = stopping })
  -- The stream is closed, if it is open, and the wait for onClose ends, after 5 seconds at most.
  close_stream : w.caller ≡ stopping → Step w (record w { caller = joining })
  no_join : w.caller ≡ joining → w.io ≡ unstarted → Step w (record w { caller = clearing })
  join :
      w.caller ≡ joining → w.io ≡ finished → Step w (record w { io = unstarted; caller = clearing })
  clear :
      w.caller ≡ clearing
      → Step w (record w { connected = false; connecting = false; pending = []; caller = outside })
  send_connected :
      (message : Text)
      → w.sender ≡ idle
      → w.connected ≡ true
      → Step w (record w { sender = writing message })
  send_other :
      (message : Text)
      → w.sender ≡ idle
      → w.connected ≡ false
      → Step w (record w { sender = checking message })
  write :
      (message : Text)
      → w.sender ≡ writing message
      → Step w (record w { written = w.written ++ message ∷ []; sender = idle })
  -- ConnectionError
  write_failed : (message : Text) → w.sender ≡ writing message → Step w (record w { sender = idle })
  send_connecting :
      (message : Text)
      → w.sender ≡ checking message
      → w.connecting ≡ true
      → Step w (record w { sender = queueing message })
  -- ConnectionError
  send_refused :
      (message : Text)
      → w.sender ≡ checking message
      → w.connecting ≡ false
      → Step w (record w { sender = idle })
  enqueue :
      (message : Text)
      → w.sender ≡ queueing message
      → Step w (record w { pending = w.pending ++ message ∷ []; sender = idle })
  -- setAuthToken; it throws a ValidationError while connected or connecting.
  set_token :
      (token : Text)
      → w.caller ≡ outside
      → (w.connected || w.connecting) ≡ false
      → Step w (record w { auth_token = token })
  -- onConnect: the flags, and then what the lock makes one step: the messages that could be written are
  -- taken off the queue.
  io_open :
      w.io ≡ starting → Step w (record w { connected = true; connecting = false; io = flushing })
  io_flush :
      (taken left : List Text)
      → w.io ≡ flushing
      → w.pending ≡ taken ++ left
      → Step w (record w { written = w.written ++ taken; pending = left; io = reading })
  io_read : w.io ≡ reading → Step w w
  -- An exception before onConnect, and the end of the reading loop, by a call to stop, an error, or the
  -- other side.
  io_fail : w.io ≡ starting → Step w (record w { io = closing })
  io_leave : w.io ≡ reading → Step w (record w { io = closing })
  -- onClose
  io_close :
      w.io ≡ closing → Step w (record w { connected = false; connecting = false; io = finished })

pub data Steps (w : WebSocket) : WebSocket → Type 0 where
  here : Steps w w
  then : {t u : WebSocket} → Steps w t → Step t u → Steps w u

-- The address that WebSocketClient::connect makes.
unfoldable pub socket_url : Config → Text → Text
socket_url config [] = ws_url config
socket_url config (c ∷ endpoint) =
    (if c == b'/' then ws_url config else ws_url config ++ txt "/") ++ c ∷ endpoint
