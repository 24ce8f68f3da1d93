-- ===== src/Streaming/Heartbeats.antt =====
-- The heartbeat thread of a StreamingService of src/streaming.cpp over any sequence of its calls.
use libtradier.Base.{◌≤◌, ◌<◌, ◌≡◌, ap, ◌⊎◌, Bool, true, false, List, [], length, arith}
use libtradier.Text.{Text, txt}
use libtradier.Streaming.Messages.{report}
use libtradier.Streaming.Threads.{ThreadManager, thread_manager, add_thread, stop}
use libtradier.Streaming.Connection.{
  Stream, Socket, stream, disconnect, start_heartbeat, switch_on, with_outcome, began,
}
use libtradier.Streaming.Lifecycle.{Move, started, refused, stopped, Moves, stay, next}
use libtradier.Streaming.Calls.{Call, apply_all, apply_all-Runs}

-- The manager has been stopped, and has no thread.
abbrev IsStopped : ThreadManager → Type 0
IsStopped m = (m.should_stop ≡ true) × (m.threads ≡ [])

Move-IsStopped : {c d : Bool} {m n : ThreadManager} → Move c m d n → IsStopped m → IsStopped n
unfolding add_thread stop
Move-IsStopped (started starts fine) h = ground arith
Move-IsStopped (refused starts c failed) h = ground arith
Move-IsStopped stopped h = ground arith

Moves-IsStopped :
    {c : Bool} {m : ThreadManager} {d : Bool} {n : ThreadManager}
    → Moves c m d n
    → IsStopped m
    → IsStopped n
Moves-IsStopped stay h = h
Moves-IsStopped (next r move) h = Move-IsStopped move (Moves-IsStopped r h)

add_thread-IsStopped :
    (starts : Bool) (m : ThreadManager) → IsStopped m → add_thread starts m ≡ (false, m)
unfolding add_thread
add_thread-IsStopped starts m h = ground arith

-- No thread, or one that runs while the flag is on; a manager that has been stopped has none.
record IsTidy (c : Bool) (m : ThreadManager) : Type 0 where
  few : (m.threads ≡ []) ⊎ ((length m.threads ≡ 1) × (c ≡ true))
  ended : m.should_stop ≡ true → m.threads ≡ []

Move-IsTidy : {c d : Bool} {m n : ThreadManager} → Move c m d n → IsTidy c m → IsTidy d n
unfolding add_thread stop
Move-IsTidy (started starts fine) h = ground arith
Move-IsTidy (refused starts c failed) h = ground arith
Move-IsTidy stopped h = ground arith

Moves-IsTidy :
    {c : Bool} {m : ThreadManager} {d : Bool} {n : ThreadManager}
    → Moves c m d n
    → IsTidy c m
    → IsTidy d n
Moves-IsTidy stay h = h
Moves-IsTidy (next r move) h = Move-IsTidy move (Moves-IsTidy r h)

new-IsTidy : IsTidy false thread_manager
unfolding thread_manager
new-IsTidy = ground arith

module _ {D S : Type 0} (socket : Socket S) (token : Text) where
  apply_all-IsTidy :
      (calls : List (Call D S)) (s : S)
      → let st = (apply_all socket token calls stream s).0 in IsTidy st.connected st.thread_manager
  unfolding stream
  apply_all-IsTidy calls s = Moves-IsTidy (apply_all-Runs socket token calls stream s) new-IsTidy

  -- After any calls of a new service there is at most one heartbeat thread, and if there is one, the
  -- service is connected.
  pub heartbeat_single :
      (calls : List (Call D S)) (s : S)
      → let st = (apply_all socket token calls stream s).0 in
        (length st.thread_manager.threads ≤ 1)
        × (0 < length st.thread_manager.threads → st.connected ≡ true)
  heartbeat_single calls s = ground (arith, apply_all-IsTidy calls s)

  disconnect-IsStopped :
      (st : Stream D S) (s : S)
      → IsTidy st.connected st.thread_manager
      → IsStopped (disconnect socket token st s).0.thread_manager
  unfolding disconnect stop
  disconnect-IsStopped st s h = ground arith

  start_heartbeat-refused :
      (st : Stream D S) (s : S)
      → IsStopped st.thread_manager
      → start_heartbeat socket token st s
        ≡ with_outcome socket token st
            (report st.handlers.error (txt "Failed to start heartbeat thread") s)
  unfolding start_heartbeat began
  start_heartbeat-refused st s h =
      ap (λ r. began socket token r st s)
        (add_thread-IsStopped (socket.starts s) st.thread_manager h)

  -- Once a service has been disconnected, it has no heartbeat thread any more, whatever is called
  -- before and after: what a later connect() does once its websocket is connected is to set the flag
  -- and the time, to start no thread, and to hand 'Failed to start heartbeat thread' to the error
  -- handler.
  pub heartbeat_gone :
      (before after : List (Call D S)) (s : S)
      → let (st, s') = apply_all socket token before stream s in
        let (ended, s'') = disconnect socket token st s' in
        let st' = (apply_all socket token after ended s'').0 in
        (st'.thread_manager.threads ≡ [])
        × ((s : S)
            → switch_on socket token st' s
              ≡ with_outcome socket token
                  (record st' {
                    connected = true;
                    stats = record st'.stats { connection_start = socket.now s };
                  })
                  (report st'.handlers.error (txt "Failed to start heartbeat thread") s))
  unfolding switch_on
  heartbeat_gone before after s =
      let (st, s') = apply_all socket token before stream s in
      let (ended, s'') = disconnect socket token st s' in
      let st' = (apply_all socket token after ended s'').0 in
      let gone : IsStopped st'.thread_manager =
        Moves-IsStopped (apply_all-Runs socket token after ended s'')
          (disconnect-IsStopped st s' (apply_all-IsTidy before s)) in
      (gone.1, λ s. start_heartbeat-refused _ s gone)
