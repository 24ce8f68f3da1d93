-- ===== src/Log/Queue.antt =====
-- The queue of the class Logger of src/common/debug.cpp, between the calls and the log thread.
use mathlib.Core.List.{append-nil, append_assoc}
use libtradier.Base.{
  ◌≤◌, ◌≡◌, refl, sym, ap, ◌∙◌, Bool, true, false, ◌&&◌, ◌||◌, not, List, [], ◌∷◌, ◌++◌, leb, ltb,
  if◌then◌else◌, length, length-append, All, Bool-cases, inl, inr, arith,
}
use libtradier.Text.{Text}
use libtradier.Log.{
  Level, rank, Logger, Stamp, log_line, max_queue_size, emit, log, set_level, set_enabled,
  enable_async_logging, reset_dropped_message_count, write_front, process_line,
}

-- A call of the logger, or a turn of the log thread
pub data Act : Type 0 where
  call : Level → Text → Stamp → Act
  turn : Act
  switch : Bool → Act
  to_level : Level → Act
  to_enabled : Bool → Act
  reset : Act

-- What the act makes of the logger; the lines are those that the log thread writes.
unfoldable pub act : Act → Logger → Logger × List Text
unfolding log set_level set_enabled enable_async_logging reset_dropped_message_count process_line
act (call level message stamp) logger = ((log level message stamp logger).0, [])
act turn logger = process_line logger
act (switch on) logger = (enable_async_logging on logger, [])
act (to_level l) logger = (set_level l logger, [])
act (to_enabled on) logger = (set_enabled on logger, [])
act reset logger = (reset_dropped_message_count logger, [])

unfoldable pub run : List Act → Logger → Logger × List Text
unfolding act
run [] logger = (logger, [])
run (a ∷ acts) logger =
    let (logger', lines) = act a logger in
    let (logger'', more) = run acts logger' in (logger'', lines ++ more)

-- A call hands its line to the queue if the logger is on, its level is not above the logger's, and
-- the queue of the asynchronous log has room.
abbrev pub is_admitted : Level → Logger → Bool
is_admitted level logger =
    logger.enabled && leb (rank level) (rank logger.level) && logger.async_logging

unfoldable pub accepted : Act → Logger → List Text
accepted (call level message stamp) logger =
    if is_admitted level logger && ltb (length logger.log_queue) max_queue_size
    then log_line level message stamp ∷ []
    else []
accepted a logger = []

unfoldable pub all_accepted : List Act → Logger → List Text
all_accepted [] logger = []
all_accepted (a ∷ acts) logger = accepted a logger ++ all_accepted acts (act a logger).0

call-Fifo :
    (level : Level) (message : Text) (stamp : Stamp) (logger : Logger)
    → (log level message stamp logger).0.log_queue
      ≡ logger.log_queue ++ accepted (call level message stamp) logger
unfolding log emit accepted
call-Fifo level message stamp logger = ground (arith, append-nil logger.log_queue)

front-Fifo :
    (logger : Logger) (queue : List Text)
    → queue ≡ logger.log_queue
    → (write_front logger queue).1 ++ (write_front logger queue).0.log_queue ≡ queue
unfolding write_front
front-Fifo logger [] e = sym e
front-Fifo logger (line ∷ lines) e = refl

turn-Fifo :
    (logger : Logger)
    → (process_line logger).1 ++ (process_line logger).0.log_queue ≡ logger.log_queue
unfolding process_line
turn-Fifo logger = elim (Bool-cases (not logger.async_logging || logger.stop_logging)) [
  | inl off ↦ rw off
  | inr on ↦ rw on (front-Fifo logger logger.log_queue refl)
]

switch-queue :
    (on : Bool) (logger : Logger) → (enable_async_logging on logger).log_queue ≡ logger.log_queue
unfolding enable_async_logging
switch-queue true logger = ground arith
switch-queue false logger = ground arith

act-Fifo :
    (a : Act) (logger : Logger)
    → let (logger', lines) = act a logger in
      lines ++ logger'.log_queue ≡ logger.log_queue ++ accepted a logger
unfolding act accepted
act-Fifo (call level message stamp) logger = call-Fifo level message stamp logger
act-Fifo turn logger = turn-Fifo logger ∙ sym (append-nil _)
act-Fifo (switch on) logger = switch-queue on logger ∙ sym (append-nil _)
act-Fifo (to_level l) logger = sym (append-nil _)
act-Fifo (to_enabled on) logger = sym (append-nil _)
act-Fifo reset logger = sym (append-nil _)

-- Of a queue that is not too long
call-le :
    (level : Level) (message : Text) (stamp : Stamp) (logger : Logger)
    → length logger.log_queue ≤ max_queue_size
    → length (log level message stamp logger).0.log_queue ≤ max_queue_size
unfolding log emit
call-le level message stamp logger h =
    ground (arith, length-append logger.log_queue (log_line level message stamp ∷ []))

front-le :
    (logger : Logger) (queue : List Text)
    → queue ≡ logger.log_queue
    → length (write_front logger queue).0.log_queue ≤ length queue
unfolding write_front
front-le logger [] e = rw (← e) (omega arith)
front-le logger (line ∷ lines) e = omega arith

turn-le : (logger : Logger) → length (process_line logger).0.log_queue ≤ length logger.log_queue
unfolding process_line
turn-le logger = elim (Bool-cases (not logger.async_logging || logger.stop_logging)) [
  | inl off ↦ rw off (omega arith)
  | inr on ↦ rw on (front-le logger logger.log_queue refl)
]

act-le :
    (a : Act) (logger : Logger)
    → length logger.log_queue ≤ max_queue_size
    → length (act a logger).0.log_queue ≤ max_queue_size
unfolding act
act-le (call level message stamp) logger h = call-le level message stamp logger h
act-le turn logger h = omega (arith, turn-le logger)
act-le (switch on) logger h = rw (switch-queue on logger) h
act-le (to_level l) logger h = h
act-le (to_enabled on) logger h = h
act-le reset logger h = h

-- However calls and turns of the log thread alternate, the lines that the thread writes, followed by
-- those that still wait, are those that waited at first, followed by the accepted ones, in their
-- order; and from a queue of at most 10000 lines on there are never more. A line is accepted exactly
-- if the logger is on and asynchronous, the level of the call is not above the logger's, and the queue
-- has room.
pub run-Fifo :
    (acts : List Act) (logger : Logger)
    → length logger.log_queue ≤ max_queue_size
    → let (logger', lines) = run acts logger in
      (lines ++ logger'.log_queue ≡ logger.log_queue ++ all_accepted acts logger)
      × (length logger'.log_queue ≤ max_queue_size)
unfolding run all_accepted
run-Fifo [] logger h = (sym (append-nil _), h)
run-Fifo (a ∷ acts) logger h =
    let (fifo, bound) = run-Fifo acts (act a logger).0 (act-le a logger h) in
    (
      append_assoc (act a logger).1 _ _
          ∙ ap (λ t. (act a logger).1 ++ t) fifo
          ∙ sym (append_assoc (act a logger).1 _ _)
          ∙ ap (λ t. t ++ all_accepted acts (act a logger).0) (act-Fifo a logger)
          ∙ append_assoc logger.log_queue _ _,
      bound,
    )

switched_off : (logger : Logger) → (enable_async_logging false logger).async_logging ≡ false
unfolding enable_async_logging
switched_off logger = ground arith

-- Every act but one that switches the asynchronous log on
abbrev pub LeavesOff : Act → Type 0
LeavesOff (switch true) = ⊥
LeavesOff a = Unit {0}

act-off :
    (a : Act) (logger : Logger)
    → LeavesOff a
    → logger.async_logging ≡ false
    → let (logger', lines) = act a logger in
      (lines ≡ []) × (logger'.log_queue ≡ logger.log_queue) × (logger'.async_logging ≡ false)
unfolding act log emit process_line enable_async_logging
act-off (call level message stamp) logger leaves off = ground arith
act-off turn logger leaves off = rw (off, process_line) (refl, refl, refl)
act-off (switch true) logger leaves off = absurd leaves
act-off (switch false) logger leaves off = ground arith
act-off (to_level l) logger leaves off = (refl, refl, off)
act-off (to_enabled on) logger leaves off = (refl, refl, off)
act-off reset logger leaves off = (refl, refl, off)

run-off :
    (acts : List Act) (logger : Logger)
    → All LeavesOff acts
    → logger.async_logging ≡ false
    → ((run acts logger).1 ≡ []) × ((run acts logger).0.log_queue ≡ logger.log_queue)
unfolding run
run-off [] logger leaves off = (refl, refl)
run-off (a ∷ acts) logger (leave, leaves) off =
    let (quiet, same, off') = act-off a logger leave off in
    let (quiet', same') = run-off acts (act a logger).0 leaves off' in
    (rw (quiet, quiet') refl, same' ∙ same)

-- A line that still waits when the asynchronous log is switched off, as configureDebugLogging and the
-- destructor do, is not written: until it is switched on again, whatever is called, the log thread
-- writes nothing and the queue stays as it is.
pub queue_left :
    (acts : List Act) (logger : Logger)
    → All LeavesOff acts
    → let off = enable_async_logging false logger in
      ((run acts off).1 ≡ []) × ((run acts off).0.log_queue ≡ logger.log_queue)
queue_left acts logger leaves =
    let (quiet, same) =
      run-off acts (enable_async_logging false logger) leaves (switched_off logger) in
    (quiet, same ∙ switch-queue false logger)
