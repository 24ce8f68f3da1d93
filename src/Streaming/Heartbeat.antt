-- ===== src/Streaming/Heartbeat.antt =====
-- The loop of the heartbeat thread in startHeartbeat of src/streaming.cpp, over what happens in its
-- turns. Times are the steady clock's ticks; the logging is left out.
pub mod Failures
use libtradier.Base.{
  ℕ, zero, suc, ◌+◌, ◌-◌, ◌≡◌, Bool, true, false, not, List, [], ◌∷◌, Option, none, some, leb, ltb,
  if◌then◌else◌,
}
use libtradier.Int.{next64}
use libtradier.Errors.{Exception, Outcome, ok, throw}

-- One turn: whether the loop goes on before and after it sleeps (connected and no call to stop),
-- whether there is a connection, what the send comes to, what the error handler comes to if it is
-- called, and the time after the send.
pub record Turn : Type 0 where
  pub before : Bool
  pub after : Bool
  pub connection : Bool
  pub send : Outcome (Unit {0})
  pub report : Outcome (Unit {0})
  pub time : ℕ

pub record Beat : Type 0 where
  pub heartbeat_count : ℕ
  pub error_count : ℕ
  pub last_successful_heartbeat : ℕ

pub data Ending : Type 0 where
  switched_off no_connection too_many_failures no_success_for_long : Ending
  -- The error handler threw; the thread's own handler catches it.
  handler_threw : Exception → Ending

-- The catch block; `none`: the loop goes on. `limit` is five minutes.
unfoldable pub after_failure : ℕ → Outcome (Unit {0}) → ℕ → Beat → Option Ending
after_failure limit (throw e) time beat = some (handler_threw e)
after_failure limit (ok done) time beat =
    if leb 3 beat.error_count
    then some too_many_failures
    else if ltb limit (time - beat.last_successful_heartbeat)
    then some no_success_for_long
    else none

unfoldable pub end_or : Option Ending → Beat → Option Ending × Beat → Option Ending × Beat
end_or none beat rest = rest
end_or (some ending) beat rest = (some ending, beat)

-- What the count is after the send.
unfoldable pub counted : Turn → Outcome (Unit {0}) → Beat → Beat
counted turn (ok done) beat = record {
  heartbeat_count = next64 beat.heartbeat_count;
  error_count = 0;
  last_successful_heartbeat = turn.time;
}
counted turn (throw e) beat = record beat { error_count = beat.error_count + 1 }

unfoldable pub after_send : ℕ → Turn → Outcome (Unit {0}) → Beat → Option Ending
unfolding after_failure
after_send limit turn (ok done) beat = none
after_send limit turn (throw e) beat = after_failure limit turn.report turn.time beat

-- The loop; `none`: it still runs after these turns.
unfoldable pub heartbeat_loop : ℕ → List Turn → Beat → Option Ending × Beat
unfolding counted after_send end_or
heartbeat_loop limit [] beat = (none, beat)
heartbeat_loop limit (turn ∷ turns) beat =
    let beat' = counted turn turn.send beat in
    let rest = heartbeat_loop limit turns beat' in
    if not turn.before
    then (some switched_off, beat)
    else if not turn.after
    then (some switched_off, beat)
    else if not turn.connection
    then (some no_connection, beat)
    else end_or (after_send limit turn turn.send beat') beat' rest
