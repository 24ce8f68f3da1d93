-- ===== src/Tests/Logs.antt =====
-- src/common/debug.cpp with a logger that is on and has a line in its queue.
use libtradier.Base.{◌≤◌, ◌≡◌, refl, true, false, List, [], ◌∷◌, ◌++◌, length, arith, inr}
use libtradier.Text.{txt}
use libtradier.Log.{Logger, Stamp, debug, error, enable_async_logging, max_queue_size}
use libtradier.Log.Reports.{log_http_request, perform_actions}
use libtradier.Log.Queue.{Act, call, turn, switch, run, all_accepted, run-Fifo, queue_left}
use libtradier.Log.Masking.{log_http_request-masked}

abbrev stamp : Stamp
stamp = record { time = txt "12:30:01"; millis = 7; thread = txt "140213" }

abbrev waiting : Logger
waiting = record {
  level = debug;
  enabled = true;
  async_logging = true;
  stop_logging = false;
  log_queue = txt "first" ∷ [];
  dropped_messages = 0;
}

abbrev acts : List Act
acts = call error (txt "second") stamp ∷ turn ∷ call debug (txt "third") stamp ∷ turn ∷ []

run-Fifo_example :
    let (logger, lines) = run acts waiting in
    (lines ++ logger.log_queue ≡ waiting.log_queue ++ all_accepted acts waiting)
    × (length logger.log_queue ≤ max_queue_size)
run-Fifo_example = run-Fifo acts waiting (omega arith)

queue_left_example :
    let off = enable_async_logging false waiting in
    ((run (turn ∷ switch false ∷ turn ∷ []) off).1 ≡ [])
    × ((run (turn ∷ switch false ∷ turn ∷ []) off).0.log_queue ≡ waiting.log_queue)
queue_left_example = queue_left (turn ∷ switch false ∷ turn ∷ []) waiting (tt, (tt, (tt, tt)))

log_http_request-masked_example :
    perform_actions
      (λ name. true)
      (λ n. stamp)
      (log_http_request
        (txt "GET")
        (txt "/v1/markets/clock")
        ((txt "Authorization", txt "Bearer 12345secret") ∷ [])
        (txt ""))
      0
      waiting
    ≡ perform_actions
        (λ name. true)
        (λ n. stamp)
        (log_http_request
          (txt "GET")
          (txt "/v1/markets/clock")
          ((txt "Authorization", txt "Bearer 12345other") ∷ [])
          (txt ""))
        0
        waiting
unfolding txt
log_http_request-masked_example =
    log_http_request-masked (λ name. true) (λ n. stamp) (txt "GET") (txt "/v1/markets/clock")
      (txt "") ((txt "Authorization", txt "Bearer 12345secret") ∷ [])
      ((txt "Authorization", txt "Bearer 12345other") ∷ []) 0 waiting ((refl, inr (refl, refl)), tt)
