-- ===== src/Tests/Requests.antt =====
-- src/common/http_client.cpp against a server that is busy once.
use libtradier.Base.{
  ℕ, ◌+◌, ◌*◌, ◌≡◌, ◌≢◌, refl, true, ◌==◌, if◌then◌else◌, none, some, [], ◌∷◌, arith, inr,
}
use libtradier.Text.{txt}
use libtradier.Int.{ℤ}
use libtradier.Errors.{Outcome, ok}
use libtradier.Http.{Response, Method, Transfer, success, build_request, receive}
use libtradier.RateLimiter.{try_acquire, try_all, wait_for_slot}
use libtradier.HttpClient.{
  HttpClient, Net, no_statistics, attempt_loop, perform_request, after_slot, acquire_slot, waited,
  settle, asks_retry,
}
use libtradier.RateLimiter.Waiting.{calls_in}
use libtradier.HttpClient.Retries.{Stopped, attempt_loop-Stopped}
use libtradier.HttpClient.Accounting.{Accounted, perform_request-Accounted}
use libtradier.HttpClient.Ending.{perform_request-ne-none}

-- The world counts the transfers; the first one is answered with 503.
abbrev busy_once : Net ℕ
busy_once = record {
  transfer = λ request s. (Transfer.received (if s == 0 then 503 else 200) (txt "{}") [], s + 1);
  escape = λ t. some t;
  now = λ s. (s, s);
  readings = λ s i. (i * 7, i * 7);
  others = λ s i. if i == 1 then 3 ∷ [] else [];
  after_wait = λ turn s. s;
  sleep = λ delay s. s;
}

abbrev constant : ℕ → ℕ → ℕ → ℕ
constant delay multiplier attempts = delay

abbrev client : HttpClient ℕ
client = record {
  config = record {
    access_token = txt "abc";
    account_number = txt "";
    sandbox_mode = true;
    timeout_seconds = ℤ.pos 30;
  };
  limiter = record { window_start = 0; request_count = 2; max_requests = 2; window_duration = 10 };
  rate_limit_enabled = true;
  max_retries = 3;
  initial_retry_delay = 1000;
  backoff_multiplier = 2;
  retries_enabled = true;
  stats = no_statistics;
}

attempt_loop-Stopped_example :
    (k : ℕ) × Stopped constant busy_once Method.get
      (txt "/orders")
      []
      3
      0
      k
      (client, 0)
      (attempt_loop constant busy_once 3 0 Method.get (txt "/orders") [] client 0)
attempt_loop-Stopped_example =
    attempt_loop-Stopped constant busy_once Method.get (txt "/orders") [] 3 0 client 0

perform_request-ne-none_example :
    perform_request constant busy_once 5 Method.get (txt "/orders") [] client 0 ≢ none
unfolding calls_in
perform_request-ne-none_example =
    perform_request-ne-none constant busy_once 5 2 Method.get (txt "/orders") [] client 0
      (inr (omega arith, omega arith, omega arith, omega arith))

-- The request waits for the next window, is sent twice, and succeeds.
abbrev exchange : Outcome Response × HttpClient ℕ × ℕ
exchange = (
  ok (record { status = 200; body = txt "{}"; headers = [] }),
  record client {
    limiter = record {
      window_start = 14;
      request_count = 1;
      max_requests = 2;
      window_duration = 10;
    };
    stats = record {
      total_requests = 1;
      successful_requests = 1;
      failed_requests = 0;
      rate_limited_requests = 1;
      retried_requests = 1;
      total_latency = 2;
    };
  },
  2,
)

exchange_test :
    perform_request constant busy_once 5 Method.get (txt "/orders") [] client 0 ≡ some exchange
unfolding perform_request txt after_slot acquire_slot try_acquire try_all waited wait_for_slot
    settle attempt_loop build_request receive asks_retry success
exchange_test = refl

perform_request-Accounted_example :
    Accounted constant busy_once Method.get (txt "/orders") [] client exchange
perform_request-Accounted_example =
    perform_request-Accounted constant busy_once Method.get (txt "/orders") [] 5 client 0 exchange
      exchange_test
