-- ===== src/HttpClient.antt =====
-- The class HttpClient of src/common/http_client.cpp: its settings, its statistics, and
-- performRequest with its rate limit and its retries. The counters are 64-bit unsigned integers. The
-- network, the clock and the sleeping thread are the interface `Net`; a negative number of retries,
-- for which the loop is not entered at all, is left out.
pub mod Retries
pub mod Accounting
pub mod Ending
use libtradier.Base.{
  ℕ, zero, suc, ◌+◌, ◌-◌, ◌%◌, ◌^◌, ◌≡◌, refl, Bool, true, false, ◌||◌, List, [], ◌∷◌, Option, none,
  some, leb, ◌==◌, if◌then◌else◌,
}
use libtradier.Text.{Text, txt}
use libtradier.Errors.{Exception, Outcome, ok, throw}
use libtradier.FormMap.{FormMap}
use libtradier.Int.{next64}
use libtradier.Config.{Config}
use libtradier.Http.{Response, success, Method, HttpRequest, Transfer, build_request, receive}
use libtradier.RateLimiter.{RateLimiter, rate_limiter, try_acquire, try_all, wait_for_slot, Waited}

pub record Statistics : Type 0 where
  pub total_requests : ℕ
  pub successful_requests : ℕ
  pub failed_requests : ℕ
  pub rate_limited_requests : ℕ
  pub retried_requests : ℕ
  pub total_latency : ℕ

abbrev pub no_statistics : Statistics
no_statistics = record {
  total_requests = 0;
  successful_requests = 0;
  failed_requests = 0;
  rate_limited_requests = 0;
  retried_requests = 0;
  total_latency = 0;
}

-- `S` is the state of the world outside the client.
pub record Net (S : Type 0) : Type 0 where
  -- curl_easy_perform
  pub transfer : HttpRequest → S → Transfer × S
  -- curl_easy_escape
  pub escape : Text → Option Text
  -- steady_clock::now
  pub now : S → ℕ × S
  -- the clock as waitForSlot will read it, turn by turn, and the world after a turn
  pub readings : S → ℕ → ℕ × ℕ
  -- when other threads try for a slot of the same client: at 0 before waitForSlot has the lock, at
  -- i + 1 in the wait of its turn i
  pub others : S → ℕ → List ℕ
  pub after_wait : ℕ → S → S
  -- std::this_thread::sleep_for
  pub sleep : ℕ → S → S

-- `D` is the type double, and `backoff delay multiplier k` is delay * pow(multiplier, k) in whole
-- milliseconds.
pub record HttpClient (D : Type 0) : Type 0 where
  pub config : Config
  pub limiter : RateLimiter
  pub rate_limit_enabled : Bool
  pub max_retries : ℕ
  pub initial_retry_delay : ℕ
  pub backoff_multiplier : D
  pub retries_enabled : Bool
  pub stats : Statistics

module _ {D : Type 0} where
  -- Impl(config): 60 requests a minute, 3 retries, both switched off.
  unfoldable pub http_client : Config → D → ℕ → ℕ → HttpClient D
  http_client config two minute start = record {
    config = config;
    limiter = rate_limiter 60 minute start;
    rate_limit_enabled = false;
    max_retries = 3;
    initial_retry_delay = 1000;
    backoff_multiplier = two;
    retries_enabled = false;
    stats = no_statistics;
  }

  unfoldable pub set_rate_limit : HttpClient D → ℕ → ℕ → ℕ → HttpClient D
  set_rate_limit c max_requests window start = record c {
    limiter = rate_limiter max_requests window start;
  }

  unfoldable pub enable_rate_limit : HttpClient D → Bool → HttpClient D
  enable_rate_limit c enabled = record c { rate_limit_enabled = enabled }

  unfoldable pub set_retry_policy : HttpClient D → ℕ → ℕ → D → HttpClient D
  set_retry_policy c max_retries delay multiplier = record c {
    max_retries = max_retries;
    initial_retry_delay = delay;
    backoff_multiplier = multiplier;
  }

  unfoldable pub enable_retries : HttpClient D → Bool → HttpClient D
  enable_retries c enabled = record c { retries_enabled = enabled }

  unfoldable pub reset_statistics : HttpClient D → HttpClient D
  reset_statistics c = record c { stats = no_statistics }

  abbrev count_total : HttpClient D → HttpClient D
  count_total c = record c {
    stats = record (c.stats) { total_requests = next64 c.stats.total_requests };
  }

  abbrev count_limited : HttpClient D → HttpClient D
  count_limited c = record c {
    stats = record (c.stats) { rate_limited_requests = next64 c.stats.rate_limited_requests };
  }

  abbrev count_retry : HttpClient D → HttpClient D
  count_retry c = record c {
    stats = record (c.stats) { retried_requests = next64 c.stats.retried_requests };
  }

  abbrev count_result : HttpClient D → Bool → ℕ → HttpClient D
  count_result c true latency = record c {
    stats = record (c.stats) {
      successful_requests = next64 c.stats.successful_requests;
      total_latency = c.stats.total_latency + latency;
    };
  }
  count_result c false latency = record c {
    stats = record (c.stats) {
      failed_requests = next64 c.stats.failed_requests;
      total_latency = c.stats.total_latency + latency;
    };
  }

  -- retriesEnabled_ ? maxRetries_ : 0
  abbrev pub retry_limit : HttpClient D → ℕ
  retry_limit c = if c.retries_enabled then c.max_retries else 0

-- A status that asks for another attempt.
unfoldable pub asks_retry : Response → Bool
asks_retry r = leb 500 r.status || r.status == 429

module _ {D S : Type 0} (backoff : ℕ → D → ℕ → ℕ) (net : Net S) where
  -- What a request comes to, with the client and the world it leaves.
  abbrev Exchange : Type 0
  Exchange = Outcome Response × HttpClient D × S

  -- performSingleRequest
  unfoldable pub perform_single : Method → Text → FormMap → HttpClient D → S → Outcome Response × S
  perform_single method endpoint params c s =
      elim (build_request net.escape method c.config endpoint params) [
        | ok request ↦ let (answer, s') = net.transfer request s in (receive answer, s')
        | throw e ↦ (throw e, s)
      ]

  -- After attempt number `attempts`, counted from 0: count the retry and sleep.
  unfoldable pub before_retry : ℕ → HttpClient D → S → HttpClient D × S
  before_retry attempts c s =
      (count_retry c, net.sleep (backoff c.initial_retry_delay c.backoff_multiplier attempts) s)

  -- The loop of performRequest; `left` is the number of retries that are left, and `attempts` of
  -- those made. With none left a bad status is returned as it is and a lost connection is thrown.
  unfoldable pub attempt_loop : ℕ → ℕ → Method → Text → FormMap → HttpClient D → S → Exchange
  unfolding perform_single before_retry
  attempt_loop zero attempts method endpoint params c s =
      let (outcome, s') = perform_single method endpoint params c s in (outcome, c, s')
  attempt_loop (suc left) attempts method endpoint params c s =
      let (outcome, s') = perform_single method endpoint params c s in
      let (c'', s'') = before_retry attempts c s' in
      let again = attempt_loop left (suc attempts) method endpoint params c'' s'' in
      elim outcome [
        | ok response ↦ if asks_retry response then again else (ok response, c, s')
        | throw (Exception.connection m) ↦ again
        | throw e ↦ (throw e, c, s')
      ]

  unfoldable pub waited : Option Waited → HttpClient D → S → Option (HttpClient D × S)
  waited none c s = none
  waited (some w) c s = some (record c { limiter = w.limiter }, net.after_wait w.turn s)

  -- The rate limit: a request that gets no slot at once is counted and waits for one. `none`: it is
  -- still waiting when the fuel is spent.
  unfoldable pub acquire_slot : ℕ → HttpClient D → S → Option (HttpClient D × S)
  acquire_slot fuel c s =
      let (time, s') = net.now s in
      let (limiter', got) = try_acquire c.limiter time in
      let c' = record c { limiter = limiter' } in
      let crowd = net.others s' in
      let waiting =
        wait_for_slot fuel (net.readings s') (λ i. crowd (suc i)) 0 []
          (try_all limiter' (crowd 0)) in
      let blocked = waited waiting (count_limited c') s' in
      if c.rate_limit_enabled then (if got then some (c', s') else blocked) else some (c, s)

  -- The end of performRequest: an exception leaves the loop past the counting of the result.
  unfoldable pub settle : ℕ → Exchange → Exchange
  settle start (ok response, c, s) =
      let (stop, s') = net.now s in
      (ok response, count_result c (success response) (stop - start), s')
  settle start (throw e, c, s) = (throw e, c, s)

  unfoldable pub after_slot :
      ℕ → Method → Text → FormMap → Option (HttpClient D × S) → Option Exchange
  after_slot start method endpoint params none = none
  after_slot start method endpoint params (some (c, s)) =
      some (settle start (attempt_loop (retry_limit c) 0 method endpoint params c s))

  -- performRequest
  unfoldable pub perform_request : ℕ → Method → Text → FormMap → HttpClient D → S → Option Exchange
  perform_request fuel method endpoint params c s =
      let (start, s') = net.now s in
      after_slot start method endpoint params (acquire_slot fuel (count_total c) s')
