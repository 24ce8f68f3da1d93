-- ===== src/HttpClient/Accounting.antt =====
-- What a request leaves in the client's statistics.
use mathlib.Core.Path.{subst}
use libtradier.Base.{
  ℕ, zero, suc, ◌+◌, ◌%◌, ◌^◌, ◌≤◌, ◌≡◌, refl, sym, ap, ◌∙◌, arith, if◌then◌else◌, some, of_some,
  Bool-cases, Option-cases, inl, inr,
}
use libtradier.Text.{Text}
use libtradier.Errors.{Outcome, ok, throw}
use libtradier.FormMap.{FormMap}
use libtradier.Int.{next64}
use libtradier.Http.{Response, success, Method}
use libtradier.HttpClient.{
  HttpClient, Net, before_retry, attempt_loop, retry_limit, acquire_slot, settle, perform_request,
  waited, after_slot, count_total,
}
use libtradier.HttpClient.Retries.{round, rounds, attempt_loop-Stopped}

-- The counters that a result decides.
abbrev succeeded : Outcome Response → ℕ → ℕ
succeeded (ok r) n = if success r then next64 n else n
succeeded (throw e) n = n

abbrev failed : Outcome Response → ℕ → ℕ
failed (ok r) n = if success r then n else next64 n
failed (throw e) n = n

-- The settings and counters that the loop leaves alone.
pub record SameButRetries {D : Type 0} (c c' : HttpClient D) : Type 0 where
  pub total : c'.stats.total_requests ≡ c.stats.total_requests
  pub successful : c'.stats.successful_requests ≡ c.stats.successful_requests
  pub failures : c'.stats.failed_requests ≡ c.stats.failed_requests
  pub limited : c'.stats.rate_limited_requests ≡ c.stats.rate_limited_requests
  pub limit : retry_limit c' ≡ retry_limit c

SameButRetries-trans :
    {D : Type 0} {a b c : HttpClient D}
    → SameButRetries a b
    → SameButRetries b c
    → SameButRetries a c
SameButRetries-trans h k = record {
  total = k.total ∙ h.total;
  successful = k.successful ∙ h.successful;
  failures = k.failures ∙ h.failures;
  limited = k.limited ∙ h.limited;
  limit = k.limit ∙ h.limit;
}

module _ {D S : Type 0} (backoff : ℕ → D → ℕ → ℕ) (net : Net S) (method : Method) (endpoint : Text)
    (params : FormMap) where
  round-SameButRetries :
      (attempts : ℕ) (c : HttpClient D) (s : S)
      → SameButRetries c (round backoff net method endpoint params attempts (c, s)).0
        × ((round backoff net method endpoint params attempts (c, s)).0.stats.retried_requests
            ≡ next64 c.stats.retried_requests)
  unfolding round before_retry
  round-SameButRetries attempts c s = (
    record { total = refl; successful = refl; failures = refl; limited = refl; limit = refl },
    refl,
  )

  rounds-SameButRetries :
      (k attempts : ℕ) (c : HttpClient D) (s : S)
      → SameButRetries c (rounds backoff net method endpoint params k attempts (c, s)).0
        × ((rounds backoff net method endpoint params k attempts (c, s)).0.stats.retried_requests
              % 2 ^ 64
            ≡ (c.stats.retried_requests + k) % 2 ^ 64)
  unfolding rounds
  rounds-SameButRetries zero attempts c s = (
    record { total = refl; successful = refl; failures = refl; limited = refl; limit = refl },
    omega arith,
  )
  rounds-SameButRetries (suc k) attempts c s =
      let state = round backoff net method endpoint params attempts (c, s) in
      let (one, counted) = round-SameButRetries attempts c s in
      let (more, sum) = rounds-SameButRetries k (suc attempts) state.0 state.1 in
      (SameButRetries-trans one more, omega (arith, counted, sum))

  loop-SameButRetries :
      (left : ℕ) (c : HttpClient D) (s : S)
      → SameButRetries c (attempt_loop backoff net left 0 method endpoint params c s).1
        × ((k : ℕ) × (k ≤ left)
            × ((attempt_loop backoff net left 0 method endpoint params c s).1.stats.retried_requests
                  % 2 ^ 64
                ≡ (c.stats.retried_requests + k) % 2 ^ 64))
  loop-SameButRetries left c s =
      let (k, st) = attempt_loop-Stopped backoff net method endpoint params left 0 c s in
      let (same, sum) = rounds-SameButRetries k 0 c s in rw (st.client) (same, (k, st.within, sum))

  -- The counters after a request, by its outcome.
  pub record Accounted (c : HttpClient D) (x : Outcome Response × HttpClient D × S) : Type 0 where
    pub total : x.1.stats.total_requests ≡ next64 c.stats.total_requests
    pub successful : x.1.stats.successful_requests ≡ succeeded x.0 c.stats.successful_requests
    pub failures : x.1.stats.failed_requests ≡ failed x.0 c.stats.failed_requests
    pub retried :
        (k : ℕ) × (k ≤ retry_limit c)
        × (x.1.stats.retried_requests % 2 ^ 64 ≡ (c.stats.retried_requests + k) % 2 ^ 64)

  settle-stats :
      (start : ℕ) (x : Outcome Response × HttpClient D × S)
      → ((settle backoff net start x).1.stats.total_requests ≡ x.1.stats.total_requests)
        × ((settle backoff net start x).1.stats.retried_requests ≡ x.1.stats.retried_requests)
        × ((settle backoff net start x).1.stats.successful_requests
            ≡ succeeded x.0 x.1.stats.successful_requests)
        × ((settle backoff net start x).1.stats.failed_requests
            ≡ failed x.0 x.1.stats.failed_requests)
        × ((settle backoff net start x).0 ≡ x.0)
  unfolding settle
  settle-stats start (ok r, c, s) = elim (Bool-cases (success r)) [
    | inl e ↦ (rw e, rw e, rw e, rw e, refl)
    | inr e ↦ (rw e, rw e, rw e, rw e, refl)
  ]
  settle-stats start (throw e, c, s) = (refl, refl, refl, refl, refl)

  acquire_slot-stats :
      (fuel : ℕ) (c : HttpClient D) (s : S) (y : HttpClient D × S)
      → acquire_slot backoff net fuel c s ≡ some y
      → (y.0.stats.total_requests ≡ c.stats.total_requests)
        × (y.0.stats.retried_requests ≡ c.stats.retried_requests)
        × (y.0.stats.successful_requests ≡ c.stats.successful_requests)
        × (y.0.stats.failed_requests ≡ c.stats.failed_requests)
        × (retry_limit y.0 ≡ retry_limit c)
  unfolding acquire_slot waited
  acquire_slot-stats fuel c s y e = ground arith

  after_slot-Accounted :
      (start : ℕ) (c : HttpClient D) (y : HttpClient D × S)
      → (y.0.stats.total_requests ≡ next64 c.stats.total_requests)
      → (y.0.stats.retried_requests ≡ c.stats.retried_requests)
      → (y.0.stats.successful_requests ≡ c.stats.successful_requests)
      → (y.0.stats.failed_requests ≡ c.stats.failed_requests)
      → (retry_limit y.0 ≡ retry_limit c)
      → Accounted c (
          settle backoff net start
            (attempt_loop backoff net (retry_limit y.0) 0 method endpoint params y.0 y.1))
  after_slot-Accounted start c y t r su fa li =
      let x = attempt_loop backoff net (retry_limit y.0) 0 method endpoint params y.0 y.1 in
      let (same, (k, within, sum)) = loop-SameButRetries (retry_limit y.0) y.0 y.1 in
      let (t', r', su', fa', o') = settle-stats start x in
      record {
        total = t' ∙ same.total ∙ t;
        successful =
            su'
            ∙ ap (succeeded x.0) (same.successful ∙ su)
            ∙ ap (λ o. succeeded o c.stats.successful_requests) (sym o');
        failures =
            fa'
            ∙ ap (failed x.0) (same.failures ∙ fa)
            ∙ ap (λ o. failed o c.stats.failed_requests) (sym o');
        retried = (k, omega arith, omega arith);
      }

  -- Every request counts once in the total, and at most as many retries as the policy allows in the
  -- retries; a response counts as a success or as a failure by its status, and a thrown connection
  -- error as neither.
  pub perform_request-Accounted :
      (fuel : ℕ) (c : HttpClient D) (s : S) (x : Outcome Response × HttpClient D × S)
      → perform_request backoff net fuel method endpoint params c s ≡ some x
      → Accounted c x
  unfolding perform_request after_slot
  perform_request-Accounted fuel c s x e =
      let ready = acquire_slot backoff net fuel (count_total c) (net.now s).1 in
      elim (Option-cases ready) [
        | inl h ↦ cc (ap (after_slot backoff net (net.now s).0 method endpoint params) h)
        | inr (y, h) ↦
            let (t, r, su, fa, li) = acquire_slot-stats fuel (count_total c) (net.now s).1 y h in
            subst (Accounted c)
              (of_some
                (sym (ap (after_slot backoff net (net.now s).0 method endpoint params) h) ∙ e))
              (after_slot-Accounted (net.now s).0 c y t r su fa li)
      ]
