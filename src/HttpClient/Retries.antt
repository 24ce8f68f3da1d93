-- ===== src/HttpClient/Retries.antt =====
-- The retry loop of performRequest, described by its rounds.
use libtradier.Base.{ℕ, zero, suc, ◌≤◌, ◌<◌, ◌≡◌, refl, ap, true, arith, Bool-cases, inl, inr, ◌⊎◌}
use libtradier.Text.{Text}
use libtradier.Errors.{Exception, Outcome, ok, throw}
use libtradier.FormMap.{FormMap}
use libtradier.Http.{Response, Method}
use libtradier.HttpClient.{HttpClient, Net, asks_retry, perform_single, before_retry, attempt_loop}

-- What makes the loop try again: a status 429 or 5xx, or a lost connection.
abbrev pub IsTransient : Outcome Response → Type 0
IsTransient (ok r) = asks_retry r ≡ true
IsTransient (throw (Exception.connection m)) = Unit {0}
IsTransient (throw e) = ⊥

module _ {D S : Type 0} (backoff : ℕ → D → ℕ → ℕ) (net : Net S) (method : Method) (endpoint : Text)
    (params : FormMap) where
  -- One failed attempt and what the loop does after it.
  unfoldable pub round : ℕ → HttpClient D × S → HttpClient D × S
  round attempts (c, s) =
      before_retry backoff net attempts c (perform_single backoff net method endpoint params c s).1

  unfoldable pub rounds : ℕ → ℕ → HttpClient D × S → HttpClient D × S
  rounds zero attempts state = state
  rounds (suc k) attempts state = rounds k (suc attempts) (round attempts state)

  abbrev pub attempt : HttpClient D × S → Outcome Response × S
  attempt (c, s) = perform_single backoff net method endpoint params c s

  -- The loop stopped after k rounds.
  pub record Stopped (left attempts k : ℕ) (state : HttpClient D × S)
      (result : Outcome Response × HttpClient D × S) : Type 0 where
    pub within : k ≤ left
    pub failed_before : (j : ℕ) → j < k → IsTransient (attempt (rounds j attempts state)).0
    pub last_or_spent : IsTransient (attempt (rounds k attempts state)).0 → k ≡ left
    pub returned : result.0 ≡ (attempt (rounds k attempts state)).0
    pub client : result.1 ≡ (rounds k attempts state).0
    pub world : result.2 ≡ (attempt (rounds k attempts state)).1

  stop_here :
      (left attempts : ℕ) (c : HttpClient D) (s : S)
      → (IsTransient (attempt (c, s)).0 → 0 ≡ left)
      → Stopped left attempts 0 (c, s) ((attempt (c, s)).0, c, (attempt (c, s)).1)
  unfolding rounds
  stop_here left attempts c s h = record {
    within = omega arith;
    failed_before = λ j lt. absurd (omega arith);
    last_or_spent = h;
    returned = refl;
    client = refl;
    world = refl;
  }

  go_on :
      (left attempts k : ℕ) (state : HttpClient D × S)
      (result : Outcome Response × HttpClient D × S)
      → IsTransient (attempt state).0
      → Stopped left (suc attempts) k (round attempts state) result
      → Stopped (suc left) attempts (suc k) state result
  unfolding rounds
  go_on left attempts k state result bad st = record {
    within = omega (arith, st.within);
    failed_before = earlier;
    last_or_spent = λ h. ap suc (st.last_or_spent h);
    returned = st.returned;
    client = st.client;
    world = st.world;
  }
    where
      earlier : (j : ℕ) → j < suc k → IsTransient (attempt (rounds j attempts state)).0
      earlier zero lt = bad
      earlier (suc j) lt = st.failed_before j (omega arith)

  abbrev loop : ℕ → ℕ → HttpClient D × S → Outcome Response × HttpClient D × S
  loop left attempts (c, s) = attempt_loop backoff net left attempts method endpoint params c s

  abbrev final : HttpClient D × S → Outcome Response × HttpClient D × S
  final (c, s) = ((attempt (c, s)).0, c, (attempt (c, s)).1)

  -- One turn of the loop, by what the attempt comes to.
  loop-turn :
      (left attempts : ℕ) (c : HttpClient D) (s : S) (o : Outcome Response)
      → (attempt (c, s)).0 ≡ o
      → (IsTransient o
          × (loop (suc left) attempts (c, s) ≡ loop left (suc attempts) (round attempts (c, s))))
        ⊎ ((IsTransient o → ⊥) × (loop (suc left) attempts (c, s) ≡ final (c, s)))
  unfolding attempt_loop round
  loop-turn left attempts c s (ok r) e = elim (Bool-cases (asks_retry r)) [
    | inl bad ↦ inl (bad, ground arith)
    | inr good ↦ inr (λ h. cc, ground arith)
  ]
  loop-turn left attempts c s (throw (Exception.connection m)) e = inl (tt, ground arith)
  loop-turn left attempts c s (throw x) e = inr (λ h. h, ground arith)

  -- The loop of performRequest ends for every number of retries, and its result is that of one of its
  -- attempts: some k ≤ left of them failed in a way that is worth another (status 429 or 5xx, or a
  -- lost connection), and after them the first one that did not, or the last one allowed, is
  -- returned or thrown as it is.
  pub attempt_loop-Stopped :
      (left attempts : ℕ) (c : HttpClient D) (s : S)
      → (k : ℕ) × Stopped left attempts k
          (c, s)
          (attempt_loop backoff net left attempts method endpoint params c s)
  unfolding attempt_loop
  attempt_loop-Stopped zero attempts c s = (0, stop_here 0 attempts c s (λ h. refl))
  attempt_loop-Stopped (suc left) attempts c s =
      elim (loop-turn left attempts c s (attempt (c, s)).0 refl) [
        | inl (bad, e) ↦
            let state = round attempts (c, s) in
            let (k, later) = attempt_loop-Stopped left (suc attempts) state.0 state.1 in
            (suc k, rw e (go_on left attempts k (c, s) (loop left (suc attempts) state) bad later))
        | inr (good, e) ↦ (0, rw e (stop_here (suc left) attempts c s (λ h. absurd (good h))))
      ]
