-- ===== src/Streaming/Lifecycle.antt =====
-- What connect() of src/streaming.cpp does to the flag `connected` and to the threads.
use libtradier.Base.{
  ◌≡◌, refl, sym, ap, ◌∙◌, ◌⊎◌, inl, inr, Bool, true, false, ◌||◌, not, ◌++◌, arith, Bool-cases,
}
use libtradier.Text.{Text, txt}
use libtradier.Errors.{Exception, what, Outcome, ok, throw}
use libtradier.Streaming.Messages.{report}
use libtradier.Streaming.Threads.{ThreadManager, add_thread, stop}
use libtradier.Streaming.Connection.{
  Stream, Socket, Step, and_then, began, made, start_heartbeat, with_outcome, endpoint_of,
  switch_on, connect_socket, authorize_socket, open_connection, give_up, catch_connect, connect,
}

-- What a call does to the flag `connected` and to the threads: a heartbeat thread is started only
-- while the flag is off, and turns it on; where it cannot be started, the flag may end either way.
pub data Move : Bool → ThreadManager → Bool → ThreadManager → Type 0 where
  started :
      {m : ThreadManager} (starts : Bool)
      → (add_thread starts m).0 ≡ true
      → Move false m true (add_thread starts m).1
  refused :
      {m : ThreadManager} (starts c : Bool)
      → (add_thread starts m).0 ≡ false
      → Move false m c (add_thread starts m).1
  stopped : {c : Bool} {m : ThreadManager} → Move c m false (stop m)

pub data Moves (c : Bool) (m : ThreadManager) : Bool → ThreadManager → Type 0 where
  stay : Moves c m c m
  next : {d e : Bool} {n k : ThreadManager} → Moves c m d n → Move d n e k → Moves c m e k

pub Moves-trans :
    {c d : Bool} {m n : ThreadManager} {e : Bool} {k : ThreadManager}
    → Moves c m d n
    → Moves d n e k
    → Moves c m e k
Moves-trans r stay = r
Moves-trans r (next t move) = next (Moves-trans r t) move

arrive :
    {c d e : Bool} {m n k : ThreadManager}
    → c ≡ false
    → e ≡ d
    → k ≡ n
    → Move false m d n
    → Moves c m e k
arrive off flag same move = rw (off, flag, same) (next stay move)

rest : {c e : Bool} {m k : ThreadManager} → c ≡ false → e ≡ false → k ≡ m → Moves c m e k
rest off flag same = rw (off, flag, same) stay

-- The same of two states of the service.
abbrev pub Runs : {D S : Type 0} → Stream D S → Stream D S → Type 0
Runs st st' = Moves st.connected st.thread_manager st'.connected st'.thread_manager

module _ {D S : Type 0} (socket : Socket S) (token : Text) where
  -- What the try block of connect() leaves, if the flag was off before it.
  abbrev Opened : Stream D S → Step D S (Unit {0}) → Type 0
  Opened st (o, st', s') =
      ((st'.connected ≡ false)
        × (st'.thread_manager ≡ st.thread_manager)
        × ((e : Exception) × (o ≡ throw e)))
      ⊎ ((starts : Bool) × (st'.connected ≡ true)
          × (st'.thread_manager ≡ (add_thread starts st.thread_manager).1)
          × ((add_thread starts st.thread_manager).0 ≡ true → o ≡ ok tt))

  began-Opened :
      (starts : Bool) (r : Bool × ThreadManager) (st st' : Stream D S) (s : S)
      → add_thread starts st.thread_manager ≡ r
      → st'.connected ≡ true
      → Opened st (began socket token r st' s)
  unfolding began with_outcome
  began-Opened starts (true, threads) st st' s e on =
      inr (starts, on, ap (λ r. r.1) (sym e), λ h. refl)
  began-Opened starts (false, threads) st st' s e on =
      inr (starts, on, ap (λ r. r.1) (sym e), λ h. cc (ap (λ r. r.0) e))

  -- Up to the point where the flag is set.
  abbrev Before : Stream D S → Stream D S → Type 0
  Before st st' = (st'.connected ≡ false) × (st'.thread_manager ≡ st.thread_manager)

  and_then-Opened :
      (st : Stream D S) (r : Step D S (Unit {0})) (k : Stream D S → S → Step D S (Unit {0}))
      → Before st r.1
      → ((st' : Stream D S) (s' : S) → Before st st' → Opened st (k st' s'))
      → Opened st (and_then r k)
  and_then-Opened st (ok done, st', s') k before opened = opened st' s' before
  and_then-Opened st (throw e, st', s') k before opened = inl (before.0, before.1, (e, refl))

  made-Before :
      (st : Stream D S) (r : Outcome (Unit {0}) × S) (st' : Stream D S)
      → Before st st'
      → Before st (made socket token r st').1
  unfolding made
  made-Before st (ok done, s) st' before = before
  made-Before st (throw e, s) st' before = before

  switch_on-Opened :
      (st st' : Stream D S) (s : S) → Before st st' → Opened st (switch_on socket token st' s)
  unfolding switch_on start_heartbeat
  switch_on-Opened st st' s before =
      began-Opened (socket.starts s) (add_thread (socket.starts s) st'.thread_manager) st
        (record st' {
          connected = true;
          stats = record st'.stats { connection_start = socket.now s };
        })
        s (ap (add_thread (socket.starts s)) (sym before.1)) refl

  connect_socket-Opened :
      (st st' : Stream D S) (s : S) → Before st st' → Opened st (connect_socket socket token st' s)
  unfolding connect_socket with_outcome
  connect_socket-Opened st st' s before =
      and_then-Opened st (with_outcome socket token st' (socket.connect s)) (switch_on socket token)
        before (switch_on-Opened st)

  authorize_socket-Opened :
      (st st' : Stream D S) (s : S)
      → Before st st'
      → Opened st (authorize_socket socket token st' s)
  unfolding authorize_socket with_outcome
  authorize_socket-Opened st st' s before =
      and_then-Opened st (with_outcome socket token st' (socket.set_auth_token token s))
        (connect_socket socket token) before (connect_socket-Opened st)

  open_connection-Opened :
      (st : Stream D S) (s : S)
      → st.connected ≡ false
      → Opened st (open_connection socket token st s)
  unfolding open_connection
  open_connection-Opened st s off =
      let r = socket.make (endpoint_of st.current_session.url) token s in
      and_then-Opened st (made socket token r st) (authorize_socket socket token)
        (made-Before st r st (off, refl)) (authorize_socket-Opened st)

  give_up-connected :
      (st : Stream D S) (r : Outcome (Unit {0}) × S)
      → ((give_up socket token st r).1.thread_manager ≡ st.thread_manager)
        × (((give_up socket token st r).1.connected ≡ false)
            ⊎ ((give_up socket token st r).1.connected ≡ st.connected))
  unfolding give_up
  give_up-connected st (ok done, s) = (refl, inl refl)
  give_up-connected st (throw e, s) = (refl, inr refl)

  -- What connect() does, by what the try block left.
  catch_connect-Runs :
      (st : Stream D S) (r : Step D S (Unit {0}))
      → st.connected ≡ false
      → Opened st r
      → Runs st (catch_connect socket token r).1
  unfolding catch_connect
  catch_connect-Runs st (ok done, st', s) off (inl (on, same, (e, failed))) = cc
  catch_connect-Runs st (ok done, st', s) off (inr (starts, on, same, fine)) =
      elim (Bool-cases (add_thread starts st.thread_manager).0) [
        | inl yes_started ↦ arrive off on same (started starts yes_started)
        | inr no_start ↦ arrive off on same (refused starts true no_start)
      ]
  catch_connect-Runs st (throw e, st', s) off (inl (on, same, _)) =
      let (kept, flag) =
        give_up-connected st' (report st'.handlers.error (txt "Connection error: " ++ what e) s) in
      rest off (elim flag [ inl f ↦ f | inr f ↦ f ∙ on ]) (kept ∙ same)
  catch_connect-Runs st (throw e, st', s) off (inr (starts, on, same, fine)) =
      let (kept, flag) =
        give_up-connected st' (report st'.handlers.error (txt "Connection error: " ++ what e) s) in
      elim (Bool-cases (add_thread starts st.thread_manager).0) [
        | inl yes_started ↦ cc (fine yes_started)
        | inr no_start ↦ arrive off refl (kept ∙ same) (refused starts _ no_start)
      ]

  pub connect-Runs : (st : Stream D S) (s : S) → Runs st (connect socket token st s).1
  unfolding connect
  connect-Runs st s = elim (Bool-cases (st.connected || not st.current_session.is_active)) [
    | inl skipped ↦ rw skipped stay
    | inr tried ↦ rw tried (
        catch_connect-Runs st (open_connection socket token st s) (ground arith)
          (open_connection-Opened st s (ground arith)))
  ]
