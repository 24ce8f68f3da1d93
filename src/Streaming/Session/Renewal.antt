-- ===== src/Streaming/Session/Renewal.antt =====
-- What createMarketSession, createAccountSession and renewSession of src/streaming.cpp keep.
use libtradier.Base.{ℕ, ◌≡◌, refl, ap, ◌&&◌, not, if◌then◌else◌, is_empty, Bool-cases, inl, inr}
use libtradier.Text.{txt}
use libtradier.Errors.{ApiError}
use libtradier.Errors.Ensures.{Ensures, returns, bind-Ensures}
use libtradier.ApiResult.{ApiResult, of_value, of_error}
use libtradier.Service.{Client, Json, Call, perform}
use libtradier.Service.Laws.{perform-of_value, parse_response-Ensures}
use libtradier.Streaming.Session.{
  StreamSession, activated, contains_text, parse_stream_session, parse_active, keep_session,
  market_session_call, account_session_call, create_session, create_market_session,
  create_account_session, renew_from, renew_session,
}

-- A session is active exactly if it has an address and an id.
abbrev pub IsMarked : StreamSession → Type 0
IsMarked v = v.is_active ≡ (not (is_empty v.url) && not (is_empty v.session_id))

module _ {J D : Type 0} (lib : Json J D) (now hour : ℕ) where
  parse_active-Ensures : (json : J) → Ensures IsMarked (parse_active lib now hour json)
  unfolding parse_active activated
  parse_active-Ensures json =
      bind-Ensures (parse_stream_session lib now hour json) (λ session. returns refl)

module _ {J D S : Type 0} (lib : Json J D) (client : Client S) (now hour : ℕ) where
  -- The result of the request for a new session.
  abbrev pub fresh : Call → S → ApiResult StreamSession
  fresh call s = (perform lib client call (parse_active lib now hour) s).0

  fresh-IsMarked :
      (call : Call) (s : S) (v : StreamSession) → fresh call s ≡ of_value v → IsMarked v
  fresh-IsMarked call s v h =
      let (params, r, _, _, _, parsed) =
        (perform-of_value lib client call (parse_active lib now hour) s v).0 h in
      parse_response-Ensures lib r (parse_active lib now hour) v (parse_active-Ensures lib now hour)
        parsed

  -- What is renewed, by the result of a request.
  abbrev Renewed :
      Call → StreamSession → StreamSession → S → StreamSession × StreamSession × S → Type 0
  Renewed call session current s (session', current', s') =
      ((v : StreamSession)
        → fresh call s ≡ of_value v
        → (session' ≡ v) × (current' ≡ v) × IsMarked v)
      × ((e : ApiError) → fresh call s ≡ of_error e → (session' ≡ session) × (current' ≡ current))

  renew_from-Renewed :
      (call : Call) (session current : StreamSession) (s : S)
      → Renewed call session current s (
          renew_from lib client now hour session
            (create_session lib client now hour call current s))
  unfolding renew_from create_session keep_session
  renew_from-Renewed call session current s = (
    λ v h. (
      ap (λ (r : ApiResult StreamSession). keep_session r.value session) h,
      ap (λ (r : ApiResult StreamSession). keep_session r.value current) h,
      fresh-IsMarked call s v h,
    ),
    λ e h. (
      ap (λ (r : ApiResult StreamSession). keep_session r.value session) h,
      ap (λ (r : ApiResult StreamSession). keep_session r.value current) h,
    ),
  )

  -- renewSession asks for a market session if the address has the word markets in it, and for an
  -- account session otherwise. If it gets one, it is both the session and the service's current one,
  -- and is active exactly if it has an address and an id; if it gets an error, both stay as they are.
  pub renew_session-Renewed :
      (session current : StreamSession) (s : S)
      → Renewed
          (if contains_text (txt "markets") session.url
            then market_session_call
            else account_session_call)
          session
          current
          s
          (renew_session lib client now hour session current s)
  unfolding renew_session create_market_session create_account_session
  renew_session-Renewed session current s =
      elim (Bool-cases (contains_text (txt "markets") session.url)) [
        | inl market ↦ rw market (renew_from-Renewed market_session_call session current s)
        | inr account ↦ rw account (renew_from-Renewed account_session_call session current s)
      ]
