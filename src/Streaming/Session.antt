-- ===== src/Streaming/Session.antt =====
-- The session of a stream: parseStreamSession of src/json/streaming.cpp, and createMarketSession,
-- createAccountSession and renewSession of src/streaming.cpp. Times are the clock's ticks.
pub mod Renewal
use libtradier.Base.{
  ℕ, ◌+◌, ◌*◌, Bool, true, false, ◌&&◌, ◌||◌, not, [], ◌∷◌, ◌==◌, Option, none, some, if◌then◌else◌,
  is_empty,
}
use libtradier.Text.{Text, txt}
use libtradier.Errors.{Exception, Outcome, ok, ◌>>=◌}
use libtradier.ApiResult.{ApiResult}
use libtradier.Http.{Method}
use libtradier.Service.{Client, Json, Call, perform}

pub record StreamSession : Type 0 where
  pub url : Text
  pub session_id : Text
  pub expires_at : ℕ
  pub is_active : Bool

-- A new StreamSession
unfoldable pub no_session : StreamSession
no_session = record { url = []; session_id = []; expires_at = 0; is_active = false }

-- isActive = !url.empty() && !sessionId.empty()
unfoldable pub activated : StreamSession → StreamSession
activated session = record session {
  is_active = not (is_empty session.url) && not (is_empty session.session_id);
}

-- find(prefix) == 0
unfoldable pub starts_with : Text → Text → Bool
starts_with [] text = true
starts_with (c ∷ prefix) [] = false
starts_with (c ∷ prefix) (d ∷ text) = c == d && starts_with prefix text

-- find(part) != npos
unfoldable pub contains_text : Text → Text → Bool
unfolding starts_with
contains_text part [] = is_empty part
contains_text part (c ∷ text) = starts_with part (c ∷ text) || contains_text part text

module _ {J D : Type 0} (lib : Json J D) (now hour : ℕ) where
  unfoldable pub session_fields : J → Outcome StreamSession
  unfolding activated
  session_fields json = do
    url ← lib.text_value json (txt "url") (txt "")
    session_id ← lib.text_value json (txt "sessionid") (txt "")
    ok (
        activated (record {
          url = url;
          session_id = session_id;
          expires_at = now + 8 * hour;
          is_active = false;
        }))

  unfoldable pub parse_stream_session : J → Outcome StreamSession
  unfolding session_fields no_session
  parse_stream_session json =
      if not (lib.is_null json) && lib.is_object json
      then if lib.contains json (txt "stream")
          && not (lib.is_null (lib.at json (txt "stream")))
          && lib.is_object (lib.at json (txt "stream"))
        then session_fields (lib.at json (txt "stream"))
        else session_fields json
      else ok no_session

  -- What the two functions make of the body; the flag is set once more.
  unfoldable pub parse_active : J → Outcome StreamSession
  unfolding parse_stream_session activated
  parse_active json = parse_stream_session json >>= (λ session. ok (activated session))

unfoldable pub market_session_call : Call
market_session_call = record {
  method = Method.post;
  path = txt "/markets/events/session";
  prepare = ok [];
  failure = txt "Failed to create market session: ";
  unreadable = Exception.standard (txt "Failed to parse market session response");
  operation = txt "createMarketSession";
}

unfoldable pub account_session_call : Call
account_session_call = record {
  method = Method.post;
  path = txt "/accounts/events/session";
  prepare = ok [];
  failure = txt "Failed to create account session: ";
  unreadable = Exception.standard (txt "Failed to parse account session response");
  operation = txt "createAccountSession";
}

unfoldable pub keep_session : Option StreamSession → StreamSession → StreamSession
keep_session none current = current
keep_session (some session) current = session

module _ {J D S : Type 0} (lib : Json J D) (client : Client S) (now hour : ℕ) where
  unfoldable pub create_session :
      Call → StreamSession → S → ApiResult StreamSession × StreamSession × S
  unfolding parse_active keep_session
  create_session call current s =
      let (result, s') = perform lib client call (parse_active lib now hour) s in
      (result, keep_session result.value current, s')

  -- The result, and the service's currentSession.
  unfoldable pub create_market_session :
      StreamSession → S → ApiResult StreamSession × StreamSession × S
  unfolding create_session
  create_market_session current s = create_session market_session_call current s

  unfoldable pub create_account_session :
      StreamSession → S → ApiResult StreamSession × StreamSession × S
  unfolding create_session
  create_account_session current s = create_session account_session_call current s

  unfoldable pub renew_from :
      StreamSession
      → ApiResult StreamSession × StreamSession × S
      → StreamSession × StreamSession × S
  unfolding keep_session
  renew_from session (result, current, s) = (keep_session result.value session, current, s)

  -- The session that is renewed, and currentSession.
  unfoldable pub renew_session :
      StreamSession → StreamSession → S → StreamSession × StreamSession × S
  unfolding renew_from create_market_session create_account_session
  renew_session session current s =
      if contains_text (txt "markets") session.url
      then renew_from session (create_market_session current s)
      else renew_from session (create_account_session current s)
