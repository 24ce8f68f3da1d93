-- ===== src/Watchlist/Symbols.antt =====
-- What src/watchlist.cpp writes of a list of symbols, and what becomes of an answer that holds no
-- watchlist.
use libtradier.Base.{◌≡◌, refl, true, false, List, [], ◌∷◌, some, All, is_empty}
use libtradier.Text.{Text, txt, text_eq}
use libtradier.Errors.{ok, what}
use libtradier.ApiResult.{internal_error, try_execute}
use libtradier.FormMap.{find}
use libtradier.FormMap.Laws.{find-put}
use libtradier.Query.{split_on, joined}
use libtradier.Query.RoundTrip.{Free}
use libtradier.Query.Joined.{split_on-joined}
use libtradier.Http.{Response, Method, success}
use libtradier.Service.{Client, Json, parse_response, perform, run, read_answer}
use libtradier.Watchlist.{watchlist_form, parse_watchlist, get_watchlist, one_path}

-- The form of createWatchlist and updateWatchlist holds the name, and under `symbols` a text that is
-- split at its commas into exactly the symbols given, in their order, if there are any and none of
-- them has a comma in it.
pub watchlist_form-split_on :
    (name s : Text) (symbols : List Text)
    → All (Free b',') (s ∷ symbols)
    → (text : Text) × (find (txt "symbols") (watchlist_form name (s ∷ symbols)) ≡ some text)
      × (split_on b',' text ≡ s ∷ symbols)
      × (find (txt "name") (watchlist_form name (s ∷ symbols)) ≡ some name)
unfolding watchlist_form txt text_eq find
watchlist_form-split_on name s symbols h =
    (joined b',' (s ∷ symbols), simp find-put, split_on-joined b',' s symbols h, simp find-put)

module _ {J D S : Type 0} (lib : Json J D) (client : Client S) where
  -- A 2xx answer to getWatchlist whose JSON has no field `watchlist` becomes an internal error: the
  -- ApiError with code 400 that the parser throws is lost on the way.
  pub get_watchlist-internal_error :
      (id : Text) (s : S) (r : Response) (j : J)
      → is_empty id ≡ false
      → (client.send Method.get (one_path id) [] s).0 ≡ ok r
      → success r ≡ true
      → lib.parse r.body ≡ ok j
      → lib.contains j (txt "watchlist") ≡ false
      → (get_watchlist lib client id s).0
        ≡ internal_error (txt "getWatchlist: Failed to parse watchlist response")
  unfolding get_watchlist perform run read_answer parse_response parse_watchlist try_execute
      internal_error what txt
  get_watchlist-internal_error id s r j named sent good parsed missing =
      rw (named, sent, good, parsed, missing) refl
