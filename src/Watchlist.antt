-- ===== src/Watchlist.antt =====
-- include/tradier/watchlist.hpp and src/watchlist.cpp: the watchlists of an account.
pub mod Symbols
use libtradier.Base.{
  ◌≡◌, ◌++◌, ◌&&◌, Bool, true, false, List, [], ◌∷◌, Option, none, some, if◌then◌else◌, is_empty,
}
use libtradier.Text.{Text, txt}
use libtradier.Errors.{Exception, api_error, Outcome, ok, throw, ◌>>=◌, ◌>>◌, throw_if}
use libtradier.ApiResult.{ApiResult}
use libtradier.FormMap.{FormMap, put}
use libtradier.Query.{joined}
use libtradier.Http.{Method}
use libtradier.Validation.{invalid}
use libtradier.Service.{Client, Json, Call, perform}
use libtradier.Trading.Parsers.{one_or_many}

pub record WatchlistItem : Type 0 where
  pub symbol : Text
  pub id : Text

pub record WatchlistSummary : Type 0 where
  pub name : Text
  pub id : Text
  pub public_id : Text

pub record Watchlist : Type 0 where
  pub name : Text
  pub id : Text
  pub public_id : Text
  pub items : List WatchlistItem

-- The form of createWatchlist and updateWatchlist
unfoldable pub watchlist_form : Text → List Text → FormMap
unfolding joined
watchlist_form name symbols =
    let form = put (txt "name") name [] in
    if is_empty symbols then form else put (txt "symbols") (joined b',' symbols) form

module _ {J D : Type 0} (lib : Json J D) where
  unfoldable pub parse_summary : J → Outcome WatchlistSummary
  parse_summary item = do
    name ← lib.text_value item (txt "name") (txt "")
    id ← lib.text_value item (txt "id") (txt "")
    public_id ← lib.text_value item (txt "public_id") (txt "")
    ok (record { name = name; id = id; public_id = public_id })

  -- The parser of getWatchlists and deleteWatchlist
  unfoldable pub parse_summaries : J → Outcome (List WatchlistSummary)
  unfolding parse_summary
  parse_summaries json =
      if lib.contains json (txt "watchlists")
        && lib.contains (lib.at json (txt "watchlists")) (txt "watchlist")
      then one_or_many lib parse_summary (lib.at (lib.at json (txt "watchlists")) (txt "watchlist"))
      else ok []

  unfoldable pub parse_item : J → Outcome WatchlistItem
  parse_item item = do
    symbol ← lib.text_value item (txt "symbol") (txt "")
    id ← lib.text_value item (txt "id") (txt "")
    ok (record { symbol = symbol; id = id })

  unfoldable pub parse_items : J → Outcome (List WatchlistItem)
  unfolding parse_item
  parse_items watchlist =
      if lib.contains watchlist (txt "items")
        && lib.contains (lib.at watchlist (txt "items")) (txt "item")
      then one_or_many lib parse_item (lib.at (lib.at watchlist (txt "items")) (txt "item"))
      else ok []

  read_watchlist : J → Outcome Watchlist
  unfolding parse_items
  read_watchlist watchlist = do
    name ← lib.text_value watchlist (txt "name") (txt "")
    id ← lib.text_value watchlist (txt "id") (txt "")
    public_id ← lib.text_value watchlist (txt "public_id") (txt "")
    items ← parse_items watchlist
    ok (record { name = name; id = id; public_id = public_id; items = items })

  -- The parser of the five functions that return a watchlist, with the message of each
  unfoldable pub parse_watchlist : Text → J → Outcome Watchlist
  unfolding read_watchlist
  parse_watchlist message json =
      if lib.contains json (txt "watchlist")
      then read_watchlist (lib.at json (txt "watchlist"))
      else throw (Exception.api (api_error 400 message))

abbrev require : Text → Text → Outcome (Unit {0})
require value message = throw_if (is_empty value) (invalid message)

abbrev pub one_path : Text → Text
one_path id = txt "/watchlists/" ++ id

module _ {J D S : Type 0} (lib : Json J D) (client : Client S) where
  unfoldable pub get_watchlists : S → ApiResult (List WatchlistSummary) × S
  unfolding parse_summaries
  get_watchlists =
      perform lib client
        (record {
          method = Method.get;
          path = txt "/watchlists";
          prepare = ok [];
          failure = txt "Failed to get watchlists: ";
          unreadable = Exception.standard (txt "Failed to parse watchlists response");
          operation = txt "getWatchlists";
        })
        (parse_summaries lib)

  unfoldable pub get_watchlist : Text → S → ApiResult Watchlist × S
  unfolding parse_watchlist
  get_watchlist id =
      perform lib client
        (record {
          method = Method.get;
          path = one_path id;
          prepare = require id (txt "Watchlist ID cannot be empty") >> ok [];
          failure = txt "Failed to get watchlist: ";
          unreadable = Exception.standard (txt "Failed to parse watchlist response");
          operation = txt "getWatchlist";
        })
        (parse_watchlist lib (txt "Invalid watchlist response format"))

  unfoldable pub create_watchlist : Text → List Text → S → ApiResult Watchlist × S
  unfolding parse_watchlist watchlist_form
  create_watchlist name symbols =
      perform lib client
        (record {
          method = Method.post;
          path = txt "/watchlists";
          prepare =
              require name (txt "Watchlist name cannot be empty")
              >> ok (watchlist_form name symbols);
          failure = txt "Failed to create watchlist: ";
          unreadable = Exception.standard (txt "Failed to parse create watchlist response");
          operation = txt "createWatchlist";
        })
        (parse_watchlist lib (txt "Invalid watchlist creation response format"))

  unfoldable pub update_watchlist : Text → Text → List Text → S → ApiResult Watchlist × S
  unfolding parse_watchlist watchlist_form
  update_watchlist id name symbols =
      perform lib client
        (record {
          method = Method.put_method;
          path = one_path id;
          prepare =
              require id (txt "Watchlist ID cannot be empty")
              >> (require name (txt "Watchlist name cannot be empty")
                  >> ok (watchlist_form name symbols));
          failure = txt "Failed to update watchlist: ";
          unreadable = Exception.standard (txt "Failed to parse update watchlist response");
          operation = txt "updateWatchlist";
        })
        (parse_watchlist lib (txt "Invalid watchlist update response format"))

  unfoldable pub delete_watchlist : Text → S → ApiResult (List WatchlistSummary) × S
  unfolding parse_summaries
  delete_watchlist id =
      perform lib client
        (record {
          method = Method.del;
          path = one_path id;
          prepare = require id (txt "Watchlist ID cannot be empty") >> ok [];
          failure = txt "Failed to delete watchlist: ";
          unreadable = Exception.standard (txt "Failed to parse delete watchlist response");
          operation = txt "deleteWatchlist";
        })
        (parse_summaries lib)

  unfoldable pub add_symbols : Text → List Text → S → ApiResult Watchlist × S
  unfolding parse_watchlist joined
  add_symbols id symbols =
      perform lib client
        (record {
          method = Method.post;
          path = one_path id ++ txt "/symbols";
          prepare =
              require id (txt "Watchlist ID cannot be empty")
              >> (throw_if (is_empty symbols) (invalid (txt "Symbols list cannot be empty"))
                  >> ok (put (txt "symbols") (joined b',' symbols) []));
          failure = txt "Failed to add symbols to watchlist: ";
          unreadable = Exception.standard (txt "Failed to parse add symbols response");
          operation = txt "addSymbols";
        })
        (parse_watchlist lib (txt "Invalid add symbols response format"))

  unfoldable pub remove_symbol : Text → Text → S → ApiResult Watchlist × S
  unfolding parse_watchlist
  remove_symbol id symbol =
      perform lib client
        (record {
          method = Method.del;
          path = one_path id ++ (txt "/symbols/" ++ symbol);
          prepare =
              require id (txt "Watchlist ID cannot be empty")
              >> (require symbol (txt "Symbol cannot be empty") >> ok []);
          failure = txt "Failed to remove symbol from watchlist: ";
          unreadable = Exception.standard (txt "Failed to parse remove symbol response");
          operation = txt "removeSymbol";
        })
        (parse_watchlist lib (txt "Invalid remove symbol response format"))
