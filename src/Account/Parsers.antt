-- ===== src/Account/Parsers.antt =====
-- The parsers of src/json/account.cpp.
use libtradier.Base.{false, ◌&&◌, not, List, [], ◌∷◌, ◌++◌, Option, none, some, if◌then◌else◌}
use libtradier.Text.{Text, txt}
use libtradier.Int.{ℤ}
use libtradier.Errors.{Exception, what, Outcome, ok, throw, ◌>>=◌}
use libtradier.Validation.{Doubles}
use libtradier.Service.{Json}
use libtradier.Dates.{Calendar}
use libtradier.SafeJson.{parse_date_time}
use libtradier.Market.Reading.{present, text_at, double_at, parse_items}
use libtradier.Account.Types.{
  Account, AccountProfile, Position, Order, no_account, no_profile, no_position, no_order,
}

-- catch (const std::exception& e) { throw ParseError(label + e.what()); }
unfoldable pub parse_failed : {A : Type 0} → Text → Outcome A → Outcome A
parse_failed label (ok a) = ok a
parse_failed label (throw e) = throw (Exception.parse (label ++ what e))

module _ {J D Tm : Type 0} (lib : Json J D) (doubles : Doubles D) (calendar : Calendar Tm) where
  -- The time under a key, if there is a string
  unfoldable pub time_at : J → Text → ℤ
  unfolding parse_date_time
  time_at json key =
      if present lib json key && lib.is_string (lib.at json key)
      then parse_date_time lib calendar json key
      else ℤ.pos 0

  read_account : J → Outcome Account
  unfolding text_at time_at
  read_account json = do
    number ← text_at lib json (txt "account_number")
    type ← text_at lib json (txt "type")
    status ← text_at lib json (txt "status")
    classification ← text_at lib json (txt "classification")
    day_trader ← lib.bool_value json (txt "day_trader") false
    option_level ← lib.int_value json (txt "option_level") (ℤ.pos 0)
    ok (record {
      number = number;
      type = type;
      status = status;
      classification = classification;
      day_trader = day_trader;
      option_level = option_level;
      date_created = time_at json (txt "date_created");
      last_update = time_at json (txt "last_update_date");
    })

  unfoldable pub parse_account : J → Outcome Account
  unfolding read_account no_account parse_failed
  parse_account json =
      parse_failed (txt "Failed to parse account: ")
        (if not (lib.is_null json) && lib.is_object json then read_account json else ok no_account)

  read_accounts : J → Outcome (List Account)
  unfolding parse_items parse_account
  read_accounts json =
      if present lib json (txt "account")
      then parse_items lib parse_account (lib.at json (txt "account"))
      else ok []

  read_profile : J → Outcome AccountProfile
  unfolding text_at read_accounts
  read_profile json = do
    id ← text_at lib json (txt "id")
    name ← text_at lib json (txt "name")
    accounts ← read_accounts json
    ok (record { id = id; name = name; accounts = accounts })

  unfoldable pub parse_account_profile : J → Outcome AccountProfile
  unfolding read_profile no_profile parse_failed
  parse_account_profile json =
      parse_failed (txt "Failed to parse account profile: ")
        (if not (lib.is_null json) && lib.is_object json then read_profile json else ok no_profile)

  read_position : J → Outcome (Position D)
  unfolding text_at double_at time_at
  read_position json = do
    symbol ← text_at lib json (txt "symbol")
    quantity ← double_at lib doubles json (txt "quantity")
    cost_basis ← double_at lib doubles json (txt "cost_basis")
    ok (record {
      symbol = symbol;
      quantity = quantity;
      cost_basis = cost_basis;
      acquired = time_at json (txt "date_acquired");
    })

  unfoldable pub parse_position : J → Outcome (Position D)
  unfolding read_position no_position parse_failed
  parse_position json = parse_failed (txt "Failed to parse position: ") (
      if not (lib.is_null json) && lib.is_object json
      then read_position json
      else ok (no_position doubles))

  read_tag : J → Outcome (Option Text)
  read_tag json =
      if present lib json (txt "tag") && lib.is_string (lib.at json (txt "tag"))
      then lib.get_text (lib.at json (txt "tag")) >>= (λ tag. ok (some tag))
      else ok none

  read_order : J → Outcome (Order D)
  unfolding text_at double_at time_at read_tag
  read_order json = do
    id ← lib.int_value json (txt "id") (ℤ.pos 0)
    symbol ← text_at lib json (txt "symbol")
    type ← text_at lib json (txt "type")
    side ← text_at lib json (txt "side")
    status ← text_at lib json (txt "status")
    quantity ← double_at lib doubles json (txt "quantity")
    price ← double_at lib doubles json (txt "price")
    filled ← double_at lib doubles json (txt "exec_quantity")
    tag ← read_tag json
    ok (record {
      id = id;
      symbol = symbol;
      type = type;
      side = side;
      status = status;
      quantity = quantity;
      price = price;
      filled = filled;
      created = time_at json (txt "create_date");
      tag = tag;
    })

  unfoldable pub parse_order : J → Outcome (Order D)
  unfolding read_order no_order parse_failed
  parse_order json = parse_failed (txt "Failed to parse order: ") (
      if not (lib.is_null json) && lib.is_object json
      then read_order json
      else ok (no_order doubles))

  -- The loop of parseAccounts, which leaves out what cannot be parsed
  unfoldable pub parse_parsable : List J → List Account
  unfolding parse_account
  parse_parsable [] = []
  parse_parsable (item ∷ items) =
      let rest = parse_parsable items in
      if lib.is_null item
      then rest
      else elim (parse_account item) [ ok account ↦ account ∷ rest | throw e ↦ rest ]

  unfoldable pub parse_accounts : J → Outcome (List Account)
  unfolding parse_parsable parse_account parse_failed
  parse_accounts json = parse_failed (txt "Failed to parse accounts array: ") (
      if not (lib.is_null json)
      then if lib.is_array json
        then ok (parse_parsable (lib.elements json))
        else if lib.is_object json
        then parse_account json >>= (λ account. ok (account ∷ []))
        else ok []
      else ok [])

  -- What parsePositions and parseOrders have in common
  unfoldable pub items_at : {A : Type 0} → Text → (J → Outcome A) → J → Outcome (List A)
  unfolding parse_items
  items_at key parser json =
      if not (lib.is_null json) && lib.is_object json && present lib json key
      then parse_items lib parser (lib.at json key)
      else ok []

  unfoldable pub parse_positions : J → Outcome (List (Position D))
  unfolding items_at parse_position parse_failed
  parse_positions json =
      parse_failed (txt "Failed to parse positions array: ")
        (items_at (txt "position") parse_position json)

  unfoldable pub parse_orders : J → Outcome (List (Order D))
  unfolding items_at parse_order parse_failed
  parse_orders json =
      parse_failed (txt "Failed to parse orders array: ") (items_at (txt "order") parse_order json)
