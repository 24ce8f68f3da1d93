-- ===== src/Trading/Parsers.antt =====
-- parseOrderResponse of src/json/trading.cpp, and the loops over answers with one item or many.
use libtradier.Base.{Option, none, some, List, [], ◌∷◌, if◌then◌else◌, ◌&&◌, not}
use libtradier.Text.{Text, txt}
use libtradier.Int.{ℤ}
use libtradier.Errors.{Outcome, ok, ◌>>=◌}
use libtradier.Service.{Json}
use libtradier.Trading.Orders.{OrderResponse, default_response}

module _ {J D : Type 0} (lib : Json J D) where
  read_partner : J → Outcome (Option Text)
  read_partner order =
      if lib.contains order (txt "partner_id")
        && not (lib.is_null (lib.at order (txt "partner_id")))
        && lib.is_string (lib.at order (txt "partner_id"))
      then lib.get_text (lib.at order (txt "partner_id")) >>= (λ t. ok (some t))
      else ok none

  read_order : J → Outcome OrderResponse
  unfolding read_partner
  read_order order = do
    id ← lib.int_value order (txt "id") (ℤ.pos 0)
    status ← lib.text_value order (txt "status") (txt "")
    partner_id ← read_partner order
    ok (record { id = id; status = status; partner_id = partner_id })

  -- parseOrderResponse
  unfoldable pub parse_order_response : J → Outcome OrderResponse
  unfolding read_order
  parse_order_response json =
      if not (lib.is_null json)
        && lib.is_object json
        && lib.contains json (txt "order")
        && not (lib.is_null (lib.at json (txt "order")))
        && lib.is_object (lib.at json (txt "order"))
      then read_order (lib.at json (txt "order"))
      else ok default_response

  -- A loop that parses and pushes back.
  unfoldable pub parse_each {ℓ} : {A : Type ℓ} → (J → Outcome A) → List J → Outcome (List A)
  parse_each parser [] = ok []
  parse_each parser (item ∷ items) = do
    first ← parser item
    rest ← parse_each parser items
    ok (first ∷ rest)

  -- An array of items, or one item as an object.
  unfoldable pub one_or_many {ℓ} : {A : Type ℓ} → (J → Outcome A) → J → Outcome (List A)
  unfolding parse_each
  one_or_many parser items =
      if lib.is_array items
      then parse_each parser (lib.elements items)
      else if lib.is_object items
      then parse_each parser (items ∷ [])
      else ok []

  -- The parser of cancelAllOrders
  unfoldable pub parse_canceled : J → Outcome (List OrderResponse)
  unfolding one_or_many parse_order_response
  parse_canceled json =
      if lib.contains json (txt "orders") && lib.contains (lib.at json (txt "orders")) (txt "order")
      then one_or_many parse_order_response (lib.at (lib.at json (txt "orders")) (txt "order"))
      else ok []
