-- ===== src/Trading/Requests.antt =====
-- The forms that src/trading.cpp sends, and the checks in front of them.
use libtradier.Base.{ℕ, suc, ◌++◌, Option, none, some, List, [], ◌∷◌}
use libtradier.Text.{Text, txt, decimal}
use libtradier.Int.{ℤ, to_text}
use libtradier.Errors.{Outcome, ok, ◌>>◌}
use libtradier.FormMap.{FormMap, put, put_some}
use libtradier.Validation.{
  Doubles, require_valid_symbol, require_valid_quantity, require_valid_price, in_context,
}
use libtradier.Trading.Orders.{
  OrderSide, type_text, side_text, duration_text, cast_side, OptionLeg, BracketOrder, MultiLegOrder,
  OrderRequest, OrderModification,
}

-- if (value) check(*value);
abbrev pub check_some {ℓ} : {A : Type ℓ} → (A → Outcome (Unit {0})) → Option A → Outcome (Unit {0})
check_some check none = ok tt
check_some check (some v) = check v

abbrev pub same_text : Text → Text
same_text s = s

abbrev pub order_class : Option Text → Text
order_class none = txt "equity"
order_class (some s) = txt "option"

-- "/accounts/" + account + "/orders", and with an order's number behind it
abbrev pub orders_path : Text → Text
orders_path account = txt "/accounts/" ++ (account ++ txt "/orders")

abbrev pub order_path : Text → ℤ → Text
order_path account id = txt "/accounts/" ++ (account ++ (txt "/orders/" ++ to_text id))

abbrev pub exit_side : OrderSide → Text
exit_side OrderSide.buy = txt "sell"
exit_side _ = txt "buy"

-- "option[" + std::to_string(i) + "]" + field
abbrev pub leg_key : ℕ → Text → Text
leg_key i field = txt "option[" ++ (decimal i ++ (txt "]" ++ field))

module _ {D : Type 0} (doubles : Doubles D) where
  -- The checks of buildParams
  unfoldable pub check_request : OrderRequest D → Outcome (Unit {0})
  unfolding require_valid_symbol require_valid_quantity require_valid_price
  check_request request = do
    require_valid_symbol request.symbol
    require_valid_quantity doubles request.quantity
    check_some (require_valid_price doubles) request.price
    check_some (require_valid_price doubles) request.stop
    check_some require_valid_symbol request.option_symbol

  -- The form of buildParams
  unfoldable pub request_form : OrderRequest D → FormMap
  request_form r = put_some (txt "tag") same_text r.tag (
      put_some (txt "option_symbol") same_text r.option_symbol (
        put_some (txt "stop") doubles.print r.stop (
          put_some (txt "price") doubles.print r.price (
            put (txt "duration") (duration_text r.duration) (
              put (txt "type") (type_text r.type) (
                put (txt "quantity") (doubles.print r.quantity) (
                  put (txt "side") (side_text r.side) (
                    put (txt "symbol") r.symbol
                      (put (txt "class") (order_class r.option_symbol) [])))))))))

  unfoldable pub build_params : OrderRequest D → Outcome FormMap
  unfolding check_request request_form in_context
  build_params request = do
    in_context (txt "buildParams") (check_request request)
    ok (request_form request)

  -- The form of modifyOrder
  unfoldable pub modify_form : OrderRequest D → FormMap
  modify_form changes = put_some (txt "stop") doubles.print changes.stop (
      put_some (txt "price") doubles.print changes.price (
        put (txt "duration") (duration_text changes.duration)
          (put (txt "type") (type_text changes.type) [])))

  -- The form of placeBracketOrder
  unfoldable pub bracket_form : BracketOrder D → FormMap
  bracket_form b = put_some (txt "tag") same_text b.tag (
      put (txt "oto[1][stop]") (doubles.print b.stop_loss_price) (
        put (txt "oto[1][type]") (txt "stop") (
          put (txt "oto[1][quantity]") (doubles.print b.quantity) (
            put (txt "oto[1][side]") (exit_side b.side) (
              put (txt "oto[1][symbol]") b.symbol (
                put (txt "oto[1][instrument]") (txt "equity") (
                  put (txt "oto[0][price]") (doubles.print b.take_profit_price) (
                    put (txt "oto[0][type]") (txt "limit") (
                      put (txt "oto[0][quantity]") (doubles.print b.quantity) (
                        put (txt "oto[0][side]") (exit_side b.side) (
                          put (txt "oto[0][symbol]") b.symbol (
                            put (txt "oto[0][instrument]") (txt "equity") (entry_form b)))))))))))))
    where
      entry_form : BracketOrder D → FormMap
      entry_form b = put (txt "duration") (duration_text b.duration) (
          put (txt "price") (doubles.print b.entry_price) (
            put (txt "type") (txt "limit") (
              put (txt "quantity") (doubles.print b.quantity) (
                put (txt "side") (side_text b.side)
                  (put (txt "symbol") b.symbol (put (txt "class") (txt "oto") []))))))

  -- The loop over the legs of placeMultiLegOrder, from number `i` on
  unfoldable pub legs_form : ℕ → List (OptionLeg D) → FormMap → FormMap
  legs_form i [] form = form
  legs_form i (leg ∷ legs) form = legs_form (suc i) legs (
      put (leg_key i (txt "[quantity]")) (doubles.print leg.quantity) (
        put (leg_key i (txt "[side]")) (side_text (cast_side leg.action))
          (put (leg_key i (txt "[option_symbol]")) leg.option_symbol form)))

  -- The form of placeMultiLegOrder
  unfoldable pub multi_leg_form : MultiLegOrder D → FormMap
  unfolding legs_form
  multi_leg_form m = put_some (txt "tag") same_text m.tag (
      legs_form 0 m.legs (
        put_some (txt "price") doubles.print m.net_credit (
          put_some (txt "price") doubles.print m.net_debit (
            put (txt "duration") (duration_text m.duration)
              (put (txt "type") (type_text m.type) (put (txt "class") (txt "multileg") []))))))

  -- The form of modifyOrderAdvanced
  unfoldable pub modification_form : OrderModification D → FormMap
  modification_form m = put_some (txt "duration") duration_text m.duration (
      put_some (txt "quantity") doubles.print m.quantity (
        put_some (txt "stop") doubles.print m.stop (
          put_some (txt "price") doubles.print m.price
            (put_some (txt "type") type_text m.type []))))
