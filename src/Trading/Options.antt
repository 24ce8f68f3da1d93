-- ===== src/Trading/Options.antt =====
-- The four functions on options of src/trading.cpp, and the sides of the legs of a multi-leg order.
use libtradier.Base.{◌≡◌, ◌≢◌, refl, ◌∙◌, ◌++◌, Option, some, List, ◌∷◌, length, arith}
use libtradier.Text.{Text, txt}
use libtradier.ApiResult.{validation_error, try_execute}
use libtradier.Validation.{Doubles, invalid, require_valid_symbol, in_context}
use libtradier.Validation.Rules.{IsAccount, require_valid_account_number-IsAccount}
use libtradier.Errors.{throw}
use libtradier.Service.{Client, Json}
use libtradier.Service.Laws.{perform-unprepared}
use libtradier.Trading.Requests.{build_params, check_request, leg_key, multi_leg_form}
use libtradier.Trading.Legs.{multi_leg_form-Leg}
use libtradier.FormMap.{find}
use libtradier.Trading.Orders.{
  OptionAction, OptionLeg, MultiLegOrder, OrderRequest, cast_side, side_text, action_text,
}
use libtradier.Trading.Parsers.{parse_order_response}
use libtradier.Trading.Operations.{
  place_order, place_order_call, buy_to_open_option, sell_to_open_option, buy_to_close_option,
  sell_to_close_option,
}

cast_side-ne : (a : OptionAction) → side_text (cast_side a) ≢ action_text a
unfolding cast_side side_text action_text txt
cast_side-ne OptionAction.buy_to_open = ground arith
cast_side-ne OptionAction.buy_to_close = ground arith
cast_side-ne OptionAction.sell_to_open = ground arith
cast_side-ne OptionAction.sell_to_close = ground arith

-- What placeMultiLegOrder writes as the side of a leg is never the text of the leg's own action.
pub multi_leg_form-side_ne :
    {D : Type 0} (doubles : Doubles D) (m : MultiLegOrder D) (before : List (OptionLeg D))
    (leg : OptionLeg D) (after : List (OptionLeg D))
    → m.legs ≡ before ++ leg ∷ after
    → (side : Text) × (find (leg_key (length before) (txt "[side]")) (multi_leg_form doubles m)
        ≡ some side)
      × (side ≢ action_text leg.action)
multi_leg_form-side_ne doubles m before leg after h =
    let (_, side, _) = multi_leg_form-Leg doubles m before leg after h in
    (side_text (cast_side leg.action), side, cast_side-ne leg.action)

unprepared :
    {D : Type 0} (doubles : Doubles D) (account : Text) (r : OrderRequest D)
    → IsAccount account
    → r.symbol ≡ txt ""
    → (place_order_call doubles account r).prepare
      ≡ throw (invalid (txt "buildParams: Validation: symbol cannot be empty"))
unfolding place_order_call build_params check_request require_valid_symbol in_context txt
unprepared doubles account r valid empty =
    rw ((require_valid_account_number-IsAccount account).1 valid, empty) refl

abbrev pub refusal : Text
refusal = txt "placeOrder: Validation: buildParams: Validation: symbol cannot be empty"

module _ {J D S : Type 0} (doubles : Doubles D) (lib : Json J D) (client : Client S) where
  no_symbol :
      (account : Text) (r : OrderRequest D) (s : S)
      → IsAccount account
      → r.symbol ≡ txt ""
      → place_order doubles lib client account r s ≡ (validation_error refusal, s)
  unfolding place_order place_order_call validation_error try_execute txt
  no_symbol account r s valid empty =
      perform-unprepared lib client (place_order_call doubles account r) (parse_order_response lib)
        s (invalid (txt "buildParams: Validation: symbol cannot be empty"))
        (unprepared doubles account r valid empty)
      ∙ refl

  -- With an account number of 8 to 20 characters, each of the four functions on options fails with
  -- the same validation error, whatever the option, the quantity and the price, and sends nothing:
  -- the request's own symbol is empty.
  pub option_orders-refused :
      (account option_symbol : Text) (quantity : D) (price : Option D) (s : S)
      → IsAccount account
      → (buy_to_open_option doubles lib client account option_symbol quantity price s
          ≡ (validation_error refusal, s))
        × (sell_to_open_option doubles lib client account option_symbol quantity price s
            ≡ (validation_error refusal, s))
        × (buy_to_close_option doubles lib client account option_symbol quantity price s
            ≡ (validation_error refusal, s))
        × (sell_to_close_option doubles lib client account option_symbol quantity price s
            ≡ (validation_error refusal, s))
  unfolding buy_to_open_option sell_to_open_option buy_to_close_option sell_to_close_option
  option_orders-refused account option_symbol quantity price s valid = (
    no_symbol account _ s valid refl,
    no_symbol account _ s valid refl,
    no_symbol account _ s valid refl,
    no_symbol account _ s valid refl,
  )
