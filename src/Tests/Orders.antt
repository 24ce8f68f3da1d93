-- ===== src/Tests/Orders.antt =====
-- src/trading.cpp at concrete orders. Doubles are whole numbers here, and the server accepts every
-- order.
use libtradier.Base.{ℕ, ◌+◌, ◌≡◌, refl, ◌↔◌, true, false, leb, ltb, none, some, [], ◌∷◌}
use libtradier.Int.{ℤ}
use libtradier.Text.{Text, txt, decimal}
use libtradier.Errors.{ApiError, ok}
use libtradier.ApiResult.{of_value, of_error}
use libtradier.Http.{Response, Method, success}
use libtradier.Service.{Client, Json, parse_response}
use libtradier.Validation.{Doubles}
use libtradier.Validation.Rules.{IsAccount}
use libtradier.Trading.Orders.{
  OrderType, OrderSide, OrderDuration, OptionAction, OptionLeg, BracketOrder, MultiLegOrder,
  OrderRequest, default_response,
}
use libtradier.Trading.Requests.{request_form, multi_leg_form, orders_path}
use libtradier.Trading.Parsers.{parse_order_response}
use libtradier.Trading.Operations.{place_order}
use libtradier.Trading.Checks.{IsRequest, place_order-of_value, place_order-refused}
use libtradier.Trading.Legs.{Leg, multi_leg_form-Leg}

abbrev pub numbers : Doubles ℕ
numbers = record { le = leb; lt = ltb; whole = λ n. n; print = decimal }

-- A body that is an empty object.
abbrev pub blank : Json ℕ ℕ
blank = record {
  parse = λ t. ok 0;
  contains = λ j key. false;
  at = λ j key. j;
  index = λ j key. ok j;
  is_null = λ j. false;
  is_object = λ j. true;
  is_array = λ j. false;
  is_string = λ j. false;
  is_number = λ j. true;
  elements = λ j. [];
  text_value = λ j key d. ok d;
  int_value = λ j key d. ok d;
  long_value = λ j key d. ok d;
  double_value = λ j key d. ok d;
  bool_value = λ j key d. ok d;
  get_text = λ j. ok [];
  get_double = λ j. ok j;
  get_int = λ j. ok (ℤ.pos j);
  get_long = λ j. ok (ℤ.pos j);
  get_bool = λ j. ok false;
  empty_object = 0;
}

-- The state counts the requests; `code` is the status of every answer.
abbrev pub server : ℕ → Client ℕ
server code = record {
  send =
      λ method path params s. (ok (record { status = code; body = txt "{}"; headers = [] }), s + 1);
}

abbrev account : Text
account = txt "VA12345678"

abbrev order : OrderRequest ℕ
order = record {
  symbol = txt "AAPL";
  side = OrderSide.buy;
  quantity = 10;
  type = OrderType.limit;
  duration = OrderDuration.gtc;
  price = some 150;
  stop = none;
  option_symbol = none;
  tag = none;
}

abbrev bad_order : OrderRequest ℕ
bad_order = record order { quantity = 0 }

place_order-of_value_example :
    ((place_order numbers blank (server 200) account order 0).0 ≡ of_value default_response) ↔ (
      IsAccount account
      × IsRequest numbers order
      × ((response : Response) × (((server 200).send Method.post
              (orders_path account)
              (request_form numbers order)
              0).0
            ≡ ok response)
          × (success response ≡ true)
          × (parse_response blank response (parse_order_response blank) ≡ some default_response)))
place_order-of_value_example =
    place_order-of_value numbers blank (server 200) account order 0 default_response

no_quantity : ¬ (IsAccount account × IsRequest numbers bad_order)
no_quantity (a, (s, (q, p))) = cc q.0

place_order-refused_example :
    ((place_order numbers blank (server 200) account bad_order 0).1 ≡ 0)
    × ((e : ApiError) × ((place_order numbers blank (server 200) account bad_order 0).0
          ≡ of_error e))
place_order-refused_example =
    place_order-refused numbers blank (server 200) account bad_order 0 no_quantity

abbrev bracket : BracketOrder ℕ
bracket = record {
  symbol = txt "AAPL";
  side = OrderSide.buy;
  quantity = 10;
  entry_price = 150;
  take_profit_price = 170;
  stop_loss_price = 140;
  duration = OrderDuration.day;
  tag = some (txt "t1");
}

abbrev long_leg : OptionLeg ℕ
long_leg = record { option_symbol = txt "A1C"; action = OptionAction.buy_to_open; quantity = 1 }

abbrev short_leg : OptionLeg ℕ
short_leg = record { option_symbol = txt "A1P"; action = OptionAction.sell_to_open; quantity = 1 }

abbrev spread : MultiLegOrder ℕ
spread = record {
  legs = long_leg ∷ short_leg ∷ [];
  type = OrderType.debit;
  duration = OrderDuration.day;
  net_debit = some 2;
  net_credit = none;
  tag = none;
}

multi_leg_form-Leg_example : Leg numbers 1 short_leg (multi_leg_form numbers spread)
multi_leg_form-Leg_example = multi_leg_form-Leg numbers spread (long_leg ∷ []) short_leg [] refl
