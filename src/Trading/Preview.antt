-- ===== src/Trading/Preview.antt =====
-- parseOrderPreview of src/json/trading.cpp, and previewOrder of src/trading.cpp.
use libtradier.Base.{◌≡◌, refl, Bool, false, if◌then◌else◌, ◌&&◌, not}
use libtradier.Text.{Text, txt, text_eq}
use libtradier.Int.{ℤ}
use libtradier.Errors.{Outcome, ok, ◌>>=◌}
use libtradier.ApiResult.{ApiResult}
use libtradier.Service.{Client, Json, perform}
use libtradier.Validation.{Doubles}
use libtradier.Trading.Orders.{
  OrderType, OrderSide, OrderDuration, OrderRequest, side_text, type_text, duration_text,
}
use libtradier.Trading.Operations.{preview_order_call}

pub data OrderClass : Type 0 where
  equity option multileg combo : OrderClass

-- The texts of the preview; what is not known, the empty text included, is the first of its kind.
unfoldable pub read_side : Text → OrderSide
read_side s =
    if text_eq s (txt "buy")
    then OrderSide.buy
    else if text_eq s (txt "sell")
    then OrderSide.sell
    else if text_eq s (txt "buy_to_open")
    then OrderSide.buy_to_open
    else if text_eq s (txt "buy_to_close")
    then OrderSide.buy_to_close
    else if text_eq s (txt "sell_to_open")
    then OrderSide.sell_to_open
    else if text_eq s (txt "sell_to_close")
    then OrderSide.sell_to_close
    else OrderSide.buy

unfoldable pub read_type : Text → OrderType
read_type s =
    if text_eq s (txt "market")
    then OrderType.market
    else if text_eq s (txt "limit")
    then OrderType.limit
    else if text_eq s (txt "stop")
    then OrderType.stop
    else if text_eq s (txt "stop_limit")
    then OrderType.stop_limit
    else if text_eq s (txt "debit")
    then OrderType.debit
    else if text_eq s (txt "credit")
    then OrderType.credit
    else OrderType.market

unfoldable pub read_duration : Text → OrderDuration
read_duration s =
    if text_eq s (txt "day")
    then OrderDuration.day
    else if text_eq s (txt "gtc")
    then OrderDuration.gtc
    else if text_eq s (txt "pre")
    then OrderDuration.pre
    else if text_eq s (txt "post")
    then OrderDuration.post
    else OrderDuration.day

unfoldable pub read_class : Text → OrderClass
read_class s =
    if text_eq s (txt "equity")
    then OrderClass.equity
    else if text_eq s (txt "option")
    then OrderClass.option
    else if text_eq s (txt "multileg")
    then OrderClass.multileg
    else if text_eq s (txt "combo")
    then OrderClass.combo
    else OrderClass.equity

pub record OrderPreview (D : Type 0) : Type 0 where
  pub status : Text
  pub commission : D
  pub cost : D
  pub fees : D
  pub symbol : Text
  pub quantity : D
  pub result : Bool
  pub order_cost : D
  pub margin_change : D
  pub request_date : Text
  pub extended_hours : Bool
  pub strategy : Text
  pub day_trades : ℤ
  pub side : OrderSide
  pub type : OrderType
  pub duration : OrderDuration
  pub order_class : OrderClass

module _ {J D : Type 0} (doubles : Doubles D) (lib : Json J D) where
  abbrev pub default_preview : OrderPreview D
  default_preview = record {
    status = txt "";
    commission = doubles.whole 0;
    cost = doubles.whole 0;
    fees = doubles.whole 0;
    symbol = txt "";
    quantity = doubles.whole 0;
    result = false;
    order_cost = doubles.whole 0;
    margin_change = doubles.whole 0;
    request_date = txt "";
    extended_hours = false;
    strategy = txt "";
    day_trades = ℤ.pos 0;
    side = OrderSide.buy;
    type = OrderType.market;
    duration = OrderDuration.day;
    order_class = OrderClass.equity;
  }

  read_preview : J → Outcome (OrderPreview D)
  unfolding read_side read_type read_duration read_class
  read_preview order = do
    status ← lib.text_value order (txt "status") (txt "")
    commission ← lib.double_value order (txt "commission") (doubles.whole 0)
    cost ← lib.double_value order (txt "cost") (doubles.whole 0)
    fees ← lib.double_value order (txt "fees") (doubles.whole 0)
    symbol ← lib.text_value order (txt "symbol") (txt "")
    quantity ← lib.double_value order (txt "quantity") (doubles.whole 0)
    result ← lib.bool_value order (txt "result") false
    order_cost ← lib.double_value order (txt "order_cost") (doubles.whole 0)
    margin_change ← lib.double_value order (txt "margin_change") (doubles.whole 0)
    request_date ← lib.text_value order (txt "request_date") (txt "")
    extended_hours ← lib.bool_value order (txt "extended_hours") false
    strategy ← lib.text_value order (txt "strategy") (txt "")
    day_trades ← lib.int_value order (txt "day_trades") (ℤ.pos 0)
    side ← lib.text_value order (txt "side") (txt "")
    type_name ← lib.text_value order (txt "type") (txt "")
    duration ← lib.text_value order (txt "duration") (txt "")
    class_name ← lib.text_value order (txt "class") (txt "")
    ok (record {
      status = status;
      commission = commission;
      cost = cost;
      fees = fees;
      symbol = symbol;
      quantity = quantity;
      result = result;
      order_cost = order_cost;
      margin_change = margin_change;
      request_date = request_date;
      extended_hours = extended_hours;
      strategy = strategy;
      day_trades = day_trades;
      side = read_side side;
      type = read_type type_name;
      duration = read_duration duration;
      order_class = read_class class_name;
    })

  -- parseOrderPreview
  unfoldable pub parse_order_preview : J → Outcome (OrderPreview D)
  unfolding read_preview
  parse_order_preview json =
      if not (lib.is_null json)
        && lib.is_object json
        && lib.contains json (txt "order")
        && not (lib.is_null (lib.at json (txt "order")))
        && lib.is_object (lib.at json (txt "order"))
      then read_preview (lib.at json (txt "order"))
      else ok default_preview

  unfoldable pub preview_order :
      {S : Type 0} → Client S → Text → OrderRequest D → S → ApiResult (OrderPreview D) × S
  unfolding parse_order_preview
  preview_order client account request =
      perform lib client (preview_order_call doubles account request) parse_order_preview

-- What a form says of an order's side, type and duration is what a preview with these texts reads
-- back.
pub read-text :
    ((s : OrderSide) → read_side (side_text s) ≡ s)
    × ((t : OrderType) → read_type (type_text t) ≡ t)
    × ((d : OrderDuration) → read_duration (duration_text d) ≡ d)
unfolding read_side read_type read_duration side_text type_text duration_text text_eq txt
read-text = (sides, types, durations)
  where
    sides : (s : OrderSide) → read_side (side_text s) ≡ s
    sides OrderSide.buy = refl
    sides OrderSide.sell = refl
    sides OrderSide.buy_to_open = refl
    sides OrderSide.buy_to_close = refl
    sides OrderSide.sell_to_open = refl
    sides OrderSide.sell_to_close = refl

    types : (t : OrderType) → read_type (type_text t) ≡ t
    types OrderType.market = refl
    types OrderType.limit = refl
    types OrderType.stop = refl
    types OrderType.stop_limit = refl
    types OrderType.debit = refl
    types OrderType.credit = refl

    durations : (d : OrderDuration) → read_duration (duration_text d) ≡ d
    durations OrderDuration.day = refl
    durations OrderDuration.gtc = refl
    durations OrderDuration.pre = refl
    durations OrderDuration.post = refl
