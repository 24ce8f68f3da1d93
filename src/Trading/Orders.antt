-- ===== src/Trading/Orders.antt =====
-- The order types of include/tradier/trading.hpp and their texts.
use libtradier.Base.{List, Option, none, if◌then◌else◌}
use libtradier.Text.{Text, txt, text_eq}
use libtradier.Int.{ℤ}

pub data OrderType : Type 0 where
  market limit stop stop_limit debit credit : OrderType

pub data OrderSide : Type 0 where
  buy sell buy_to_open buy_to_close sell_to_open sell_to_close : OrderSide

pub data OrderDuration : Type 0 where
  day gtc pre post : OrderDuration

pub data OptionAction : Type 0 where
  buy_to_open buy_to_close sell_to_open sell_to_close : OptionAction

pub data OrderStatus : Type 0 where
  open_status partially_filled filled expired canceled pending rejected error : OrderStatus

-- The overloads of TradingService::toString
unfoldable pub type_text : OrderType → Text
type_text OrderType.market = txt "market"
type_text OrderType.limit = txt "limit"
type_text OrderType.stop = txt "stop"
type_text OrderType.stop_limit = txt "stop_limit"
type_text OrderType.debit = txt "debit"
type_text OrderType.credit = txt "credit"

unfoldable pub side_text : OrderSide → Text
side_text OrderSide.buy = txt "buy"
side_text OrderSide.sell = txt "sell"
side_text OrderSide.buy_to_open = txt "buy_to_open"
side_text OrderSide.buy_to_close = txt "buy_to_close"
side_text OrderSide.sell_to_open = txt "sell_to_open"
side_text OrderSide.sell_to_close = txt "sell_to_close"

unfoldable pub duration_text : OrderDuration → Text
duration_text OrderDuration.day = txt "day"
duration_text OrderDuration.gtc = txt "gtc"
duration_text OrderDuration.pre = txt "pre"
duration_text OrderDuration.post = txt "post"

unfoldable pub action_text : OptionAction → Text
action_text OptionAction.buy_to_open = txt "buy_to_open"
action_text OptionAction.buy_to_close = txt "buy_to_close"
action_text OptionAction.sell_to_open = txt "sell_to_open"
action_text OptionAction.sell_to_close = txt "sell_to_close"

-- static_cast<OrderSide>(action): both enumerations are numbered from 0 in the order of their names.
unfoldable pub cast_side : OptionAction → OrderSide
cast_side OptionAction.buy_to_open = OrderSide.buy
cast_side OptionAction.buy_to_close = OrderSide.sell
cast_side OptionAction.sell_to_open = OrderSide.buy_to_open
cast_side OptionAction.sell_to_close = OrderSide.buy_to_close

-- parseOrderStatus
unfoldable pub parse_order_status : Text → OrderStatus
parse_order_status s =
    if text_eq s (txt "open")
    then OrderStatus.open_status
    else if text_eq s (txt "partially_filled")
    then OrderStatus.partially_filled
    else if text_eq s (txt "filled")
    then OrderStatus.filled
    else if text_eq s (txt "expired")
    then OrderStatus.expired
    else if text_eq s (txt "canceled")
    then OrderStatus.canceled
    else if text_eq s (txt "pending")
    then OrderStatus.pending
    else if text_eq s (txt "rejected")
    then OrderStatus.rejected
    else if text_eq s (txt "error")
    then OrderStatus.error
    else OrderStatus.pending

pub record OrderResponse : Type 0 where
  pub id : ℤ
  pub status : Text
  pub partner_id : Option Text

abbrev pub default_response : OrderResponse
default_response = record { id = ℤ.pos 0; status = txt ""; partner_id = none }

module _ (D : Type 0) where
  pub record OptionLeg : Type 0 where
    pub option_symbol : Text
    pub action : OptionAction
    pub quantity : D

  pub record BracketOrder : Type 0 where
    pub symbol : Text
    pub side : OrderSide
    pub quantity : D
    pub entry_price : D
    pub take_profit_price : D
    pub stop_loss_price : D
    pub duration : OrderDuration
    pub tag : Option Text

  pub record MultiLegOrder : Type 0 where
    pub legs : List OptionLeg
    pub type : OrderType
    pub duration : OrderDuration
    pub net_debit : Option D
    pub net_credit : Option D
    pub tag : Option Text

  pub record OrderRequest : Type 0 where
    pub symbol : Text
    pub side : OrderSide
    pub quantity : D
    pub type : OrderType
    pub duration : OrderDuration
    pub price : Option D
    pub stop : Option D
    pub option_symbol : Option Text
    pub tag : Option Text

  pub record OrderModification : Type 0 where
    pub type : Option OrderType
    pub price : Option D
    pub stop : Option D
    pub quantity : Option D
    pub duration : Option OrderDuration
