-- ===== src/Trading/Operations.antt =====
-- The operations of TradingService in src/trading.cpp.
use libtradier.Base.{◌++◌, Option, none, some, List, [], is_empty}
use libtradier.Text.{Text, txt}
use libtradier.Int.{ℤ}
use libtradier.Errors.{Exception, ok, ◌>>◌, throw_if}
use libtradier.ApiResult.{ApiResult}
use libtradier.Http.{Method}
use libtradier.Service.{Client, Json, Call, perform}
use libtradier.Validation.{Doubles, invalid, require_valid_account_number, require_valid_order_id}
use libtradier.Trading.Orders.{
  OrderType, OrderSide, OrderDuration, OrderResponse, BracketOrder, MultiLegOrder, OrderRequest,
  OrderModification,
}
use libtradier.Trading.Parsers.{parse_order_response, parse_canceled}
use libtradier.Trading.Requests.{
  orders_path, order_path, build_params, modify_form, bracket_form, multi_leg_form,
  modification_form,
}

-- The calls: path, checks and form, and the texts of the errors.
module _ {D : Type 0} (doubles : Doubles D) where
  unfoldable pub place_order_call : Text → OrderRequest D → Call
  unfolding require_valid_account_number build_params
  place_order_call account request = record {
    method = Method.post;
    path = orders_path account;
    prepare = require_valid_account_number account >> build_params doubles request;
    failure = txt "Failed to place order: ";
    unreadable = Exception.parse (txt "Failed to parse order response");
    operation = txt "placeOrder";
  }

  unfoldable pub preview_order_call : Text → OrderRequest D → Call
  unfolding require_valid_account_number build_params
  preview_order_call account request = record {
    method = Method.post;
    path = orders_path account ++ txt "/preview";
    prepare = require_valid_account_number account >> build_params doubles request;
    failure = txt "Failed to preview order: ";
    unreadable = Exception.parse (txt "Failed to parse order preview response");
    operation = txt "previewOrder";
  }

  unfoldable pub cancel_order_call : Text → ℤ → Call
  unfolding require_valid_account_number require_valid_order_id
  cancel_order_call account id = record {
    method = Method.del;
    path = order_path account id;
    prepare = require_valid_account_number account >> (require_valid_order_id id >> ok []);
    failure = txt "Failed to cancel order: ";
    unreadable = Exception.parse (txt "Failed to parse cancel order response");
    operation = txt "cancelOrder";
  }

  unfoldable pub modify_order_call : Text → ℤ → OrderRequest D → Call
  unfolding require_valid_account_number require_valid_order_id modify_form
  modify_order_call account id changes = record {
    method = Method.put_method;
    path = order_path account id;
    prepare =
        require_valid_account_number account
        >> (require_valid_order_id id >> ok (modify_form doubles changes));
    failure = txt "Failed to modify order: ";
    unreadable = Exception.parse (txt "Failed to parse modify order response");
    operation = txt "modifyOrder";
  }

  unfoldable pub bracket_order_call : Text → BracketOrder D → Call
  unfolding require_valid_account_number bracket_form
  bracket_order_call account order = record {
    method = Method.post;
    path = orders_path account;
    prepare = require_valid_account_number account >> ok (bracket_form doubles order);
    failure = txt "Failed to place bracket order: ";
    unreadable = Exception.parse (txt "Failed to parse bracket order response");
    operation = txt "placeBracketOrder";
  }

  unfoldable pub multi_leg_order_call : Text → MultiLegOrder D → Call
  unfolding require_valid_account_number multi_leg_form
  multi_leg_order_call account order = record {
    method = Method.post;
    path = orders_path account;
    prepare =
        require_valid_account_number account
        >> (throw_if (is_empty order.legs)
              (invalid (txt "Multi-leg order must have at least one leg"))
            >> ok (multi_leg_form doubles order));
    failure = txt "Failed to place multi-leg order: ";
    unreadable = Exception.parse (txt "Failed to parse multi-leg order response");
    operation = txt "placeMultiLegOrder";
  }

  unfoldable pub modify_advanced_call : Text → ℤ → OrderModification D → Call
  unfolding require_valid_account_number require_valid_order_id modification_form
  modify_advanced_call account id modification = record {
    method = Method.put_method;
    path = order_path account id;
    prepare =
        require_valid_account_number account
        >> (require_valid_order_id id >> ok (modification_form doubles modification));
    failure = txt "Failed to modify order: ";
    unreadable = Exception.parse (txt "Failed to parse order modification response");
    operation = txt "modifyOrderAdvanced";
  }

  unfoldable pub cancel_all_call : Text → Call
  unfolding require_valid_account_number
  cancel_all_call account = record {
    method = Method.del;
    path = orders_path account;
    prepare = require_valid_account_number account >> ok [];
    failure = txt "Failed to cancel all orders: ";
    unreadable = Exception.parse (txt "Failed to parse cancel all orders response");
    operation = txt "cancelAllOrders";
  }

module _ {J D S : Type 0} (doubles : Doubles D) (lib : Json J D) (client : Client S) where
  abbrev Answer : Type 0
  Answer = S → ApiResult OrderResponse × S

  unfoldable pub place_order : Text → OrderRequest D → Answer
  place_order account request =
      perform lib client (place_order_call doubles account request) (parse_order_response lib)

  unfoldable pub cancel_order : Text → ℤ → Answer
  cancel_order account id =
      perform lib client (cancel_order_call doubles account id) (parse_order_response lib)

  unfoldable pub modify_order : Text → ℤ → OrderRequest D → Answer
  modify_order account id changes =
      perform lib client (modify_order_call doubles account id changes) (parse_order_response lib)

  unfoldable pub place_bracket_order : Text → BracketOrder D → Answer
  place_bracket_order account order =
      perform lib client (bracket_order_call doubles account order) (parse_order_response lib)

  unfoldable pub place_multi_leg_order : Text → MultiLegOrder D → Answer
  place_multi_leg_order account order =
      perform lib client (multi_leg_order_call doubles account order) (parse_order_response lib)

  unfoldable pub modify_order_advanced : Text → ℤ → OrderModification D → Answer
  modify_order_advanced account id modification =
      perform lib client (modify_advanced_call doubles account id modification)
        (parse_order_response lib)

  unfoldable pub cancel_all_orders : Text → S → ApiResult (List OrderResponse) × S
  cancel_all_orders account =
      perform lib client (cancel_all_call doubles account) (parse_canceled lib)

  -- price ? LIMIT : MARKET
  abbrev type_for : Option D → OrderType
  type_for none = OrderType.market
  type_for (some p) = OrderType.limit

  -- The request of buyStock and sellStock, and that of the four functions on options, which leaves
  -- the symbol as its constructor makes it.
  abbrev pub stock_request : OrderSide → Text → D → Option D → OrderRequest D
  stock_request side symbol quantity price = record {
    symbol = symbol;
    side = side;
    quantity = quantity;
    type = type_for price;
    duration = OrderDuration.day;
    price = price;
    stop = none;
    option_symbol = none;
    tag = none;
  }

  abbrev pub option_request : OrderSide → Text → D → Option D → OrderRequest D
  option_request side option_symbol quantity price = record {
    symbol = txt "";
    side = side;
    quantity = quantity;
    type = type_for price;
    duration = OrderDuration.day;
    price = price;
    stop = none;
    option_symbol = some option_symbol;
    tag = none;
  }

  unfoldable pub buy_stock : Text → Text → D → Option D → Answer
  unfolding place_order
  buy_stock account symbol quantity price =
      place_order account (stock_request OrderSide.buy symbol quantity price)

  unfoldable pub sell_stock : Text → Text → D → Option D → Answer
  unfolding place_order
  sell_stock account symbol quantity price =
      place_order account (stock_request OrderSide.sell symbol quantity price)

  unfoldable pub buy_to_open_option : Text → Text → D → Option D → Answer
  unfolding place_order
  buy_to_open_option account option_symbol quantity price =
      place_order account (option_request OrderSide.buy_to_open option_symbol quantity price)

  unfoldable pub sell_to_open_option : Text → Text → D → Option D → Answer
  unfolding place_order
  sell_to_open_option account option_symbol quantity price =
      place_order account (option_request OrderSide.sell_to_open option_symbol quantity price)

  unfoldable pub buy_to_close_option : Text → Text → D → Option D → Answer
  unfolding place_order
  buy_to_close_option account option_symbol quantity price =
      place_order account (option_request OrderSide.buy_to_close option_symbol quantity price)

  unfoldable pub sell_to_close_option : Text → Text → D → Option D → Answer
  unfolding place_order
  sell_to_close_option account option_symbol quantity price =
      place_order account (option_request OrderSide.sell_to_close option_symbol quantity price)
