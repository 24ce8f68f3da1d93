-- ===== src/Account/Types.antt =====
-- The structs of include/tradier/account.hpp; a default time is the epoch.
use libtradier.Base.{Bool, false, List, [], Option, none}
use libtradier.Text.{Text}
use libtradier.Int.{ℤ}
use libtradier.Validation.{Doubles}

pub record Account : Type 0 where
  pub number : Text
  pub type : Text
  pub status : Text
  pub classification : Text
  pub day_trader : Bool
  pub option_level : ℤ
  pub date_created : ℤ
  pub last_update : ℤ

pub record AccountProfile : Type 0 where
  pub id : Text
  pub name : Text
  pub accounts : List Account

pub record Position (D : Type 0) : Type 0 where
  pub symbol : Text
  pub quantity : D
  pub cost_basis : D
  pub acquired : ℤ

pub record Order (D : Type 0) : Type 0 where
  pub id : ℤ
  pub symbol : Text
  pub type : Text
  pub side : Text
  pub status : Text
  pub quantity : D
  pub price : D
  pub filled : D
  pub created : ℤ
  pub tag : Option Text

pub record AccountBalances (D : Type 0) : Type 0 where
  pub account_number : Text
  pub account_type : Text
  pub total_equity : D
  pub total_cash : D
  pub buying_power : D
  pub market_value : D
  pub day_change : D

pub record HistoryEvent (D : Type 0) : Type 0 where
  pub amount : D
  pub date : ℤ
  pub type : Text
  pub description : Text
  pub symbol : Option Text

-- Default-constructed values
unfoldable pub no_account : Account
no_account = record {
  number = [];
  type = [];
  status = [];
  classification = [];
  day_trader = false;
  option_level = ℤ.pos 0;
  date_created = ℤ.pos 0;
  last_update = ℤ.pos 0;
}

unfoldable pub no_profile : AccountProfile
no_profile = record { id = []; name = []; accounts = [] }

unfoldable pub no_position : {D : Type 0} → Doubles D → Position D
no_position doubles = record {
  symbol = [];
  quantity = doubles.whole 0;
  cost_basis = doubles.whole 0;
  acquired = ℤ.pos 0;
}

unfoldable pub no_order : {D : Type 0} → Doubles D → Order D
no_order doubles = record {
  id = ℤ.pos 0;
  symbol = [];
  type = [];
  side = [];
  status = [];
  quantity = doubles.whole 0;
  price = doubles.whole 0;
  filled = doubles.whole 0;
  created = ℤ.pos 0;
  tag = none;
}
