-- ===== src/Market/Prices.antt =====
-- PriceStatistics and parsePriceStatistics, of include/tradier/market.hpp and src/json/market.cpp.
use libtradier.Base.{[], Option, none, some, if◌then◌else◌}
use libtradier.Text.{Text, txt}
use libtradier.Errors.{Outcome, ok, ◌>>=◌}
use libtradier.Service.{Json}
use libtradier.Validation.{Doubles}
use libtradier.Market.Reading.{present, text_at, double_at}
use libtradier.Market.Tables.{first_table}

pub record PriceStatistics (D : Type 0) : Type 0 where
  pub share_class_id : Text
  pub as_of_date : Text
  pub period : Text
  pub high_price : D
  pub low_price : D
  pub average_volume : D
  pub total_volume : D
  pub moving_average_price : D
  pub close_price_to_moving_average : D
  pub percentage_below_high_price : D
  pub arithmetic_mean : D
  pub standard_deviation : D
  pub best3_month_total_return : D
  pub worst3_month_total_return : D

-- A default-constructed value
unfoldable pub no_statistics : {D : Type 0} → Doubles D → PriceStatistics D
no_statistics doubles = record {
  share_class_id = [];
  as_of_date = [];
  period = [];
  high_price = doubles.whole 0;
  low_price = doubles.whole 0;
  average_volume = doubles.whole 0;
  total_volume = doubles.whole 0;
  moving_average_price = doubles.whole 0;
  close_price_to_moving_average = doubles.whole 0;
  percentage_below_high_price = doubles.whole 0;
  arithmetic_mean = doubles.whole 0;
  standard_deviation = doubles.whole 0;
  best3_month_total_return = doubles.whole 0;
  worst3_month_total_return = doubles.whole 0;
}

module _ {J D : Type 0} (lib : Json J D) (doubles : Doubles D) where
  unfoldable pub read_year : J → Outcome (PriceStatistics D)
  unfolding text_at double_at
  read_year json = do
    share_class_id ← text_at lib json (txt "share_class_id")
    as_of_date ← text_at lib json (txt "as_of_date")
    period ← text_at lib json (txt "period")
    high_price ← double_at lib doubles json (txt "high_price")
    low_price ← double_at lib doubles json (txt "low_price")
    average_volume ← double_at lib doubles json (txt "average_volume")
    total_volume ← double_at lib doubles json (txt "total_volume")
    moving_average_price ← double_at lib doubles json (txt "moving_average_price")
    close_price_to_moving_average ← double_at lib doubles json (txt "close_price_to_moving_average")
    percentage_below_high_price ← double_at lib doubles json (txt "percentage_below_high_price")
    arithmetic_mean ← double_at lib doubles json (txt "arithmetic_mean")
    standard_deviation ← double_at lib doubles json (txt "standard_deviation")
    best3_month_total_return ← double_at lib doubles json (txt "best3_month_total_return")
    worst3_month_total_return ← double_at lib doubles json (txt "worst3_month_total_return")
    ok (record {
      share_class_id = share_class_id;
      as_of_date = as_of_date;
      period = period;
      high_price = high_price;
      low_price = low_price;
      average_volume = average_volume;
      total_volume = total_volume;
      moving_average_price = moving_average_price;
      close_price_to_moving_average = close_price_to_moving_average;
      percentage_below_high_price = percentage_below_high_price;
      arithmetic_mean = arithmetic_mean;
      standard_deviation = standard_deviation;
      best3_month_total_return = best3_month_total_return;
      worst3_month_total_return = worst3_month_total_return;
    })

  read_prices : Option J → Outcome (PriceStatistics D)
  unfolding read_year no_statistics
  read_prices none = ok (no_statistics doubles)
  read_prices (some table) =
      if present lib table (txt "period_1y")
      then read_year (lib.at table (txt "period_1y"))
      else ok (no_statistics doubles)

  unfoldable pub parse_price_statistics : J → Outcome (PriceStatistics D)
  unfolding first_table read_prices
  parse_price_statistics json = read_prices (first_table lib (txt "price_statistics") json)
