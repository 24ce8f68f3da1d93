-- ===== src/Market/Ratios.antt =====
-- FinancialRatios and parseFinancialRatios, of include/tradier/market.hpp and src/json/market.cpp.
use libtradier.Base.{List, [], ◌∷◌, ◌++◌, Option, none, some, if◌then◌else◌}
use libtradier.Text.{Text, txt}
use libtradier.Errors.{Outcome, ok, ◌>>=◌}
use libtradier.Service.{Json}
use libtradier.Validation.{Doubles}
use libtradier.Market.Reading.{text_at, double_at, parse_non_null}
use libtradier.Market.Tables.{first_table}

pub record FinancialRatios (D : Type 0) : Type 0 where
  pub company_id : Text
  pub as_of_date : Text
  pub fiscal_year_end : Text
  pub period : Text
  pub report_type : Text
  pub assets_turnover : D
  pub cap_ex_sales_ratio : D
  pub cash_conversion_cycle : D
  pub days_in_inventory : D
  pub days_in_payment : D
  pub days_in_sales : D
  pub ebitda_margin : D
  pub ebit_margin : D
  pub gross_margin : D
  pub interest_coverage : D
  pub net_margin : D
  pub operation_margin : D
  pub pretax_margin : D
  pub roa : D
  pub roe : D
  pub roic : D
  pub tax_rate : D

-- A default-constructed value
unfoldable pub no_ratios : {D : Type 0} → Doubles D → FinancialRatios D
no_ratios doubles = record {
  company_id = [];
  as_of_date = [];
  fiscal_year_end = [];
  period = [];
  report_type = [];
  assets_turnover = doubles.whole 0;
  cap_ex_sales_ratio = doubles.whole 0;
  cash_conversion_cycle = doubles.whole 0;
  days_in_inventory = doubles.whole 0;
  days_in_payment = doubles.whole 0;
  days_in_sales = doubles.whole 0;
  ebitda_margin = doubles.whole 0;
  ebit_margin = doubles.whole 0;
  gross_margin = doubles.whole 0;
  interest_coverage = doubles.whole 0;
  net_margin = doubles.whole 0;
  operation_margin = doubles.whole 0;
  pretax_margin = doubles.whole 0;
  roa = doubles.whole 0;
  roe = doubles.whole 0;
  roic = doubles.whole 0;
  tax_rate = doubles.whole 0;
}

-- The rows of every group, one after another
unfoldable pub concat : {A : Type 0} → List (List A) → List A
concat [] = []
concat (xs ∷ xss) = xs ++ concat xss

module _ {J D : Type 0} (lib : Json J D) (doubles : Doubles D) where
  unfoldable pub read_ratio : J → Outcome (FinancialRatios D)
  unfolding text_at double_at no_ratios
  read_ratio json = do
    company_id ← text_at lib json (txt "company_id")
    as_of_date ← text_at lib json (txt "as_of_date")
    fiscal_year_end ← text_at lib json (txt "fiscal_year_end")
    period ← text_at lib json (txt "period")
    report_type ← text_at lib json (txt "report_type")
    assets_turnover ← double_at lib doubles json (txt "assets_turnover")
    ebitda_margin ← double_at lib doubles json (txt "e_b_i_t_d_a_margin")
    ebit_margin ← double_at lib doubles json (txt "e_b_i_t_margin")
    gross_margin ← double_at lib doubles json (txt "gross_margin")
    net_margin ← double_at lib doubles json (txt "net_margin")
    operation_margin ← double_at lib doubles json (txt "operation_margin")
    roa ← double_at lib doubles json (txt "r_o_a")
    roe ← double_at lib doubles json (txt "r_o_e")
    roic ← double_at lib doubles json (txt "r_o_i_c")
    ok (record (no_ratios doubles) {
      company_id = company_id;
      as_of_date = as_of_date;
      fiscal_year_end = fiscal_year_end;
      period = period;
      report_type = report_type;
      assets_turnover = assets_turnover;
      ebitda_margin = ebitda_margin;
      ebit_margin = ebit_margin;
      gross_margin = gross_margin;
      net_margin = net_margin;
      operation_margin = operation_margin;
      roa = roa;
      roe = roe;
      roic = roic;
    })

  -- The groups of periods, each with its periods
  unfoldable pub read_groups : Option J → Outcome (List (FinancialRatios D))
  unfolding parse_non_null read_ratio concat
  read_groups none = ok []
  read_groups (some table) =
      if lib.is_array table
      then parse_non_null lib (λ group. parse_non_null lib read_ratio (lib.elements group))
          (lib.elements table)
        >>= (λ groups. ok (concat groups))
      else ok []

  unfoldable pub parse_financial_ratios : J → Outcome (List (FinancialRatios D))
  unfolding first_table read_groups
  parse_financial_ratios json = read_groups (first_table lib (txt "operation_ratios_restate") json)
