-- ===== src/Market/Statements.antt =====
-- FinancialStatement and parseFinancialStatements, of include/tradier/market.hpp and
-- src/json/market.cpp.
use libtradier.Base.{◌&&◌, List, [], ◌∷◌, Option, none, some, if◌then◌else◌}
use libtradier.Text.{Text, txt}
use libtradier.Errors.{Outcome, ok, ◌>>=◌}
use libtradier.Service.{Json}
use libtradier.Validation.{Doubles}
use libtradier.Market.Reading.{present, text_at, double_at}
use libtradier.Market.Tables.{first_table, head}

pub record FinancialStatement (D : Type 0) : Type 0 where
  pub company_id : Text
  pub as_of_date : Text
  pub currency_id : Text
  pub fiscal_year_end : Text
  pub period : Text
  pub report_type : Text
  pub total_revenue : D
  pub operating_revenue : D
  pub gross_profit : D
  pub operating_income : D
  pub net_income : D
  pub ebit : D
  pub ebitda : D
  pub total_assets : D
  pub current_assets : D
  pub total_liabilities : D
  pub current_liabilities : D
  pub stockholders_equity : D
  pub operating_cash_flow : D
  pub free_cash_flow : D
  pub capital_expenditure : D

-- A default-constructed value
unfoldable pub no_statement : {D : Type 0} → Doubles D → FinancialStatement D
no_statement doubles = record {
  company_id = [];
  as_of_date = [];
  currency_id = [];
  fiscal_year_end = [];
  period = [];
  report_type = [];
  total_revenue = doubles.whole 0;
  operating_revenue = doubles.whole 0;
  gross_profit = doubles.whole 0;
  operating_income = doubles.whole 0;
  net_income = doubles.whole 0;
  ebit = doubles.whole 0;
  ebitda = doubles.whole 0;
  total_assets = doubles.whole 0;
  current_assets = doubles.whole 0;
  total_liabilities = doubles.whole 0;
  current_liabilities = doubles.whole 0;
  stockholders_equity = doubles.whole 0;
  operating_cash_flow = doubles.whole 0;
  free_cash_flow = doubles.whole 0;
  capital_expenditure = doubles.whole 0;
}

module _ {J D : Type 0} (lib : Json J D) (doubles : Doubles D) where
  read_period : J → J → Outcome (FinancialStatement D)
  unfolding text_at double_at no_statement
  read_period statements json = do
    company_id ← text_at lib statements (txt "company_id")
    as_of_date ← text_at lib statements (txt "as_of_date")
    currency_id ← text_at lib json (txt "currency_id")
    fiscal_year_end ← text_at lib json (txt "fiscal_year_end")
    period ← text_at lib json (txt "period")
    report_type ← text_at lib json (txt "report_type")
    total_revenue ← double_at lib doubles json (txt "total_revenue")
    operating_revenue ← double_at lib doubles json (txt "operating_revenue")
    gross_profit ← double_at lib doubles json (txt "gross_profit")
    operating_income ← double_at lib doubles json (txt "operating_income")
    net_income ← double_at lib doubles json (txt "net_income")
    ebit ← double_at lib doubles json (txt "e_b_i_t")
    ebitda ← double_at lib doubles json (txt "e_b_i_t_d_a")
    ok (record (no_statement doubles) {
      company_id = company_id;
      as_of_date = as_of_date;
      currency_id = currency_id;
      fiscal_year_end = fiscal_year_end;
      period = period;
      report_type = report_type;
      total_revenue = total_revenue;
      operating_revenue = operating_revenue;
      gross_profit = gross_profit;
      operating_income = operating_income;
      net_income = net_income;
      ebit = ebit;
      ebitda = ebitda;
    })

  -- The first period that is not null
  unfoldable pub first_period : J → List J → Outcome (FinancialStatement D)
  unfolding read_period no_statement
  first_period statements [] = ok (no_statement doubles)
  first_period statements (period ∷ periods) =
      let rest = first_period statements periods in
      if lib.is_null period then rest else read_period statements period

  income_periods : J → Option J
  unfolding head
  income_periods statements =
      if present lib statements (txt "income_statement")
        && lib.is_array (lib.at statements (txt "income_statement"))
      then head (lib.elements (lib.at statements (txt "income_statement")))
      else none

  read_income : J → Option J → Outcome (FinancialStatement D)
  unfolding first_period no_statement
  read_income statements none = ok (no_statement doubles)
  read_income statements (some periods) = first_period statements (lib.elements periods)

  read_statements : Option J → Outcome (FinancialStatement D)
  unfolding read_income income_periods no_statement
  read_statements none = ok (no_statement doubles)
  read_statements (some statements) = read_income statements (income_periods statements)

  unfoldable pub parse_financial_statements : J → Outcome (FinancialStatement D)
  unfolding first_table read_statements
  parse_financial_statements json =
      read_statements (first_table lib (txt "financial_statements_restate") json)
