-- ===== src/Market/Actions.antt =====
-- The corporate events, dividends and actions of include/tradier/market.hpp, and their parsers of
-- src/json/market.cpp.
use libtradier.Base.{◌&&◌, not, List, [], ◌∷◌, ◌++◌, Option, none, some, if◌then◌else◌}
use libtradier.Text.{Text, txt}
use libtradier.Int.{ℤ}
use libtradier.Errors.{Outcome, ok, ◌>>=◌}
use libtradier.Service.{Json}
use libtradier.Validation.{Doubles}
use libtradier.Market.Reading.{present, text_at, double_at, parse_non_null}
use libtradier.Market.Tables.{first_table, head}

pub record CorporateCalendarEvent : Type 0 where
  pub company_id : Text
  pub begin_date_time : Text
  pub end_date_time : Text
  pub event_type : ℤ
  pub estimated_date_for_next_event : Text
  pub event : Text
  pub event_fiscal_year : ℤ
  pub event_status : Text
  pub time_zone : Text

pub record Dividend (D : Type 0) : Type 0 where
  pub share_class_id : Text
  pub dividend_type : Text
  pub ex_date : Text
  pub cash_amount : D
  pub currency_id : Text
  pub declaration_date : Text
  pub frequency : ℤ
  pub pay_date : Text
  pub record_date : Text

pub record StockSplit (D : Type 0) : Type 0 where
  pub share_class_id : Text
  pub ex_date : Text
  pub adjustment_factor : D
  pub split_from : D
  pub split_to : D
  pub split_type : Text

pub record MergerAcquisition (D : Type 0) : Type 0 where
  pub acquired_company_id : Text
  pub parent_company_id : Text
  pub cash_amount : D
  pub currency_id : Text
  pub effective_date : Text
  pub notes : Text

pub record CorporateActions (D : Type 0) : Type 0 where
  pub stock_splits : List (StockSplit D)
  pub merger : Option (MergerAcquisition D)

-- A default-constructed value
unfoldable pub no_event : CorporateCalendarEvent
no_event = record {
  company_id = [];
  begin_date_time = [];
  end_date_time = [];
  event_type = ℤ.pos 0;
  estimated_date_for_next_event = [];
  event = [];
  event_fiscal_year = ℤ.pos 0;
  event_status = [];
  time_zone = [];
}

module _ {J D : Type 0} (lib : Json J D) where
  -- The array under a table, item by item
  unfoldable pub rows : {A : Type 0} → (J → Outcome A) → Option J → Outcome (List A)
  unfolding parse_non_null
  rows parser none = ok []
  rows parser (some table) =
      if lib.is_array table then parse_non_null lib parser (lib.elements table) else ok []

  unfoldable pub read_event : J → Outcome CorporateCalendarEvent
  unfolding text_at no_event
  read_event json = do
    company_id ← text_at lib json (txt "company_id")
    begin_date_time ← text_at lib json (txt "begin_date_time")
    end_date_time ← text_at lib json (txt "end_date_time")
    event_type ← lib.int_value json (txt "event_type") (ℤ.pos 0)
    event ← text_at lib json (txt "event")
    event_fiscal_year ← lib.int_value json (txt "event_fiscal_year") (ℤ.pos 0)
    event_status ← text_at lib json (txt "event_status")
    ok (record (no_event) {
      company_id = company_id;
      begin_date_time = begin_date_time;
      end_date_time = end_date_time;
      event_type = event_type;
      event = event;
      event_fiscal_year = event_fiscal_year;
      event_status = event_status;
    })

  unfoldable pub parse_corporate_calendar : J → Outcome (List CorporateCalendarEvent)
  unfolding first_table rows read_event
  parse_corporate_calendar json = rows read_event (first_table lib (txt "corporate_calendars") json)

module _ {J D : Type 0} (lib : Json J D) (doubles : Doubles D) where
  unfoldable pub read_dividend : J → Outcome (Dividend D)
  unfolding text_at double_at
  read_dividend json = do
    share_class_id ← text_at lib json (txt "share_class_id")
    dividend_type ← text_at lib json (txt "dividend_type")
    ex_date ← text_at lib json (txt "ex_date")
    cash_amount ← double_at lib doubles json (txt "cash_amount")
    currency_id ← text_at lib json (txt "currency_i_d")
    declaration_date ← text_at lib json (txt "declaration_date")
    frequency ← lib.int_value json (txt "frequency") (ℤ.pos 0)
    pay_date ← text_at lib json (txt "pay_date")
    record_date ← text_at lib json (txt "record_date")
    ok (record {
      share_class_id = share_class_id;
      dividend_type = dividend_type;
      ex_date = ex_date;
      cash_amount = cash_amount;
      currency_id = currency_id;
      declaration_date = declaration_date;
      frequency = frequency;
      pay_date = pay_date;
      record_date = record_date;
    })

  unfoldable pub parse_dividends : J → Outcome (List (Dividend D))
  unfolding first_table rows read_dividend
  parse_dividends json = rows lib read_dividend (first_table lib (txt "cash_dividends") json)

  unfoldable pub read_split : J → Outcome (StockSplit D)
  unfolding text_at double_at
  read_split json = do
    share_class_id ← text_at lib json (txt "share_class_id")
    ex_date ← text_at lib json (txt "ex_date")
    adjustment_factor ← double_at lib doubles json (txt "adjustment_factor")
    split_from ← double_at lib doubles json (txt "split_from")
    split_to ← double_at lib doubles json (txt "split_to")
    split_type ← text_at lib json (txt "split_type")
    ok (record {
      share_class_id = share_class_id;
      ex_date = ex_date;
      adjustment_factor = adjustment_factor;
      split_from = split_from;
      split_to = split_to;
      split_type = split_type;
    })

  unfoldable pub read_merger : J → Outcome (MergerAcquisition D)
  unfolding text_at double_at
  read_merger json = do
    acquired_company_id ← text_at lib json (txt "acquired_company_id")
    parent_company_id ← text_at lib json (txt "parent_company_id")
    cash_amount ← double_at lib doubles json (txt "cash_amount")
    currency_id ← text_at lib json (txt "currency_id")
    effective_date ← text_at lib json (txt "effective_date")
    notes ← text_at lib json (txt "notes")
    ok (record {
      acquired_company_id = acquired_company_id;
      parent_company_id = parent_company_id;
      cash_amount = cash_amount;
      currency_id = currency_id;
      effective_date = effective_date;
      notes = notes;
    })

  splits_of : J → Outcome (List (StockSplit D))
  unfolding parse_non_null read_split
  splits_of tables =
      if present lib tables (txt "stock_splits")
      then parse_non_null lib read_split (lib.elements (lib.at tables (txt "stock_splits")))
      else ok []

  -- A merger takes the place of an earlier one.
  merger_of : Option (MergerAcquisition D) → J → Outcome (Option (MergerAcquisition D))
  unfolding read_merger
  merger_of earlier tables =
      if present lib tables (txt "mergers_and_acquisitions")
      then read_merger (lib.at tables (txt "mergers_and_acquisitions"))
        >>= (λ merger. ok (some merger))
      else ok earlier

  add_tables : CorporateActions D → J → Outcome (CorporateActions D)
  unfolding splits_of merger_of
  add_tables actions tables = do
    splits ← splits_of tables
    merger ← merger_of actions.merger tables
    ok (record { stock_splits = actions.stock_splits ++ splits; merger = merger })

  unfoldable pub add_results : CorporateActions D → List J → Outcome (CorporateActions D)
  unfolding add_tables
  add_results actions [] = ok actions
  add_results actions (result ∷ results) =
      if not (lib.is_null result) && present lib result (txt "tables")
      then add_tables actions (lib.at result (txt "tables"))
        >>= (λ added. add_results added results)
      else add_results actions results

  add_first : CorporateActions D → Option J → Outcome (CorporateActions D)
  unfolding add_results
  add_first actions none = ok actions
  add_first actions (some first) =
      lib.index first (txt "results") >>= (λ results. add_results actions (lib.elements results))

  unfoldable pub parse_corporate_actions : J → Outcome (CorporateActions D)
  unfolding add_first head
  parse_corporate_actions json =
      let actions : CorporateActions D = record { stock_splits = []; merger = none } in
      if not (lib.is_null json) && lib.is_array json
      then add_first actions (head (lib.elements json))
      else ok actions
