-- ===== src/Market/Company.antt =====
-- CompanyFundamentals and parseCompanyFundamentals, of include/tradier/market.hpp and
-- src/json/market.cpp.
use libtradier.Base.{[], none, some, if◌then◌else◌}
use libtradier.Text.{Text, txt}
use libtradier.Int.{ℤ}
use libtradier.Errors.{Outcome, ok, ◌>>=◌}
use libtradier.Service.{Json}
use libtradier.Validation.{Doubles}
use libtradier.Market.Reading.{present, text_at, double_at}
use libtradier.Market.Tables.{first_tables}

pub record CompanyProfile : Type 0 where
  pub company_id : Text
  pub contact_email : Text
  pub address_line1 : Text
  pub city : Text
  pub country : Text
  pub fax : Text
  pub homepage : Text
  pub phone : Text
  pub postal_code : Text
  pub province : Text
  pub total_employee_number : ℤ
  pub total_employee_number_as_of_date : Text
  pub long_description : Text

pub record AssetClassification (D : Type 0) : Type 0 where
  pub company_id : Text
  pub financial_health_grade : Text
  pub financial_health_grade_as_of_date : Text
  pub growth_grade : Text
  pub growth_grade_as_of_date : Text
  pub growth_score : D
  pub morningstar_economy_sphere_code : ℤ
  pub morningstar_industry_code : ℤ
  pub morningstar_industry_group_code : ℤ
  pub morningstar_sector_code : ℤ
  pub naics : ℤ
  pub profitability_grade : Text
  pub profitability_grade_as_of_date : Text
  pub sic : ℤ
  pub size_score : D
  pub stock_type : ℤ
  pub stock_type_as_of_date : Text
  pub style_box : ℤ
  pub style_box_as_of_date : Text
  pub style_score : D
  pub value_score : D

pub record CompanyFundamentals (D : Type 0) : Type 0 where
  pub company_id : Text
  pub profile : CompanyProfile
  pub classification : AssetClassification D
  pub long_description : Text

-- Default-constructed values
unfoldable pub no_profile : CompanyProfile
no_profile = record {
  company_id = [];
  contact_email = [];
  address_line1 = [];
  city = [];
  country = [];
  fax = [];
  homepage = [];
  phone = [];
  postal_code = [];
  province = [];
  total_employee_number = ℤ.pos 0;
  total_employee_number_as_of_date = [];
  long_description = [];
}

unfoldable pub no_classification : {D : Type 0} → Doubles D → AssetClassification D
no_classification doubles = record {
  company_id = [];
  financial_health_grade = [];
  financial_health_grade_as_of_date = [];
  growth_grade = [];
  growth_grade_as_of_date = [];
  growth_score = doubles.whole 0;
  morningstar_economy_sphere_code = ℤ.pos 0;
  morningstar_industry_code = ℤ.pos 0;
  morningstar_industry_group_code = ℤ.pos 0;
  morningstar_sector_code = ℤ.pos 0;
  naics = ℤ.pos 0;
  profitability_grade = [];
  profitability_grade_as_of_date = [];
  sic = ℤ.pos 0;
  size_score = doubles.whole 0;
  stock_type = ℤ.pos 0;
  stock_type_as_of_date = [];
  style_box = ℤ.pos 0;
  style_box_as_of_date = [];
  style_score = doubles.whole 0;
  value_score = doubles.whole 0;
}

unfoldable pub no_fundamentals : {D : Type 0} → Doubles D → CompanyFundamentals D
unfolding no_profile no_classification
no_fundamentals doubles = record {
  company_id = [];
  profile = no_profile;
  classification = no_classification doubles;
  long_description = [];
}

module _ {J D : Type 0} (lib : Json J D) (doubles : Doubles D) where
  read_headquarter : CompanyProfile → J → Outcome CompanyProfile
  unfolding text_at
  read_headquarter profile headquarter = do
    address_line1 ← text_at lib headquarter (txt "address_line1")
    city ← text_at lib headquarter (txt "city")
    country ← text_at lib headquarter (txt "country")
    phone ← text_at lib headquarter (txt "phone")
    homepage ← text_at lib headquarter (txt "homepage")
    postal_code ← text_at lib headquarter (txt "postal_code")
    province ← text_at lib headquarter (txt "province")
    ok (record profile {
      address_line1 = address_line1;
      city = city;
      country = country;
      phone = phone;
      homepage = homepage;
      postal_code = postal_code;
      province = province;
    })

  read_profile : J → Outcome CompanyProfile
  unfolding text_at no_profile read_headquarter
  read_profile profile = do
    company_id ← text_at lib profile (txt "company_id")
    contact_email ← text_at lib profile (txt "contact_email")
    total_employee_number ← lib.int_value profile (txt "total_employee_number") (ℤ.pos 0)
    total_employee_number_as_of_date ← text_at lib profile (txt "TotalEmployeeNumber.asOfDate")
    let read = record no_profile {
      company_id = company_id;
      contact_email = contact_email;
      total_employee_number = total_employee_number;
      total_employee_number_as_of_date = total_employee_number_as_of_date;
    } in
        if present lib profile (txt "headquarter")
        then read_headquarter read (lib.at profile (txt "headquarter"))
        else ok read

  read_classification : J → Outcome (AssetClassification D)
  unfolding text_at double_at no_classification
  read_classification json = do
    company_id ← text_at lib json (txt "company_id")
    financial_health_grade ← text_at lib json (txt "financial_health_grade")
    growth_grade ← text_at lib json (txt "growth_grade")
    growth_score ← double_at lib doubles json (txt "growth_score")
    profitability_grade ← text_at lib json (txt "profitability_grade")
    size_score ← double_at lib doubles json (txt "size_score")
    value_score ← double_at lib doubles json (txt "value_score")
    ok (record (no_classification doubles) {
      company_id = company_id;
      financial_health_grade = financial_health_grade;
      growth_grade = growth_grade;
      growth_score = growth_score;
      profitability_grade = profitability_grade;
      size_score = size_score;
      value_score = value_score;
    })

  -- The part of the tables under a key, or a default
  part_of : {A : Type 0} → J → Text → (J → Outcome A) → A → Outcome A
  part_of tables key read d = if present lib tables key then read (lib.at tables key) else ok d

  read_company : J → Outcome (CompanyFundamentals D)
  unfolding part_of read_profile read_classification no_profile no_classification
  read_company tables = do
    profile ← part_of tables (txt "company_profile") read_profile no_profile
    classification ←
        part_of tables (txt "asset_classification") read_classification (no_classification doubles)
    long_description ← part_of tables (txt "long_descriptions") lib.get_text (txt "")
    ok (record {
      company_id = [];
      profile = profile;
      classification = classification;
      long_description = long_description;
    })

  unfoldable pub parse_company_fundamentals : J → Outcome (CompanyFundamentals D)
  unfolding first_tables read_company no_fundamentals
  parse_company_fundamentals json = elim (first_tables lib json) [
    | none ↦ ok (no_fundamentals doubles)
    | some tables ↦ read_company tables
  ]
