-- ===== src/Market/Unset.antt =====
-- parseMarketCalendar of src/json/market.cpp on a body without a calendar.
use libtradier.Base.{
  ◌≡◌, refl, sym, ◌∙◌, ap, ◌↔◌, Bool, true, false, ◌&&◌, not, none, some, Bool-cases, inl, inr,
}
use libtradier.Text.{txt}
use libtradier.Int.{ℤ}
use libtradier.Errors.{of_ok, ok, ◌>>=◌}
use libtradier.Service.{Json}
use libtradier.Service.Laws.{bind-ok}
use libtradier.Market.Reading.{present}
use libtradier.Market.Days.{
  MarketCalendar, no_calendar, read_calendar, parse_market_calendar, read_days,
}

module _ {J D : Type 0} (lib : Json J D) where
  abbrev pub has_calendar : J → Bool
  has_calendar json =
      not (lib.is_null json) && lib.is_object json && present lib json (txt "calendar")

  read_calendar-set :
      (json : J) (calendar : MarketCalendar)
      → read_calendar lib json ≡ ok calendar
      → (month year : ℤ) × (calendar.month ≡ some month) × (calendar.year ≡ some year)
  unfolding read_calendar
  read_calendar-set json calendar h =
      let (month, _, k) =
        (bind-ok (lib.int_value json (txt "month") (ℤ.pos 0))
            (λ month. lib.int_value json (txt "year") (ℤ.pos 0) >>= (λ year.
              read_days lib json
              >>= (λ days. ok (record { month = some month; year = some year; days = days }))))
            calendar).0
          h in
      let (year, _, k') =
        (bind-ok (lib.int_value json (txt "year") (ℤ.pos 0))
            (λ year.
              read_days lib json
              >>= (λ days. ok (record { month = some month; year = some year; days = days })))
            calendar).0
          k in
      let (days, _, k'') =
        (bind-ok (read_days lib json)
            (λ days. ok (record { month = some month; year = some year; days = days })) calendar).0
          k' in
      (
        month,
        year,
        sym (ap (λ (c : MarketCalendar). c.month) (of_ok k'')),
        sym (ap (λ (c : MarketCalendar). c.year) (of_ok k'')),
      )

  with_calendar :
      (json : J)
      → has_calendar json ≡ true
      → parse_market_calendar lib json ≡ read_calendar lib (lib.at json (txt "calendar"))
  unfolding parse_market_calendar
  with_calendar json there = rw there refl

  without_calendar :
      (json : J) → has_calendar json ≡ false → parse_market_calendar lib json ≡ ok no_calendar
  unfolding parse_market_calendar
  without_calendar json missing = rw missing refl

  -- parseMarketCalendar takes a body without a calendar for a calendar whose month and year are not
  -- initialised; in every other calendar that it returns both are.
  pub parse_market_calendar-unset :
      (json : J)
      → (has_calendar json ≡ false → parse_market_calendar lib json ≡ ok no_calendar)
        × ((calendar : MarketCalendar)
            → parse_market_calendar lib json ≡ ok calendar
            → ((calendar.month ≡ none) ↔ (has_calendar json ≡ false))
              × ((calendar.year ≡ none) ↔ (has_calendar json ≡ false)))
  unfolding parse_market_calendar no_calendar
  parse_market_calendar-unset json = elim (Bool-cases (has_calendar json)) [
    | inl there ↦ (
      λ missing. cc,
      λ calendar h.
          (let (month, year, m, y) =
              read_calendar-set (lib.at json (txt "calendar")) calendar
                (sym (with_calendar json there) ∙ h) in
            ((λ k. cc, λ k. cc), (λ k. cc, λ k. cc))),
    )
    | inr missing ↦ (
      without_calendar json,
      λ calendar h.
          (let e : no_calendar ≡ calendar = of_ok (sym (without_calendar json missing) ∙ h) in
            (
              (λ k. missing, λ k. sym (ap (λ (c : MarketCalendar). c.month) e)),
              (λ k. missing, λ k. sym (ap (λ (c : MarketCalendar). c.year) e)),
            )),
    )
  ]
