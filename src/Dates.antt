-- ===== src/Dates.antt =====
-- parseISODateTime of src/common/utils.cpp. A time is in seconds since the epoch, as from_time_t takes
-- it; the calendar of the C library is the record `Calendar`.
use libtradier.Base.{Option, none, some}
use libtradier.Text.{Text}
use libtradier.Int.{ℤ}

-- std::get_time with the format of parseISODateTime, and std::mktime.
pub record Calendar (Tm : Type 0) : Type 0 where
  pub get_time : Text → Option Tm
  pub mktime : Tm → ℤ

-- parseISODateTime; what follows the seconds is skipped and has no effect.
unfoldable pub parse_iso_date_time : {Tm : Type 0} → Calendar Tm → Text → ℤ
parse_iso_date_time calendar date_time = elim (calendar.get_time date_time) [
  | none ↦ ℤ.pos 0
  | some tm ↦ calendar.mktime tm
]
