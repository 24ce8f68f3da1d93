-- ===== src/Market/Days.antt =====
-- MarketDay, MarketCalendar, MarketClock and their parsers, of include/tradier/market.hpp and
-- src/json/market.cpp. `regular` is the field open, `finish` the field end.
use libtradier.Base.{◌&&◌, not, List, [], Option, none, some, if◌then◌else◌}
use libtradier.Text.{Text, txt}
use libtradier.Int.{ℤ}
use libtradier.Errors.{Outcome, ok, ◌>>=◌}
use libtradier.Service.{Json}
use libtradier.Market.Reading.{present, text_at, parse_items}

pub record SessionTime : Type 0 where
  pub start : Text
  pub finish : Text

pub record MarketDay : Type 0 where
  pub date : Text
  pub status : Text
  pub description : Text
  pub premarket : SessionTime
  pub regular : SessionTime
  pub postmarket : SessionTime

-- `none`: the field is not initialised.
pub record MarketCalendar : Type 0 where
  pub month : Option ℤ
  pub year : Option ℤ
  pub days : List MarketDay

pub record MarketClock : Type 0 where
  pub date : Text
  pub description : Text
  pub state : Text
  pub timestamp : ℤ
  pub next_change : Text
  pub next_state : Text

-- Default-constructed values
unfoldable pub no_session_time : SessionTime
no_session_time = record { start = []; finish = [] }

unfoldable pub no_day : MarketDay
unfolding no_session_time
no_day = record {
  date = [];
  status = [];
  description = [];
  premarket = no_session_time;
  regular = no_session_time;
  postmarket = no_session_time;
}

unfoldable pub no_calendar : MarketCalendar
no_calendar = record { month = none; year = none; days = [] }

unfoldable pub no_clock : MarketClock
no_clock = record {
  date = [];
  description = [];
  state = [];
  timestamp = ℤ.pos 0;
  next_change = [];
  next_state = [];
}

module _ {J D : Type 0} (lib : Json J D) where
  read_session_time : J → Outcome SessionTime
  unfolding text_at
  read_session_time json = do
    start ← text_at lib json (txt "start")
    finish ← text_at lib json (txt "end")
    ok (record { start = start; finish = finish })

  unfoldable pub parse_session_time : J → Outcome SessionTime
  unfolding read_session_time no_session_time
  parse_session_time json =
      if not (lib.is_null json) && lib.is_object json
      then read_session_time json
      else ok no_session_time

  session_at : J → Text → Outcome SessionTime
  unfolding parse_session_time no_session_time
  session_at json key =
      if present lib json key then parse_session_time (lib.at json key) else ok no_session_time

  read_day : J → Outcome MarketDay
  unfolding text_at session_at
  read_day json = do
    date ← text_at lib json (txt "date")
    status ← text_at lib json (txt "status")
    description ← text_at lib json (txt "description")
    premarket ← session_at json (txt "premarket")
    regular ← session_at json (txt "open")
    postmarket ← session_at json (txt "postmarket")
    ok (record {
      date = date;
      status = status;
      description = description;
      premarket = premarket;
      regular = regular;
      postmarket = postmarket;
    })

  unfoldable pub parse_market_day : J → Outcome MarketDay
  unfolding read_day no_day
  parse_market_day json =
      if not (lib.is_null json) && lib.is_object json then read_day json else ok no_day

  pub read_days : J → Outcome (List MarketDay)
  unfolding parse_items parse_market_day
  read_days calendar =
      if present lib calendar (txt "days") && present lib (lib.at calendar (txt "days")) (txt "day")
      then parse_items lib parse_market_day (lib.at (lib.at calendar (txt "days")) (txt "day"))
      else ok []

  unfoldable pub read_calendar : J → Outcome MarketCalendar
  unfolding read_days
  read_calendar calendar = do
    month ← lib.int_value calendar (txt "month") (ℤ.pos 0)
    year ← lib.int_value calendar (txt "year") (ℤ.pos 0)
    days ← read_days calendar
    ok (record { month = some month; year = some year; days = days })

  unfoldable pub parse_market_calendar : J → Outcome MarketCalendar
  unfolding read_calendar no_calendar
  parse_market_calendar json =
      if not (lib.is_null json) && lib.is_object json && present lib json (txt "calendar")
      then read_calendar (lib.at json (txt "calendar"))
      else ok no_calendar

  read_clock : J → Outcome MarketClock
  unfolding text_at
  read_clock json = do
    date ← text_at lib json (txt "date")
    description ← text_at lib json (txt "description")
    state ← text_at lib json (txt "state")
    timestamp ← lib.long_value json (txt "timestamp") (ℤ.pos 0)
    next_change ← text_at lib json (txt "next_change")
    next_state ← text_at lib json (txt "next_state")
    ok (record {
      date = date;
      description = description;
      state = state;
      timestamp = timestamp;
      next_change = next_change;
      next_state = next_state;
    })

  unfoldable pub parse_market_clock : J → Outcome MarketClock
  unfolding read_clock no_clock
  parse_market_clock json =
      if not (lib.is_null json) && lib.is_object json && present lib json (txt "clock")
      then read_clock (lib.at json (txt "clock"))
      else ok no_clock
