-- ===== src/Market/Greeks.antt =====
-- Greeks of include/tradier/market.hpp, and parseGreeks of src/json/market.cpp.
use libtradier.Base.{◌&&◌, not, if◌then◌else◌}
use libtradier.Text.{txt}
use libtradier.Int.{ℤ}
use libtradier.Errors.{Outcome, ok, ◌>>=◌}
use libtradier.Service.{Json}
use libtradier.Validation.{Doubles}
use libtradier.Dates.{Calendar, parse_iso_date_time}
use libtradier.Market.Reading.{present, double_at}

pub record Greeks (D : Type 0) : Type 0 where
  pub delta : D
  pub gamma : D
  pub theta : D
  pub vega : D
  pub rho : D
  pub phi : D
  pub bid_iv : D
  pub mid_iv : D
  pub ask_iv : D
  pub smv_vol : D
  pub updated_at : ℤ

-- A default-constructed value; a default time is the epoch.
unfoldable pub no_greeks : {D : Type 0} → Doubles D → Greeks D
no_greeks doubles = record {
  delta = doubles.whole 0;
  gamma = doubles.whole 0;
  theta = doubles.whole 0;
  vega = doubles.whole 0;
  rho = doubles.whole 0;
  phi = doubles.whole 0;
  bid_iv = doubles.whole 0;
  mid_iv = doubles.whole 0;
  ask_iv = doubles.whole 0;
  smv_vol = doubles.whole 0;
  updated_at = ℤ.pos 0;
}

module _ {J D Tm : Type 0} (lib : Json J D) (doubles : Doubles D) (calendar : Calendar Tm) where
  read_updated_at : J → Outcome ℤ
  unfolding parse_iso_date_time
  read_updated_at json =
      if present lib json (txt "updated_at") && lib.is_string (lib.at json (txt "updated_at"))
      then lib.get_text (lib.at json (txt "updated_at"))
        >>= (λ date_time. ok (parse_iso_date_time calendar date_time))
      else ok (ℤ.pos 0)

  read_greeks : J → Outcome (Greeks D)
  unfolding double_at read_updated_at
  read_greeks json = do
    delta ← double_at lib doubles json (txt "delta")
    gamma ← double_at lib doubles json (txt "gamma")
    theta ← double_at lib doubles json (txt "theta")
    vega ← double_at lib doubles json (txt "vega")
    rho ← double_at lib doubles json (txt "rho")
    phi ← double_at lib doubles json (txt "phi")
    bid_iv ← double_at lib doubles json (txt "bid_iv")
    mid_iv ← double_at lib doubles json (txt "mid_iv")
    ask_iv ← double_at lib doubles json (txt "ask_iv")
    smv_vol ← double_at lib doubles json (txt "smv_vol")
    updated_at ← read_updated_at json
    ok (record {
      delta = delta;
      gamma = gamma;
      theta = theta;
      vega = vega;
      rho = rho;
      phi = phi;
      bid_iv = bid_iv;
      mid_iv = mid_iv;
      ask_iv = ask_iv;
      smv_vol = smv_vol;
      updated_at = updated_at;
    })

  unfoldable pub parse_greeks : J → Outcome (Greeks D)
  unfolding read_greeks no_greeks
  parse_greeks json =
      if not (lib.is_null json) && lib.is_object json
      then read_greeks json
      else ok (no_greeks doubles)
