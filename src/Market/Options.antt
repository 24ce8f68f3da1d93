-- ===== src/Market/Options.antt =====
-- Expiration, OptionSymbol, the strikes, and their parsers, of include/tradier/market.hpp and
-- src/json/market.cpp.
use libtradier.Base.{◌&&◌, not, List, [], ◌∷◌, if◌then◌else◌}
use libtradier.Text.{Text, txt}
use libtradier.Int.{ℤ}
use libtradier.Errors.{Outcome, ok, ◌>>=◌}
use libtradier.Service.{Json}
use libtradier.Market.Reading.{present, text_at, items_under, parse_non_null}

pub record Expiration (D : Type 0) : Type 0 where
  pub date : Text
  pub contract_size : ℤ
  pub expiration_type : Text
  pub strikes : List D

pub record OptionSymbol : Type 0 where
  pub root_symbol : Text
  pub options : List Text

-- Default-constructed values
unfoldable pub no_expiration : {D : Type 0} → Expiration D
no_expiration = record { date = []; contract_size = ℤ.pos 100; expiration_type = []; strikes = [] }

unfoldable pub no_option_symbol : OptionSymbol
no_option_symbol = record { root_symbol = []; options = [] }

module _ {J D : Type 0} (lib : Json J D) where
  -- The loop over strikes, which takes the numbers alone.
  unfoldable pub read_numbers : List J → Outcome (List D)
  read_numbers [] = ok []
  read_numbers (item ∷ items) =
      let rest = read_numbers items in
      if not (lib.is_null item) && lib.is_number item
      then (do first ← lib.get_double item; others ← rest; ok (first ∷ others))
      else rest

  unfoldable pub read_strikes : J → Outcome (List D)
  unfolding read_numbers
  read_strikes strikes =
      if lib.is_array strikes
      then read_numbers (lib.elements strikes)
      else if lib.is_number strikes
      then lib.get_double strikes >>= (λ strike. ok (strike ∷ []))
      else ok []

  unfoldable pub strikes_under : J → Outcome (List D)
  unfolding read_strikes
  strikes_under json =
      if present lib json (txt "strikes")
        && present lib (lib.at json (txt "strikes")) (txt "strike")
      then read_strikes (lib.at (lib.at json (txt "strikes")) (txt "strike"))
      else ok []

  unfoldable pub parse_strikes : J → Outcome (List D)
  unfolding strikes_under
  parse_strikes json =
      if not (lib.is_null json) && lib.is_object json then strikes_under json else ok []

  read_expiration : J → Outcome (Expiration D)
  unfolding text_at strikes_under
  read_expiration json = do
    date ← text_at lib json (txt "date")
    contract_size ← lib.int_value json (txt "contract_size") (ℤ.pos 100)
    expiration_type ← text_at lib json (txt "expiration_type")
    strikes ← strikes_under json
    ok (record {
      date = date;
      contract_size = contract_size;
      expiration_type = expiration_type;
      strikes = strikes;
    })

  unfoldable pub parse_expiration : J → Outcome (Expiration D)
  unfolding read_expiration no_expiration
  parse_expiration json =
      if not (lib.is_null json) && lib.is_object json
      then read_expiration json
      else ok no_expiration

  unfoldable pub parse_expirations : J → Outcome (List (Expiration D))
  unfolding items_under parse_expiration
  parse_expirations = items_under lib (txt "expirations") (txt "expiration") parse_expiration

  -- The loop over the option symbols, which takes the strings alone.
  unfoldable pub read_texts : List J → Outcome (List Text)
  read_texts [] = ok []
  read_texts (item ∷ items) =
      let rest = read_texts items in
      if not (lib.is_null item) && lib.is_string item
      then (do first ← lib.get_text item; others ← rest; ok (first ∷ others))
      else rest

  read_options : J → Outcome (List Text)
  unfolding read_texts
  read_options json =
      if present lib json (txt "options") && lib.is_array (lib.at json (txt "options"))
      then read_texts (lib.elements (lib.at json (txt "options")))
      else ok []

  read_option_symbol : J → Outcome OptionSymbol
  unfolding text_at read_options
  read_option_symbol json = do
    root_symbol ← text_at lib json (txt "rootSymbol")
    options ← read_options json
    ok (record { root_symbol = root_symbol; options = options })

  unfoldable pub parse_option_symbol : J → Outcome OptionSymbol
  unfolding read_option_symbol no_option_symbol
  parse_option_symbol json =
      if not (lib.is_null json) && lib.is_object json
      then read_option_symbol json
      else ok no_option_symbol

  unfoldable pub parse_option_symbols : J → Outcome (List OptionSymbol)
  unfolding parse_option_symbol parse_non_null
  parse_option_symbols json =
      if not (lib.is_null json)
        && lib.is_object json
        && present lib json (txt "symbols")
        && lib.is_array (lib.at json (txt "symbols"))
      then parse_non_null lib parse_option_symbol (lib.elements (lib.at json (txt "symbols")))
      else ok []
