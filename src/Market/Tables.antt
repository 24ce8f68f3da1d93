-- ===== src/Market/Tables.antt =====
-- How the parsers of the fundamentals in src/json/market.cpp find the tables of an answer: those of the
-- first result of the first element.
use libtradier.Base.{◌&&◌, not, List, [], ◌∷◌, Option, none, some, if◌then◌else◌}
use libtradier.Text.{Text, txt}
use libtradier.Service.{Json}
use libtradier.Market.Reading.{present}

unfoldable pub head {ℓ} : {A : Type ℓ} → List A → Option A
head [] = none
head (x ∷ xs) = some x

module _ {J D : Type 0} (lib : Json J D) where
  tables_of : Option J → Option J
  tables_of none = none
  tables_of (some result) =
      if present lib result (txt "tables") then some (lib.at result (txt "tables")) else none

  result_of : Option J → Option J
  unfolding head
  result_of none = none
  result_of (some first) =
      if present lib first (txt "results") && lib.is_array (lib.at first (txt "results"))
      then head (lib.elements (lib.at first (txt "results")))
      else none

  unfoldable pub first_tables : J → Option J
  unfolding head result_of tables_of
  first_tables json =
      if not (lib.is_null json) && lib.is_array json
      then tables_of (result_of (head (lib.elements json)))
      else none

  under : Text → Option J → Option J
  under name none = none
  under name (some tables) = if present lib tables name then some (lib.at tables name) else none

  unfoldable pub first_table : Text → J → Option J
  unfolding first_tables under
  first_table name json = under name (first_tables json)
