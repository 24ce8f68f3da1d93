-- ===== src/Market/Reading.antt =====
-- How the parsers of src/json/market.cpp read a field and a list of items. A time is in seconds since
-- the epoch, as from_time_t takes it.
use libtradier.Base.{◌/◌, Bool, ◌&&◌, not, List, [], ◌∷◌, Option, none, some, if◌then◌else◌}
use libtradier.Text.{Text, txt}
use libtradier.Int.{ℤ}
use libtradier.Errors.{Outcome, ok, ◌>>=◌}
use libtradier.Service.{Json}
use libtradier.Validation.{Doubles}

-- A number of milliseconds, if it is above zero; the time is 0 otherwise.
unfoldable pub from_millis : ℤ → ℤ
from_millis (ℤ.pos n) = ℤ.pos (n / 1000)
from_millis (ℤ.negsuc n) = ℤ.pos 0

module _ {J D : Type 0} (lib : Json J D) where
  -- json.contains(key) && !json[key].is_null()
  abbrev pub present : J → Text → Bool
  present json key = lib.contains json key && not (lib.is_null (lib.at json key))

  unfoldable pub text_at : J → Text → Outcome Text
  text_at json key = lib.text_value json key (txt "")

  unfoldable pub optional_double : J → Text → Outcome (Option D)
  optional_double json key =
      if present json key && lib.is_number (lib.at json key)
      then lib.get_double (lib.at json key) >>= (λ d. ok (some d))
      else ok none

  unfoldable pub moment_at : J → Text → Outcome ℤ
  unfolding from_millis
  moment_at json key =
      if present json key && lib.is_number (lib.at json key)
      then lib.get_long (lib.at json key) >>= (λ n. ok (from_millis n))
      else ok (ℤ.pos 0)

  -- if (json.contains(key) && !json[key].is_null()) field = read
  unfoldable pub given : {A : Type 0} → J → Text → Outcome A → Outcome (Option A)
  given json key read = if present json key then read >>= (λ a. ok (some a)) else ok none

  -- A loop that parses what is not null and pushes it back.
  unfoldable pub parse_non_null : {A : Type 0} → (J → Outcome A) → List J → Outcome (List A)
  parse_non_null parser [] = ok []
  parse_non_null parser (item ∷ items) =
      let rest = parse_non_null parser items in
      if lib.is_null item
      then rest
      else (do first ← parser item; others ← rest; ok (first ∷ others))

  -- An array of items, or one item as an object.
  unfoldable pub parse_items : {A : Type 0} → (J → Outcome A) → J → Outcome (List A)
  unfolding parse_non_null
  parse_items parser items =
      if lib.is_array items
      then parse_non_null parser (lib.elements items)
      else if lib.is_object items
      then parser items >>= (λ a. ok (a ∷ []))
      else ok []

  -- The items under json[outer][inner], if they are there.
  unfoldable pub items_under : {A : Type 0} → Text → Text → (J → Outcome A) → J → Outcome (List A)
  unfolding parse_items
  items_under outer inner parser json =
      if not (lib.is_null json)
        && lib.is_object json
        && present json outer
        && present (lib.at json outer) inner
      then parse_items parser (lib.at (lib.at json outer) inner)
      else ok []

module _ {J D : Type 0} (lib : Json J D) (doubles : Doubles D) where
  unfoldable pub double_at : J → Text → Outcome D
  double_at json key = lib.double_value json key (doubles.whole 0)
