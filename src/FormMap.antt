-- ===== src/FormMap.antt =====
-- std::map with strings for its keys, and std::map<std::string, std::string>, which QueryParams, FormParams and Headers of
-- include/tradier/common/types.hpp stand for: the pairs in the order of their keys.
pub mod Order
pub mod Laws
use libtradier.Base.{◌≡◌, refl, Bool, true, List, [], ◌∷◌, Option, none, some, if◌then◌else◌, All}
use libtradier.Text.{Text, txt, text_eq, text_lt}

abbrev pub FormMap : Type 0
FormMap = List (Text × Text)

-- params[key] = value
unfoldable pub put {ℓ} : {A : Type ℓ} → Text → A → List (Text × A) → List (Text × A)
put k v [] = (k, v) ∷ []
put k v ((j, w) ∷ m) =
    let later = put k v m in
    if text_lt k j then (k, v) ∷ (j, w) ∷ m else if text_lt j k then (j, w) ∷ later else (j, v) ∷ m

-- if (value) params[key] = *value;
abbrev pub put_some {ℓ} : {A : Type ℓ} → Text → (A → Text) → Option A → FormMap → FormMap
put_some k print none m = m
put_some k print (some v) m = put k (print v) m

unfoldable pub find {ℓ} : {A : Type ℓ} → Text → List (Text × A) → Option A
find k [] = none
find k ((j, w) ∷ m) = if text_eq j k then some w else find k m

abbrev pub Above {ℓ} : {A : Type ℓ} → Text → List (Text × A) → Type 0
Above k m = All (λ p. text_lt k p.0 ≡ true) m

-- The keys rise.
abbrev pub IsSorted {ℓ} : {A : Type ℓ} → List (Text × A) → Type 0
IsSorted [] = Unit
IsSorted ((k, v) ∷ m) = Above k m × IsSorted m

put_test :
    put (txt "side") (txt "buy") (put (txt "class") (txt "equity") [])
    ≡ (txt "class", txt "equity") ∷ (txt "side", txt "buy") ∷ []
unfolding put txt text_lt
put_test = refl
