-- ===== src/Query.antt =====
-- The `key=value&key=value` text of a parameter map, as performRequest of
-- src/common/http_client.cpp and the token requests of src/auth.cpp write it, and a reader of such
-- text.
pub mod RoundTrip
pub mod Joined
use libtradier.Base.{
  ℕ, ◌≡◌, refl, Bool, true, false, List, [], ◌∷◌, ◌++◌, Option, none, some, ◌==◌, if◌then◌else◌,
}
use mathlib.Core.Option
use libtradier.Text.{Text, txt}
use libtradier.Codec.UrlEncode.{percent_decode}
use libtradier.FormMap.{FormMap}

-- The loop over the map, with its flag `first`; `encode` is what is applied to keys and values.
unfoldable pub join_loop : (Text → Text) → Bool → Text → FormMap → Text
join_loop encode first text [] = text
join_loop encode first text ((key, value) ∷ rest) =
    join_loop encode false
      ((if first then text else text ++ txt "&") ++ (encode key ++ (txt "=" ++ encode value))) rest

unfoldable pub join_params : (Text → Text) → FormMap → Text
unfolding join_loop
join_params encode params = join_loop encode true (txt "") params

-- The parts between the separators; n separators make n + 1 parts.
unfoldable pub split_on : ℕ → Text → List Text
split_on sep [] = [] ∷ []
split_on sep (c ∷ s) = elim (split_on sep s) [
  | [] ↦ []
  | part ∷ parts ↦ if c == sep then [] ∷ part ∷ parts else (c ∷ part) ∷ parts
]

-- What stands before and after the first separator.
unfoldable pub cut : ℕ → Text → Option (Text × Text)
cut sep [] = none
cut sep (c ∷ s) =
    let later = Option.map (λ (p : Text × Text). (c ∷ p.0, p.1)) (cut sep s) in
    if c == sep then some ([], s) else later

infixl 5 ◌>>=◌
abbrev pub ◌>>=◌ {ℓ κ} : {A : Type ℓ} {B : Type κ} → Option A → (A → Option B) → Option B
none >>= k = none
some a >>= k = k a

unfoldable pub parse_pair : Text → Option (Text × Text)
parse_pair part = do
  (key, value) ← cut b'=' part
  k ← percent_decode key
  v ← percent_decode value
  some (k, v)

unfoldable pub parse_pairs : List Text → Option (List (Text × Text))
parse_pairs [] = some []
parse_pairs (part ∷ parts) = do
  pair ← parse_pair part
  pairs ← parse_pairs parts
  some (pair ∷ pairs)

-- A server's reading of a form: split at `&`, then at the first `=`, then percent-decode.
unfoldable pub parse_form : Text → Option (List (Text × Text))
parse_form text = parse_pairs (split_on b'&' text)

join_params_test :
    join_params (λ s. s) ((txt "a", txt "1") ∷ (txt "b", txt "2") ∷ []) ≡ txt "a=1&b=2"
unfolding join_params txt
join_params_test = refl

-- The loop that writes a list of texts with a separator between them; `first` at index 0.
unfoldable pub joined_loop : ℕ → Bool → Text → List Text → Text
joined_loop sep first text [] = text
joined_loop sep first text (item ∷ items) =
    joined_loop sep false ((if first then text else text ++ sep ∷ []) ++ item) items

unfoldable pub joined : ℕ → List Text → Text
unfolding joined_loop
joined sep items = joined_loop sep true [] items
