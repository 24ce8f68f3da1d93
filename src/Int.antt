-- ===== src/Int.antt =====
-- Signed integers, with std::to_string and std::stoi of the C++ library.
pub mod RoundTrip
use libtradier.Base.{
  ℕ, suc, ◌+◌, ◌-◌, ◌*◌, ◌^◌, ◌%◌, ◌≡◌, refl, Bool, true, false, ◌&&◌, ◌||◌, List, [], ◌∷◌, Option,
  none, some, leb, ltb, ◌==◌, if◌then◌else◌,
}
use libtradier.Text.{Text, txt, decimal}

-- `negsuc n` is -(n + 1).
pub data ℤ : Type 0 where
  pos : ℕ → ℤ
  negsuc : ℕ → ℤ

-- ++ on a 64-bit counter; a signed one stands for its 64 bits.
abbrev pub next64 : ℕ → ℕ
next64 n = (n + 1) % 2 ^ 64

-- std::to_string(int)
unfoldable pub to_text : ℤ → Text
to_text (ℤ.pos n) = decimal n
to_text (ℤ.negsuc n) = b'-' ∷ decimal (suc n)

abbrev pub is_digit : ℕ → Bool
is_digit c = leb b'0' c && leb c b'9'

abbrev is_space : ℕ → Bool
is_space c = c == 32 || (leb 9 c && leb c 13)

skip_spaces : Text → Text
skip_spaces [] = []
skip_spaces (c ∷ s) = let rest = skip_spaces s in if is_space c then rest else c ∷ s

-- The number that the leading digits spell; what follows them is ignored.
unfoldable pub digits_value : ℕ → Text → ℕ
digits_value acc [] = acc
digits_value acc (c ∷ s) =
    let rest = digits_value (acc * 10 + (c - b'0')) s in if is_digit c then rest else acc

magnitude : Text → Option ℕ
unfolding digits_value
magnitude [] = none
magnitude (c ∷ s) = if is_digit c then some (digits_value 0 (c ∷ s)) else none

-- The range of a 32-bit int.
signed : Bool → Option ℕ → Option ℤ
signed negative none = none
signed false (some n) = if ltb n (2 ^ 31) then some (ℤ.pos n) else none
signed true (some n) =
    if leb n (2 ^ 31) then some (if n == 0 then ℤ.pos 0 else ℤ.negsuc (n - 1)) else none

after_sign : Text → Option ℤ
unfolding magnitude signed
after_sign [] = none
after_sign (c ∷ s) =
    if c == b'-'
    then signed true (magnitude s)
    else if c == b'+'
    then signed false (magnitude s)
    else signed false (magnitude (c ∷ s))

-- std::stoi; `none` stands for std::invalid_argument and std::out_of_range.
unfoldable pub stoi : Text → Option ℤ
unfolding skip_spaces after_sign
stoi s = after_sign (skip_spaces s)

stoi_tests :
    (stoi (txt " -12ms") ≡ some (ℤ.negsuc 11))
    × (stoi (txt "60") ≡ some (ℤ.pos 60))
    × (stoi (txt "x") ≡ none)
    × (stoi (txt "2147483648") ≡ none)
unfolding stoi txt
stoi_tests = (refl, refl, refl, refl)
