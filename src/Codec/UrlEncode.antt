-- ===== src/Codec/UrlEncode.antt =====
-- utils::urlEncode of include/tradier/common/utils.hpp, in the C locale, and a decoder that reads it
-- back.
use libtradier.Base.{
  ℕ, ◌+◌, ◌-◌, ◌*◌, ◌/◌, ◌%◌, ◌<◌, ◌≡◌, refl, Bool, true, false, ◌&&◌, ◌||◌, [], ◌∷◌, ◌++◌, Option,
  none, some, arith, leb, ltb, ◌==◌, if◌then◌else◌, Bool-cases, inl, inr,
}
use mathlib.Core.Option
use libtradier.Text.{Text, txt}
use libtradier.Codec.Bytes.{IsBytes}

-- std::isalnum
unfoldable pub is_alnum : ℕ → Bool
is_alnum c = (leb b'0' c && leb c b'9') || (leb b'A' c && leb c b'Z') || (leb b'a' c && leb c b'z')

unfoldable pub is_unreserved : ℕ → Bool
unfolding is_alnum
is_unreserved c = is_alnum c || c == b'-' || c == b'_' || c == b'.' || c == b'~'

-- A digit as std::hex prints it.
unfoldable pub hex_digit : ℕ → ℕ
hex_digit d = if ltb d 10 then b'0' + d else 87 + d

-- setw(2) with fill '0' over an unsigned char: always two digits.
unfoldable pub encode_byte : ℕ → Text
encode_byte c =
    if is_unreserved c then c ∷ [] else b'%' ∷ hex_digit (c / 16) ∷ hex_digit (c % 16) ∷ []

unfoldable pub url_encode : Text → Text
url_encode [] = []
url_encode (c ∷ rest) = encode_byte c ++ url_encode rest

url_encode_test : url_encode (txt "a b&c=1~") ≡ txt "a%20b%26c%3d1~"
unfolding url_encode encode_byte is_unreserved hex_digit txt
url_encode_test = refl

-- A percent decoder.
unfoldable pub hex_value : ℕ → ℕ
hex_value c = if leb b'a' c then c - 87 else c - 48

unfoldable pub percent_decode : Text → Option Text
percent_decode [] = some []
percent_decode (c ∷ []) = if c == b'%' then none else some (c ∷ [])
percent_decode (c ∷ d ∷ []) =
    let plain = Option.map (λ tail. c ∷ tail) (percent_decode (d ∷ [])) in
    if c == b'%' then none else plain
percent_decode (c ∷ d ∷ e ∷ rest) =
    let coded =
      Option.map (λ tail. (hex_value d * 16 + hex_value e) ∷ tail) (percent_decode rest) in
    let plain = Option.map (λ tail. c ∷ tail) (percent_decode (d ∷ e ∷ rest)) in
    if c == b'%' then coded else plain

hex_value-hex_digit : (d : ℕ) → d < 16 → hex_value (hex_digit d) ≡ d
unfolding hex_value hex_digit
hex_value-hex_digit d h = ground arith

percent_decode-plain :
    (c : ℕ) (s : Text)
    → (c == b'%') ≡ false
    → percent_decode (c ∷ s) ≡ Option.map (λ tail. c ∷ tail) (percent_decode s)
unfolding percent_decode
percent_decode-plain c [] h = rw h
percent_decode-plain c (d ∷ []) h = rw h
percent_decode-plain c (d ∷ e ∷ rest) h = rw h

unreserved-ne_percent : (c : ℕ) → is_unreserved c ≡ true → (c == b'%') ≡ false
unfolding is_unreserved is_alnum
unreserved-ne_percent c h = ground arith

percent_decode-encode_byte :
    (c : ℕ) (s t : Text)
    → c < 256
    → percent_decode s ≡ some t
    → percent_decode (encode_byte c ++ s) ≡ some (c ∷ t)
unfolding encode_byte percent_decode
percent_decode-encode_byte c s t h e = elim (Bool-cases (is_unreserved c)) [
  | inl p ↦ rw (p, percent_decode-plain c s (unreserved-ne_percent c p), e)
  | inr p ↦
      rw
        (
          p,
          percent_decode,
          e,
          hex_value-hex_digit (c / 16) (omega arith),
          hex_value-hex_digit (c % 16) (omega arith),
        )
        (ground arith)
]

-- Decoding gives back what was encoded, for any sequence of bytes.
pub percent_decode-url_encode : (s : Text) → IsBytes s → percent_decode (url_encode s) ≡ some s
unfolding url_encode percent_decode
percent_decode-url_encode [] h = refl
percent_decode-url_encode (c ∷ rest) h =
    percent_decode-encode_byte c (url_encode rest) rest h.0 (percent_decode-url_encode rest h.1)
