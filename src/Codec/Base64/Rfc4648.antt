-- ===== src/Codec/Base64/Rfc4648.antt =====
-- Base64 as RFC 4648 describes it, apart from the program: groups of three bytes are read as one
-- 24-bit number and cut into four sextets; a decoder for the URL alphabet without padding.
use mathlib.Core.List.{append_assoc, append-nil}
use libtradier.Base.{
  ltb, ◌-◌, ◌==◌, if◌then◌else◌, refl, ℕ, ◌+◌, ◌*◌, ◌/◌, ◌%◌, ◌^◌, ◌<◌, ◌≡◌, sym, ap, ◌∙◌, [], ◌∷◌,
  ◌++◌, arith,
}
use libtradier.Text.{Text}
use libtradier.Codec.Bytes.{
  IsBytes, agree_below, agree_below→eq, high_six, low_two, high_four, low_four, high_two, low_six,
}
use libtradier.Codec.Base64.{
  base64_char, Block, store, quad0, quad1, quad2, quad3, encode_step, encode_loop, encode_tail,
  base64_encode,
}

-- Sextet k (from the right) of a number.
abbrev pub sextet : ℕ → ℕ → ℕ
sextet n k = n / 64 ^ k % 64

abbrev pub encode_group : (ℕ → ℕ) → ℕ → ℕ → ℕ → Text
encode_group char a b c =
    let n = a * 65536 + b * 256 + c in
    char (sextet n 3) ∷ char (sextet n 2) ∷ char (sextet n 1) ∷ char (sextet n 0) ∷ []

-- The encoding with a given alphabet, and `=` for the padding.
unfoldable pub encode_with : (ℕ → ℕ) → Text → Text
encode_with char [] = []
encode_with char (a ∷ []) = char (sextet (a * 16) 1) ∷ char (sextet (a * 16) 0) ∷ b'=' ∷ b'=' ∷ []
encode_with char (a ∷ b ∷ []) =
    let n = (a * 256 + b) * 4 in
    char (sextet n 2) ∷ char (sextet n 1) ∷ char (sextet n 0) ∷ b'=' ∷ []
encode_with char (a ∷ b ∷ c ∷ rest) = encode_group char a b c ++ encode_with char rest

-- Table 1 of the RFC by its ranges: 0 to 25 are the capitals, 26 to 51 the small letters, 52 to 61
-- the digits, 62 is `+` and 63 is `/`.
unfoldable pub alphabet_char : ℕ → ℕ
alphabet_char i =
    if ltb i 26
    then 65 + i
    else if ltb i 52
    then 97 + (i - 26)
    else if ltb i 62
    then 48 + (i - 52)
    else if i == 62
    then 43
    else 47

unfoldable pub encode : Text → Text
unfolding encode_with
encode s = encode_with alphabet_char s

base64_char-alphabet_char : (i : ℕ) → i < 64 → base64_char i ≡ alphabet_char i
unfolding agree_below base64_char alphabet_char
base64_char-alphabet_char = agree_below→eq base64_char alphabet_char 64 refl

char-mod : (m : ℕ) → base64_char (m % 64) ≡ alphabet_char (m % 64)
char-mod m = base64_char-alphabet_char (m % 64) (omega arith)

encode_with-encode : (s : Text) → encode_with base64_char s ≡ encode s
unfolding encode_with encode
encode_with-encode [] = refl
encode_with-encode (a ∷ []) = simp char-mod
encode_with-encode (a ∷ b ∷ []) = simp char-mod
encode_with-encode (a ∷ b ∷ c ∷ rest) = simp (char-mod, encode_with-encode rest)

module _ (b : Block) (h0 : b.c0 < 256) (h1 : b.c1 < 256) (h2 : b.c2 < 256) where
  number : ℕ
  number = b.c0 * 65536 + b.c1 * 256 + b.c2

  quads-sextet :
      (quad0 b ≡ sextet number 3)
      × (quad1 b ≡ sextet number 2)
      × (quad2 b ≡ sextet number 1)
      × (quad3 b ≡ sextet number 0)
  unfolding quad0 quad1 quad2 quad3 number
  quads-sextet = ground (
    arith,
    high_six b.c0 h0,
    low_two b.c0 h0,
    high_four b.c1 h1,
    low_four b.c1 h1,
    high_two b.c2 h2,
    low_six b.c2 h2,
  )

group-quads :
    (b : Block)
    → b.c0 < 256
    → b.c1 < 256
    → b.c2 < 256
    → base64_char (quad0 b)
        ∷ base64_char (quad1 b)
        ∷ base64_char (quad2 b)
        ∷ base64_char (quad3 b)
        ∷ []
      ≡ encode_group base64_char b.c0 b.c1 b.c2
unfolding number
group-quads b h0 h1 h2 = let (e0, e1, e2, e3) = quads-sextet b h0 h1 h2 in rw (e0, e1, e2, e3)

encode_loop-encode :
    (c0 c1 c2 : ℕ) (result s : Text)
    → IsBytes s
    → encode_tail (encode_loop (record { i = 0; c0 = c0; c1 = c1; c2 = c2 }, result) s)
      ≡ result ++ encode_with base64_char s
unfolding encode_loop encode_step store encode_tail encode_with quad0 quad1 quad2 quad3
encode_loop-encode c0 c1 c2 result [] h = sym (append-nil result)
encode_loop-encode c0 c1 c2 result (a ∷ []) h =
    ground (arith, high_six a h.0, low_two a h.0, high_four 0 (omega arith))
encode_loop-encode c0 c1 c2 result (a ∷ b ∷ []) h = ground (
  arith,
  high_six a h.0,
  low_two a h.0,
  high_four b h.1.0,
  low_four b h.1.0,
  high_two 0 (omega arith),
)
encode_loop-encode c0 c1 c2 result (a ∷ b ∷ c ∷ rest) h =
    let block : Block = record { i = 3; c0 = a; c1 = b; c2 = c } in
    encode_loop-encode a b c _ rest h.1.1.1
    ∙ append_assoc result _ (encode_with base64_char rest)
    ∙ ap (λ group. result ++ (group ++ encode_with base64_char rest))
        (group-quads block h.0 h.1.0 h.1.1.0)

pub base64_encode-encode_with : (s : Text) → IsBytes s → base64_encode s ≡ encode_with base64_char s
unfolding base64_encode
base64_encode-encode_with s h = encode_loop-encode 0 0 0 [] s h

-- On bytes, base64Encode is the encoding of RFC 4648, its alphabet and its padding included.
pub base64_encode-encode : (s : Text) → IsBytes s → base64_encode s ≡ encode s
base64_encode-encode s h = base64_encode-encode_with s h ∙ encode_with-encode s
