-- ===== src/Codec/Base64.antt =====
-- base64Encode of src/common/utils.cpp, and AuthService::base64UrlEncode of src/auth.cpp, which
-- repeats its loop and then rewrites the result for URLs.
pub mod Rfc4648
pub mod UrlSafe
use Prim.Native.Nat.{bit_and}
use libtradier.Base.{
  ℕ, ◌+◌, ◌*◌, ◌/◌, ◌%◌, ◌≡◌, refl, List, [], ◌∷◌, ◌++◌, map, ◌==◌, if◌then◌else◌, get_or,
}
use libtradier.Text.{Text, txt}

-- base64_chars[i]
unfoldable pub base64_char : ℕ → ℕ
unfolding txt
base64_char i = get_or (txt "ABCDEFGHIJKLMNOPQRSTUVWXYZabcdefghijklmnopqrstuvwxyz0123456789+/") i 0

-- The loop's index `i` and char_array_3.
pub record Block : Type 0 where
  pub i : ℕ
  pub c0 : ℕ
  pub c1 : ℕ
  pub c2 : ℕ

-- char_array_3[i++] = c
unfoldable pub store : Block → ℕ → Block
store b c =
    if b.i == 0
    then record b { i = b.i + 1; c0 = c }
    else if b.i == 1
    then record b { i = b.i + 1; c1 = c }
    else record b { i = b.i + 1; c2 = c }

-- The entries of char_array_4, unsigned chars.
unfoldable pub quad0 : Block → ℕ
quad0 b = bit_and b.c0 0xfc / 4 % 256

unfoldable pub quad1 : Block → ℕ
quad1 b = (bit_and b.c0 0x03 * 16 + bit_and b.c1 0xf0 / 16) % 256

unfoldable pub quad2 : Block → ℕ
quad2 b = (bit_and b.c1 0x0f * 4 + bit_and b.c2 0xc0 / 64) % 256

unfoldable pub quad3 : Block → ℕ
quad3 b = bit_and b.c2 0x3f

-- One turn of the while loop.
unfoldable pub encode_step : Block × Text → ℕ → Block × Text
unfolding store quad0 quad1 quad2 quad3
encode_step (b, result) c =
    let b' = store b c in
    if b'.i == 3
    then (
      record b' { i = 0 },
      result
          ++ base64_char (quad0 b')
            ∷ base64_char (quad1 b')
            ∷ base64_char (quad2 b')
            ∷ base64_char (quad3 b')
            ∷ [],
    )
    else (b', result)

unfoldable pub encode_loop : Block × Text → Text → Block × Text
unfolding encode_step
encode_loop state [] = state
encode_loop state (c ∷ rest) = encode_loop (encode_step state c) rest

-- What follows the loop, for the one or two bytes left over: zero fill, the first i + 1 characters,
-- and `=` up to four.
unfoldable pub encode_tail : Block × Text → Text
unfolding quad0 quad1 quad2
encode_tail (b, result) =
    let one = record b { c1 = 0; c2 = 0 } in
    let two = record b { c2 = 0 } in
    if b.i == 0
    then result
    else if b.i == 1
    then result ++ base64_char (quad0 one) ∷ base64_char (quad1 one) ∷ b'=' ∷ b'=' ∷ []
    else result
      ++ base64_char (quad0 two) ∷ base64_char (quad1 two) ∷ base64_char (quad2 two) ∷ b'=' ∷ []

abbrev pub empty_block : Block
empty_block = record { i = 0; c0 = 0; c1 = 0; c2 = 0 }

unfoldable pub base64_encode : Text → Text
unfolding encode_loop encode_tail
base64_encode input = encode_tail (encode_loop (empty_block, []) input)

-- std::replace, twice.
unfoldable pub url_safe_char : ℕ → ℕ
url_safe_char c = if c == b'+' then b'-' else if c == b'/' then b'_' else c

-- result.erase(std::remove(…, '='), …)
unfoldable pub erase_char : ℕ → Text → Text
erase_char x [] = []
erase_char x (c ∷ s) = let rest = erase_char x s in if c == x then rest else c ∷ rest

unfoldable pub base64_url_encode : Text → Text
unfolding base64_encode url_safe_char erase_char
base64_url_encode input = erase_char b'=' (map url_safe_char (base64_encode input))

encode_tests :
    (base64_encode (txt "libtradier") ≡ txt "bGlidHJhZGllcg==")
    × (base64_encode (txt "foobar") ≡ txt "Zm9vYmFy")
    × (base64_url_encode (0xfb ∷ 0xff ∷ []) ≡ txt "-_8")
unfolding base64_encode base64_char base64_url_encode txt
encode_tests = (refl, refl, refl)
