-- ===== src/Codec/Base64/UrlSafe.antt =====
-- AuthService::base64UrlEncode: its alphabet, its length, and a decoder that reads it back.
use libtradier.Base.{
  ℕ, ◌+◌, ◌-◌, ◌*◌, ◌/◌, ◌%◌, ◌<◌, ◌≡◌, refl, [], ◌∷◌, map, Option, none, some, Bool, true, false,
  ◌&&◌, ◌||◌, arith, leb, ◌==◌, if◌then◌else◌, length, All,
}
use mathlib.Core.Option
use libtradier.Text.{Text}
use libtradier.Codec.Bytes.{IsBytes, agree_below, agree_below→eq, all_below, all_below_sound}
use libtradier.Codec.Base64.{base64_char, url_safe_char, erase_char, base64_url_encode}
use libtradier.Codec.Base64.Rfc4648.{sextet, encode_with, base64_encode-encode_with}

abbrev url_char : ℕ → ℕ
url_char i = url_safe_char (base64_char i)

-- The value of a character of the URL alphabet.
unfoldable pub char_value : ℕ → ℕ
char_value c =
    if leb b'A' c && leb c b'Z'
    then c - 65
    else if leb b'a' c && leb c b'z'
    then c - 71
    else if leb b'0' c && leb c b'9'
    then c + 4
    else if c == b'-'
    then 62
    else 63

-- A letter, a digit, `-` or `_`.
unfoldable pub is_url_safe : ℕ → Bool
is_url_safe c =
    (leb b'A' c && leb c b'Z')
    || (leb b'a' c && leb c b'z')
    || (leb b'0' c && leb c b'9')
    || c == b'-'
    || c == b'_'

char_value-url_char : (i : ℕ) → i < 64 → char_value (url_char i) ≡ i
unfolding agree_below char_value url_safe_char base64_char
char_value-url_char = agree_below→eq (λ i. char_value (url_char i)) (λ i. i) 64 refl

is_url_safe-url_char : (i : ℕ) → i < 64 → is_url_safe (url_char i) ≡ true
unfolding all_below is_url_safe url_safe_char base64_char
is_url_safe-url_char = all_below_sound 64 (λ i. is_url_safe (url_char i)) refl

url_char-ne_pad : (i : ℕ) → i < 64 → (url_char i == b'=') ≡ false
unfolding is_url_safe
url_char-ne_pad i h = ground (arith, is_url_safe-url_char i h)

-- The decoder, written for this alphabet without padding; a length of 4k + 1 has no reading.
unfoldable pub decode : Text → Option Text
decode [] = some []
decode (w ∷ []) = none
decode (w ∷ x ∷ []) = some ((char_value w * 64 + char_value x) / 16 ∷ [])
decode (w ∷ x ∷ y ∷ []) =
    let n = char_value w * 4096 + char_value x * 64 + char_value y in
    some (n / 1024 ∷ n / 4 % 256 ∷ [])
decode (w ∷ x ∷ y ∷ z ∷ rest) =
    let n = char_value w * 262144 + char_value x * 4096 + char_value y * 64 + char_value z in
    Option.map (λ tail. n / 65536 ∷ n / 256 % 256 ∷ n % 256 ∷ tail) (decode rest)

-- The encoding with the URL alphabet and no padding.
encode_url : Text → Text
encode_url [] = []
encode_url (a ∷ []) = url_char (sextet (a * 16) 1) ∷ url_char (sextet (a * 16) 0) ∷ []
encode_url (a ∷ b ∷ []) =
    let n = (a * 256 + b) * 4 in
    url_char (sextet n 2) ∷ url_char (sextet n 1) ∷ url_char (sextet n 0) ∷ []
encode_url (a ∷ b ∷ c ∷ rest) =
    let n = a * 65536 + b * 256 + c in
    url_char (sextet n 3)
    ∷ url_char (sextet n 2)
    ∷ url_char (sextet n 1)
    ∷ url_char (sextet n 0)
    ∷ encode_url rest

url_char-mod :
    (m : ℕ)
    → ((url_char (m % 64) == b'=') ≡ false)
      × (char_value (url_char (m % 64)) ≡ m % 64)
      × (is_url_safe (url_char (m % 64)) ≡ true)
url_char-mod m = (
  url_char-ne_pad (m % 64) (omega arith),
  char_value-url_char (m % 64) (omega arith),
  is_url_safe-url_char (m % 64) (omega arith),
)

ne_pad : (m : ℕ) → (url_char (m % 64) == b'=') ≡ false
ne_pad m = (url_char-mod m).0

value : (m : ℕ) → char_value (url_char (m % 64)) ≡ m % 64
value m = (url_char-mod m).1

safe : (m : ℕ) → is_url_safe (url_char (m % 64)) ≡ true
safe m = (url_char-mod m).2

pad : url_safe_char b'=' ≡ b'='
unfolding url_safe_char
pad = refl

erase-encode :
    (s : Text) → erase_char b'=' (map url_safe_char (encode_with base64_char s)) ≡ encode_url s
unfolding encode_with encode_url erase_char
erase-encode [] = refl
erase-encode (a ∷ []) = simp (ne_pad, pad)
erase-encode (a ∷ b ∷ []) = simp (ne_pad, pad)
erase-encode (a ∷ b ∷ c ∷ rest) = simp (ne_pad, erase-encode rest)

decode-encode_url : (s : Text) → IsBytes s → decode (encode_url s) ≡ some s
unfolding encode_url decode
decode-encode_url [] h = refl
decode-encode_url (a ∷ []) h = simp value (ground arith)
decode-encode_url (a ∷ b ∷ []) h = simp value (ground arith)
decode-encode_url (a ∷ b ∷ c ∷ rest) h = simp (value, decode-encode_url rest h.1.1.1) (ground arith)

base64_url_encode-encode_url : (s : Text) → IsBytes s → base64_url_encode s ≡ encode_url s
unfolding base64_url_encode
base64_url_encode-encode_url s h = rw (base64_encode-encode_with s h) (erase-encode s)

encode_url-IsUrlSafe : (s : Text) → All (λ c. is_url_safe c ≡ true) (encode_url s)
unfolding encode_url
encode_url-IsUrlSafe [] = tt
encode_url-IsUrlSafe (a ∷ []) = (safe _, (safe _, tt))
encode_url-IsUrlSafe (a ∷ b ∷ []) = (safe _, (safe _, (safe _, tt)))
encode_url-IsUrlSafe (a ∷ b ∷ c ∷ rest) =
    (safe _, (safe _, (safe _, (safe _, encode_url-IsUrlSafe rest))))

length-encode_url : (s : Text) → length (encode_url s) ≡ (4 * length s + 2) / 3
unfolding encode_url
length-encode_url [] = refl
length-encode_url (a ∷ []) = refl
length-encode_url (a ∷ b ∷ []) = refl
length-encode_url (a ∷ b ∷ c ∷ rest) = omega (arith, length-encode_url rest)

-- base64UrlEncode loses nothing: the decoder gives back any sequence of bytes.
pub decode-base64_url_encode : (s : Text) → IsBytes s → decode (base64_url_encode s) ≡ some s
decode-base64_url_encode s h = rw (base64_url_encode-encode_url s h) (decode-encode_url s h)

-- Its output is made of letters, digits, `-` and `_` alone, and n bytes take (4n + 2) / 3 characters,
-- rounded down: a SHA-256 digest takes 43.
pub base64_url_encode-IsUrlSafe :
    (s : Text)
    → IsBytes s
    → All (λ c. is_url_safe c ≡ true) (base64_url_encode s)
      × (length (base64_url_encode s) ≡ (4 * length s + 2) / 3)
base64_url_encode-IsUrlSafe s h =
    rw (base64_url_encode-encode_url s h) (encode_url-IsUrlSafe s, length-encode_url s)
