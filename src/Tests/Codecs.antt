-- ===== src/Tests/Codecs.antt =====
-- The codecs, the forms and the numbers at concrete texts.
use libtradier.Base.{◌≡◌, [], ◌∷◌, some, arith}
use libtradier.Text.{Text}
use libtradier.Codec.Bytes.{IsBytes}
use libtradier.Codec.Base64.{base64_encode, base64_url_encode}
use libtradier.Codec.Base64.Rfc4648.{encode, base64_encode-encode}
use libtradier.Codec.Base64.UrlSafe.{decode, decode-base64_url_encode}

abbrev high : Text
high = 251 ∷ 255 ∷ 0 ∷ 62 ∷ []

high-IsBytes : IsBytes high
high-IsBytes = ground arith

base64_encode-encode_example : base64_encode high ≡ encode high
base64_encode-encode_example = base64_encode-encode high high-IsBytes

decode-base64_url_encode_example : decode (base64_url_encode high) ≡ some high
decode-base64_url_encode_example = decode-base64_url_encode high high-IsBytes
