-- ===== src/Query/RoundTrip.antt =====
-- A form that is encoded piece by piece is read back as the map it was made from.
use libtradier.Base.{
  ℕ, ◌/◌, ◌%◌, ◌⊎◌, ◌≡◌, refl, sym, ap, ◌∙◌, true, false, List, [], ◌∷◌, ◌++◌, some, arith, ◌==◌,
  All, All-append, Bool-cases, inl, inr,
}
use mathlib.Core.List.{append_assoc, append-nil}
use libtradier.Text.{Text, txt}
use libtradier.Codec.Bytes.{IsBytes}
use libtradier.Codec.UrlEncode.{
  is_alnum, is_unreserved, hex_digit, encode_byte, url_encode, percent_decode-url_encode,
}
use libtradier.FormMap.{FormMap}
use libtradier.Query.{join_loop, join_params, split_on, cut, parse_pair, parse_pairs, parse_form}

-- The separator does not occur.
abbrev pub Free : ℕ → Text → Type 0
Free sep s = All (λ c. (c == sep) ≡ false) s

pub split_on-Free : (sep : ℕ) (s : Text) → Free sep s → split_on sep s ≡ s ∷ []
unfolding split_on
split_on-Free sep [] h = refl
split_on-Free sep (c ∷ s) h = rw (split_on-Free sep s h.1, h.0)

split_on-cons :
    (sep : ℕ) (t : Text) → (part : Text) × (parts : List Text) × (split_on sep t ≡ part ∷ parts)
unfolding split_on
split_on-cons sep [] = ([], [], refl)
split_on-cons sep (c ∷ t) =
    let (part, parts, e) = split_on-cons sep t in
    elim (Bool-cases (c == sep)) [
      | inl h ↦ ([], part ∷ parts, rw (e, h))
      | inr h ↦ (c ∷ part, parts, rw (e, h))
    ]

pub split_on-append :
    (sep : ℕ) (s t : Text) → Free sep s → split_on sep (s ++ sep ∷ t) ≡ s ∷ split_on sep t
unfolding split_on
split_on-append sep [] t h = let (part, parts, e) = split_on-cons sep t in rw e (ground arith)
split_on-append sep (c ∷ s) t h = rw (split_on-append sep s t h.1, h.0)

pub cut-append : (sep : ℕ) (s t : Text) → Free sep s → cut sep (s ++ sep ∷ t) ≡ some (s, t)
unfolding cut
cut-append sep [] t h = ground arith
cut-append sep (c ∷ s) t h = rw (h.0, cut-append sep s t h.1)

abbrev IsSeparator : ℕ → Type 0
IsSeparator sep = (sep ≡ b'&') ⊎ (sep ≡ b'=')

unreserved-Free : (sep c : ℕ) → IsSeparator sep → is_unreserved c ≡ true → (c == sep) ≡ false
unfolding is_unreserved is_alnum
unreserved-Free sep c h u = ground arith

hex_digit-Free : (sep d : ℕ) → IsSeparator sep → (hex_digit d == sep) ≡ false
unfolding hex_digit
hex_digit-Free sep d h = ground arith

encode_byte-Free : (sep c : ℕ) → IsSeparator sep → Free sep (encode_byte c)
unfolding encode_byte
encode_byte-Free sep c h = elim (Bool-cases (is_unreserved c)) [
  | inl u ↦ rw u (unreserved-Free sep c h u, tt)
  | inr u ↦
      rw u (ground arith, (hex_digit-Free sep (c / 16) h, (hex_digit-Free sep (c % 16) h, tt)))
]

-- What url_encode writes holds no `&` and no `=`.
pub url_encode-Free : (sep : ℕ) (s : Text) → IsSeparator sep → Free sep (url_encode s)
unfolding url_encode
url_encode-Free sep [] h = tt
url_encode-Free sep (c ∷ s) h =
    All-append (λ x. (x == sep) ≡ false) (encode_byte c) (url_encode s) (encode_byte-Free sep c h)
      (url_encode-Free sep s h)

unfoldable pub pair_text : Text × Text → Text
pair_text (k, v) = url_encode k ++ b'=' ∷ url_encode v

-- The text of the pairs after the first.
unfoldable pub rest_text : FormMap → Text
rest_text [] = []
rest_text (p ∷ rest) = b'&' ∷ (pair_text p ++ rest_text rest)

join_loop-rest_text :
    (rest : FormMap) (text : Text) → join_loop url_encode false text rest ≡ text ++ rest_text rest
unfolding join_loop rest_text pair_text txt
join_loop-rest_text [] text = sym (append-nil text)
join_loop-rest_text ((k, v) ∷ rest) text = join_loop-rest_text rest _ ∙ simp append_assoc

abbrev pub IsBytesPair : Text × Text → Type 0
IsBytesPair p = IsBytes p.0 × IsBytes p.1

parse_pair-pair_text : (p : Text × Text) → IsBytesPair p → parse_pair (pair_text p) ≡ some p
unfolding parse_pair pair_text
parse_pair-pair_text (k, v) h = rw (
  cut-append b'=' (url_encode k) (url_encode v) (url_encode-Free b'=' k (inr refl)),
  percent_decode-url_encode k h.0,
  percent_decode-url_encode v h.1,
)

pair_text-Free : (p : Text × Text) → Free b'&' (pair_text p)
unfolding pair_text
pair_text-Free (k, v) =
    All-append (λ c. (c == b'&') ≡ false) (url_encode k) _ (url_encode-Free b'&' k (inl refl))
      (refl, url_encode-Free b'&' v (inl refl))

pub parse_pairs-rest :
    (p : Text × Text) (rest : FormMap)
    → IsBytesPair p
    → All IsBytesPair rest
    → parse_pairs (split_on b'&' (pair_text p ++ rest_text rest)) ≡ some (p ∷ rest)
unfolding rest_text parse_pairs
parse_pairs-rest p [] hp h = rw (
  append-nil (pair_text p),
  split_on-Free b'&' (pair_text p) (pair_text-Free p),
  parse_pair-pair_text p hp,
)
parse_pairs-rest p (q ∷ rest) hp h = rw (
  split_on-append b'&' (pair_text p) (pair_text q ++ rest_text rest) (pair_text-Free p),
  parse_pair-pair_text p hp,
  parse_pairs-rest q rest h.0 h.1,
)

-- The query text of a map of byte strings, with keys and values percent-encoded, reads back as the
-- map's pairs in the order of its keys.
pub parse_form-join_params :
    (key value : Text) (rest : FormMap)
    → All IsBytesPair ((key, value) ∷ rest)
    → parse_form (join_params url_encode ((key, value) ∷ rest)) ≡ some ((key, value) ∷ rest)
unfolding parse_form join_params pair_text txt
parse_form-join_params key value rest h = ap parse_form (join_loop-rest_text rest _) ∙ first
  where
    first : parse_form (pair_text (key, value) ++ rest_text rest) ≡ some ((key, value) ∷ rest)
    first = parse_pairs-rest (key, value) rest h.0 h.1
