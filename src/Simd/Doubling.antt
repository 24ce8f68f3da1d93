-- ===== src/Simd/Doubling.antt =====
-- The two versions of bulk_string_to_double of src/simd/streaming_simd.cpp against each other.
use mathlib.Core.Path.{subst}
use libtradier.Base.{
  ℕ, zero, suc, ◌+◌, ◌*◌, ◌/◌, ◌%◌, ◌≡◌, refl, sym, ap, ◌∙◌, true, false, List, [], ◌∷◌, ◌++◌,
  Option, none, some, if◌then◌else◌, is_empty, length, take, drop, replicate, length-replicate, All,
  All-take, All-drop, take-append-drop, Bool-cases, arith, inl, inr,
}
use libtradier.Text.{Text}
use libtradier.Errors.{Outcome, ok, throw, ◌>>=◌}
use libtradier.Service.{Json, to_option}
use libtradier.Streaming.Events.{Conversions}
use libtradier.Simd.{
  Target, simd_dispatch, appended, stod_text, caught_text, scalar_number, scalar_doubles,
  chunk_number, chunk_doubles, double_chunks, avx2_doubles, bulk_string_to_double,
}

module _ {J D : Type 0} (lib : Json J D) (conversions : Conversions D)
    (from_chars : Text → Option D) where
  -- A string element has a text, and if that is not empty, from_chars and stod make the same of it.
  abbrev pub IsAgreed : J → Type 0
  IsAgreed json =
      lib.is_number json ≡ false
      → lib.is_string json ≡ true
      → (text : Text) × (lib.get_text json ≡ ok text)
        × (is_empty text ≡ false → from_chars text ≡ to_option (conversions.stod text))

  agreed_text :
      (text : Text)
      → (is_empty text ≡ false → from_chars text ≡ to_option (conversions.stod text))
      → (if is_empty text then none else from_chars text) ≡ stod_text conversions text
  unfolding stod_text
  agreed_text [] h = refl
  agreed_text (c ∷ text) h = h refl

  chunk_number-scalar :
      (json : J)
      → IsAgreed json
      → chunk_number lib from_chars json ≡ scalar_number lib conversions json
  unfolding chunk_number scalar_number caught_text
  chunk_number-scalar json h = elim (Bool-cases (lib.is_number json)) [
    | inl number ↦ rw number
    | inr other ↦ elim (Bool-cases (lib.is_string json)) [
      | inl string ↦
          let (text, e, same) = h other string in
          rw (other, string, e) (ap ok (agreed_text text same))
      | inr neither ↦ rw (other, neither)
    ]
  ]

  chunk_doubles-scalar :
      (jsons : List J)
      → All IsAgreed jsons
      → chunk_doubles lib from_chars jsons ≡ scalar_doubles lib conversions jsons
  unfolding chunk_doubles scalar_doubles
  chunk_doubles-scalar [] h = refl
  chunk_doubles-scalar (json ∷ jsons) h =
      rw (chunk_number-scalar json h.0, chunk_doubles-scalar jsons h.1)

  append_step :
      (o : Outcome (Option D)) (a b : Outcome (List D))
      → ((o >>= (λ d. a >>= (λ output. ok (appended d output))))
          >>= (λ output. b >>= (λ more. ok (output ++ more))))
        ≡ (o >>= (λ d.
            (a >>= (λ output. b >>= (λ more. ok (output ++ more))))
            >>= (λ output. ok (appended d output))))
  append_step (throw e) a b = refl
  append_step (ok d) (throw e) b = refl
  append_step (ok d) (ok output) (throw e) = refl
  append_step (ok none) (ok output) (ok more) = refl
  append_step (ok (some d)) (ok output) (ok more) = refl

  >>=-ok : (b : Outcome (List D)) → (b >>= (λ more. ok more)) ≡ b
  >>=-ok (ok more) = refl
  >>=-ok (throw e) = refl

  scalar_doubles-append :
      (xs ys : List J)
      → (scalar_doubles lib conversions xs
          >>= (λ output. scalar_doubles lib conversions ys >>= (λ more. ok (output ++ more))))
        ≡ scalar_doubles lib conversions (xs ++ ys)
  unfolding scalar_doubles
  scalar_doubles-append [] ys = >>=-ok (scalar_doubles lib conversions ys)
  scalar_doubles-append (x ∷ xs) ys = rw (
    append_step (scalar_number lib conversions x) (scalar_doubles lib conversions xs)
        (scalar_doubles lib conversions ys),
    scalar_doubles-append xs ys,
  )

  double_chunks-scalar :
      (chunks : ℕ) (jsons : List J)
      → All IsAgreed jsons
      → double_chunks lib conversions from_chars chunks jsons ≡ scalar_doubles lib conversions jsons
  unfolding double_chunks
  double_chunks-scalar zero jsons h = refl
  double_chunks-scalar (suc chunks) jsons h =
      rw
        (
          chunk_doubles-scalar (take 4 jsons) (All-take IsAgreed 4 jsons h),
          double_chunks-scalar chunks (drop 4 jsons) (All-drop IsAgreed 4 jsons h),
        )
        (scalar_doubles-append (take 4 jsons) (drop 4 jsons)
          ∙ ap (scalar_doubles lib conversions) (take-append-drop 4 jsons))

  -- If std::from_chars makes of every text among the elements what std::stod makes of it, then
  -- bulk_string_to_double gives the same numbers, in the same order, on every processor.
  pub bulk_string_to_double-same :
      (target : Target) (jsons : List J)
      → All IsAgreed jsons
      → bulk_string_to_double lib conversions from_chars target jsons
        ≡ scalar_doubles lib conversions jsons
  unfolding bulk_string_to_double simd_dispatch avx2_doubles
  bulk_string_to_double-same target jsons h =
      ground (arith, double_chunks-scalar (length jsons / 4) jsons)

module _ {J D : Type 0} (lib : Json J D) (conversions : Conversions D)
    (from_chars : Text → Option D) (json : J) (text : Text) (d : D)
    (other : lib.is_number json ≡ false) (string : lib.is_string json ≡ true)
    (e : lib.get_text json ≡ ok text) (filled : is_empty text ≡ false)
    (read : conversions.stod text ≡ ok d) where
  scalar_copies : (n : ℕ) → scalar_doubles lib conversions (replicate n json) ≡ ok (replicate n d)
  unfolding scalar_doubles scalar_number caught_text stod_text to_option
  scalar_copies zero = refl
  scalar_copies (suc n) = rw (other, string, e, filled, read, scalar_copies n)

  module _ (refused : from_chars text ≡ none) where
    chunk_refused : (n : ℕ) → chunk_doubles lib from_chars (replicate n json) ≡ ok []
    unfolding chunk_doubles chunk_number
    chunk_refused zero = refl
    chunk_refused (suc n) = rw (other, string, e, filled, refused, chunk_refused n)

    chunks_copies :
        (chunks m : ℕ)
        → double_chunks lib conversions from_chars chunks (replicate (4 * chunks + m) json)
          ≡ ok (replicate m d)
    unfolding double_chunks
    chunks_copies zero m = let e' : 4 * 0 + m ≡ m = omega arith in rw e' (scalar_copies m)
    chunks_copies (suc chunks) m =
        let e' : 4 * suc chunks + m ≡ suc (suc (suc (suc (4 * chunks + m)))) = omega arith in
        rw (e', chunk_refused 4, chunks_copies chunks m) refl

    -- Of n copies of a text that std::stod reads and std::from_chars does not, such as one with a
    -- space in front, the scalar version converts all, and the AVX2 version only those after the
    -- last full chunk of 4.
    pub avx2_doubles-copies :
        (n : ℕ)
        → (scalar_doubles lib conversions (replicate n json) ≡ ok (replicate n d))
          × (avx2_doubles lib conversions from_chars (replicate n json) ≡ ok (replicate (n % 4) d))
    unfolding avx2_doubles
    avx2_doubles-copies n =
        let e' : n ≡ 4 * (n / 4) + n % 4 = omega arith in
        (
          scalar_copies n,
          rw (length-replicate n json) (
              subst
                (λ k.
                  double_chunks lib conversions from_chars (n / 4) (replicate k json)
                  ≡ ok (replicate (n % 4) d))
                (sym e') (chunks_copies (n / 4) (n % 4))),
        )
