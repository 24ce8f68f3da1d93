-- ===== src/Int/RoundTrip.antt =====
-- std::to_string and std::stoi are inverse to each other on the range of an int.
use libtradier.Base.{
  ℕ, zero, suc, ◌+◌, ◌*◌, ◌/◌, ◌%◌, ◌^◌, ◌<◌, ◌≡◌, refl, ap, ◌∙◌, true, false, [], ◌∷◌, ◌++◌, some,
  arith, ltb, Bool-cases, inl, inr,
}
use libtradier.Text.{Text, decimal, decimal_loop}
use libtradier.Int.{
  ℤ, to_text, is_digit, skip_spaces, digits_value, magnitude, signed, after_sign, stoi,
}

decimal_loop-append :
    (fuel n : ℕ) (s t : Text) → decimal_loop fuel n s ++ t ≡ decimal_loop fuel n (s ++ t)
unfolding decimal_loop
decimal_loop-append zero n s t = refl
decimal_loop-append (suc fuel) n s t = elim (Bool-cases (ltb n 10)) [
  | inl small ↦ rw small refl
  | inr large ↦ rw large (decimal_loop-append fuel (n / 10) _ t)
]

is_digit-digit : (d : ℕ) → d < 10 → is_digit (b'0' + d) ≡ true
is_digit-digit d h = ground arith

digits_value-digit :
    (acc d : ℕ) (s : Text)
    → d < 10
    → digits_value acc ((b'0' + d) ∷ s) ≡ digits_value (acc * 10 + d) s
unfolding digits_value
digits_value-digit acc d s h = rw (is_digit-digit d h) (ap (λ v. digits_value v s) (omega arith))

-- Reading on past the digits that the loop has written.
digits_value-decimal_loop :
    (fuel n : ℕ) (s : Text) → n < fuel → digits_value 0 (decimal_loop fuel n s) ≡ digits_value n s
unfolding decimal_loop digits_value
digits_value-decimal_loop zero n s h = absurd (omega arith)
digits_value-decimal_loop (suc fuel) n s h = elim (Bool-cases (ltb n 10)) [
  | inl small ↦
      rw small
        (digits_value-digit 0 (n % 10) s (omega arith) ∙ ap (λ v. digits_value v s) (ground arith))
  | inr large ↦ rw large (
      digits_value-decimal_loop fuel (n / 10) ((b'0' + n % 10) ∷ s) (ground arith)
      ∙ (digits_value-digit (n / 10) (n % 10) s (omega arith)
          ∙ ap (λ v. digits_value v s) (omega arith)))
]

-- The text of a number, up to a character that is no digit.
pub digits_value-decimal : (n : ℕ) (s : Text) → digits_value 0 (decimal n ++ s) ≡ digits_value n s
unfolding decimal
digits_value-decimal n s =
    ap (digits_value 0) (decimal_loop-append (suc n) n [] s)
    ∙ digits_value-decimal_loop (suc n) n s (omega arith)

-- It starts with a digit.
Starts : Text → Type 0
Starts t = (c : ℕ) × (s : Text) × (t ≡ c ∷ s) × (is_digit c ≡ true)

decimal_loop-Starts :
    (fuel n d : ℕ) (s : Text) → is_digit d ≡ true → Starts (decimal_loop fuel n (d ∷ s))
unfolding decimal_loop Starts
decimal_loop-Starts zero n d s h = (d, s, refl, h)
decimal_loop-Starts (suc fuel) n d s h = elim (Bool-cases (ltb n 10)) [
  | inl small ↦ rw small (_, _, refl, is_digit-digit (n % 10) (omega arith))
  | inr large ↦ rw large (
      decimal_loop-Starts fuel (n / 10) (b'0' + n % 10) (d ∷ s)
        (is_digit-digit (n % 10) (omega arith)))
]

decimal-Starts : (n : ℕ) → Starts (decimal n)
unfolding decimal decimal_loop Starts
decimal-Starts n = elim (Bool-cases (ltb n 10)) [
  | inl small ↦ rw small (_, _, refl, is_digit-digit (n % 10) (omega arith))
  | inr large ↦
      rw large
        (decimal_loop-Starts n (n / 10) (b'0' + n % 10) [] (is_digit-digit (n % 10) (omega arith)))
]

is_digit-head : (c : ℕ) (t : Text) → Starts (c ∷ t) → is_digit c ≡ true
unfolding Starts
is_digit-head c t (d, s, e, h) = ap is_digit (head_eq e) ∙ h
  where
    head_eq : {a b : ℕ} {s t : Text} → (a ∷ s) ≡ (b ∷ t) → a ≡ b
    head_eq h = cc

magnitude-Starts : (t : Text) → Starts t → magnitude t ≡ some (digits_value 0 t)
unfolding magnitude Starts
magnitude-Starts [] (d, s, e, h) = cc
magnitude-Starts (c ∷ t) h = rw (is_digit-head c t h) refl

stoi-Starts : (t : Text) → Starts t → stoi t ≡ signed false (magnitude t)
unfolding stoi skip_spaces after_sign Starts
stoi-Starts [] (d, s, e, h) = cc
stoi-Starts (c ∷ t) h = let digit = is_digit-head c t h in ground arith

magnitude-decimal : (n : ℕ) → magnitude (decimal n) ≡ some n
unfolding decimal digits_value
magnitude-decimal n =
    magnitude-Starts (decimal n) (decimal-Starts n)
    ∙ ap some (digits_value-decimal_loop (suc n) n [] (omega arith))

-- The range of an int.
abbrev pub IsInt : ℤ → Type 0
IsInt (ℤ.pos n) = n < 2 ^ 31
IsInt (ℤ.negsuc n) = n < 2 ^ 31

-- std::stoi reads every int back from its std::to_string.
pub stoi-to_text : (z : ℤ) → IsInt z → stoi (to_text z) ≡ some z
unfolding stoi to_text after_sign signed
stoi-to_text (ℤ.pos n) h =
    stoi-Starts (decimal n) (decimal-Starts n) ∙ rw (magnitude-decimal n) (ground arith)
stoi-to_text (ℤ.negsuc n) h = rw (magnitude-decimal (suc n)) (ground arith)
