-- ===== src/Trading/Legs.antt =====
-- The form of placeMultiLegOrder in src/trading.cpp, leg by leg.
use libtradier.Base.{
  ℕ, suc, ◌+◌, ◌<◌, ◌≡◌, ◌≢◌, refl, sym, ap, ◌∙◌, false, List, [], ◌∷◌, ◌++◌, Option, none, some,
  arith, Bool-cases, inl, inr, length,
}
use libtradier.Text.{Text, txt, text_eq, text_eq_iff, decimal}
use libtradier.Int.{digits_value}
use libtradier.Int.RoundTrip.{digits_value-decimal}
use libtradier.FormMap.{FormMap, put_some, find}
use libtradier.FormMap.Laws.{find-put}
use libtradier.Validation.{Doubles}
use libtradier.Trading.Orders.{OptionLeg, MultiLegOrder, side_text, cast_side}
use libtradier.Trading.Requests.{leg_key, legs_form, multi_leg_form, same_text}

-- The number of a leg can be read off its keys.
leg_key-injective : (i j : ℕ) (f g : Text) → leg_key i f ≡ leg_key j g → i ≡ j
unfolding txt digits_value
leg_key-injective i j f g h =
    sym (digits_value-decimal i (b']' ∷ f))
    ∙ (ap (digits_value 0) (rest h) ∙ digits_value-decimal j (b']' ∷ g))
  where
    rest :
        {a b c d e k l : ℕ} {s t : Text}
        → (a ∷ b ∷ c ∷ d ∷ e ∷ k ∷ l ∷ s) ≡ (a ∷ b ∷ c ∷ d ∷ e ∷ k ∷ l ∷ t)
        → s ≡ t
    rest h = cc

leg_key-other : (i j : ℕ) (f g : Text) → i ≢ j → text_eq (leg_key i f) (leg_key j g) ≡ false
leg_key-other i j f g h = elim (Bool-cases (text_eq (leg_key i f) (leg_key j g))) [
  | inl same ↦ absurd (h (leg_key-injective i j f g ((text_eq_iff _ _).0 same)))
  | inr other ↦ other
]

text_eq-append : (p s t : Text) → text_eq (p ++ s) (p ++ t) ≡ text_eq s t
unfolding text_eq
text_eq-append [] s t = refl
text_eq-append (c ∷ p) s t = ground (arith, text_eq-append p s t)

leg_key-fields : (i : ℕ) (f g : Text) → text_eq (leg_key i f) (leg_key i g) ≡ text_eq f g
unfolding txt text_eq
leg_key-fields i f g = text_eq-append (decimal i) (b']' ∷ f) (b']' ∷ g)

module _ {D : Type 0} (doubles : Doubles D) where
  -- The later legs leave an earlier leg's keys alone.
  find-legs_form :
      (legs : List (OptionLeg D)) (i j : ℕ) (field : Text) (form : FormMap)
      → j < i
      → find (leg_key j field) (legs_form doubles i legs form) ≡ find (leg_key j field) form
  unfolding legs_form
  find-legs_form [] i j field form h = refl
  find-legs_form (leg ∷ legs) i j field form h =
      let ne : i ≢ j = λ e. omega (arith, e) in
      find-legs_form legs (suc i) j field _ (omega arith)
      ∙ simp (find-put, leg_key-other i j _ field ne)

  -- What the form says of leg number `i`.
  abbrev pub Leg : ℕ → OptionLeg D → FormMap → Type 0
  Leg i leg form =
      (find (leg_key i (txt "[option_symbol]")) form ≡ some leg.option_symbol)
      × (find (leg_key i (txt "[side]")) form ≡ some (side_text (cast_side leg.action)))
      × (find (leg_key i (txt "[quantity]")) form ≡ some (doubles.print leg.quantity))

  first-Leg :
      (leg : OptionLeg D) (after : List (OptionLeg D)) (i : ℕ) (form : FormMap)
      → Leg i leg (legs_form doubles i (leg ∷ after) form)
  unfolding legs_form txt text_eq
  first-Leg leg after i form = (
    find-legs_form after (suc i) i (txt "[option_symbol]") _ (omega arith)
        ∙ simp (find-put, leg_key-fields),
    find-legs_form after (suc i) i (txt "[side]") _ (omega arith) ∙ simp (find-put, leg_key-fields),
    find-legs_form after (suc i) i (txt "[quantity]") _ (omega arith)
        ∙ simp (find-put, leg_key-fields),
  )

  legs_form-Leg :
      (before : List (OptionLeg D)) (leg : OptionLeg D) (after : List (OptionLeg D)) (i j : ℕ)
      (form : FormMap)
      → j ≡ i + length before
      → Leg j leg (legs_form doubles i (before ++ leg ∷ after) form)
  unfolding legs_form
  legs_form-Leg [] leg after i j form h =
      let same : j ≡ i = omega arith in rw same (first-Leg leg after i form)
  legs_form-Leg (b ∷ before) leg after i j form h =
      legs_form-Leg before leg after (suc i) j _ (omega arith)

  -- In the form of placeMultiLegOrder the leg at index i of the list stands at option[i], with its
  -- option symbol and its quantity, and with the text of the side that its action is cast to.
  pub multi_leg_form-Leg :
      (m : MultiLegOrder D) (before : List (OptionLeg D)) (leg : OptionLeg D)
      (after : List (OptionLeg D))
      → m.legs ≡ before ++ leg ∷ after
      → Leg (length before) leg (multi_leg_form doubles m)
  unfolding multi_leg_form text_eq txt
  multi_leg_form-Leg m before leg after h = rw h (
      under_tag (length before) _ m.tag
        (legs_form-Leg before leg after 0 (length before) _ (omega arith)))
    where
      under_tag :
          (i : ℕ) (form : FormMap) (tag : Option Text)
          → Leg i leg form
          → Leg i leg (put_some (txt "tag") same_text tag form)
      under_tag i form none k = k
      under_tag i form (some t) (a, b, c) =
          (simp (find-put, a), simp (find-put, b), simp (find-put, c))
