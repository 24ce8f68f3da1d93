-- ===== src/Market/Items.antt =====
-- What the loops over the items of an answer in src/json/market.cpp come to: the relation `Listed`
-- between a document and the items read from it.
use libtradier.Base.{
  sym, ◌∙◌, ◌≡◌, refl, ◌↔◌, Bool, true, false, ◌&&◌, not, List, [], ◌∷◌, Bool-cases, inl, inr,
  arith,
}
use libtradier.Text.{Text}
use libtradier.Errors.{of_ok, Outcome, ok, throw, ◌>>=◌}
use libtradier.Service.{Json}
use libtradier.Service.Laws.{bind-ok}
use libtradier.Market.Reading.{present, parse_non_null, parse_items, items_under}

module _ {J D : Type 0} (lib : Json J D) where
  -- The items that are not null, in their order, each parsed
  pub data Reads {A : Type 0} (parser : J → Outcome A) : List J → List A → Type 0 where
    all_read : Reads parser [] []
    skipped :
        {item : J} {items : List J} {values : List A}
        → lib.is_null item ≡ true
        → Reads parser items values
        → Reads parser (item ∷ items) values
    read :
        {item : J} {items : List J} {value : A} {values : List A}
        → lib.is_null item ≡ false
        → parser item ≡ ok value
        → Reads parser items values
        → Reads parser (item ∷ items) (value ∷ values)

  same_values :
      {A : Type 0} {parser : J → Outcome A} {items : List J} {taken values : List A}
      → Reads parser items taken
      → ok taken ≡ ok values
      → Reads parser items values
  same_values {taken} {values} r h = (let e : taken ≡ values = of_ok h in rw (← e) r)

  at_null :
      {A : Type 0} (parser : J → Outcome A) (item : J) (items : List J)
      → lib.is_null item ≡ true
      → parse_non_null lib parser (item ∷ items) ≡ parse_non_null lib parser items
  unfolding parse_non_null
  at_null parser item items null = rw null refl

  at_value :
      {A : Type 0} (parser : J → Outcome A) (item : J) (items : List J)
      → lib.is_null item ≡ false
      → parse_non_null lib parser (item ∷ items)
        ≡ (do first ← parser item; others ← parse_non_null lib parser items; ok (first ∷ others))
  unfolding parse_non_null
  at_value parser item items there = rw there refl

  to_Reads :
      {A : Type 0} (parser : J → Outcome A) (items : List J) (values : List A)
      → parse_non_null lib parser items ≡ ok values
      → Reads parser items values
  unfolding parse_non_null
  to_Reads parser [] values h = same_values all_read h
  to_Reads parser (item ∷ items) values h = elim (Bool-cases (lib.is_null item)) [
    | inl null ↦
        skipped null (to_Reads parser items values (sym (at_null parser item items null) ∙ h))
    | inr there ↦
        let (first, e, k) =
          (bind-ok (parser item)
              (λ first. parse_non_null lib parser items >>= (λ others. ok (first ∷ others)))
              values).0
            (sym (at_value parser item items there) ∙ h) in
        let (others, e', k') =
          (bind-ok (parse_non_null lib parser items) (λ others. ok (first ∷ others)) values).0 k in
        same_values (read there e (to_Reads parser items others e')) k'
  ]

  of_Reads :
      {A : Type 0} (parser : J → Outcome A) {items : List J} {values : List A}
      → Reads parser items values
      → parse_non_null lib parser items ≡ ok values
  unfolding parse_non_null
  of_Reads parser all_read = refl
  of_Reads parser (skipped {item} {items} {values} null r) = rw null (of_Reads parser r)
  of_Reads parser (read {item} {items} {value} {values} there first r) =
      (let rest = of_Reads parser r in rw (there, first, rest) refl)

  parse_non_null-Reads :
      {A : Type 0} (parser : J → Outcome A) (items : List J) (values : List A)
      → (parse_non_null lib parser items ≡ ok values) ↔ Reads parser items values
  parse_non_null-Reads parser items values = (to_Reads parser items values, of_Reads parser)

  -- Whether a document holds items under two keys, and the items
  abbrev pub holds : Text → Text → J → Bool
  holds outer inner json =
      not (lib.is_null json)
      && lib.is_object json
      && present lib json outer
      && present lib (lib.at json outer) inner

  abbrev pub inside : Text → Text → J → J
  inside outer inner json = lib.at (lib.at json outer) inner

  -- The values that are read from them: those of an array, of a single object, or none
  abbrev pub Listed : {A : Type 0} → Text → Text → (J → Outcome A) → J → List A → Type 0
  Listed {A} outer inner parser json values =
      (holds outer inner json ≡ true
        → lib.is_array (inside outer inner json) ≡ true
        → Reads parser (lib.elements (inside outer inner json)) values)
      × (holds outer inner json ≡ true
          → lib.is_array (inside outer inner json) ≡ false
          → lib.is_object (inside outer inner json) ≡ true
          → (value : A) × (parser (inside outer inner json) ≡ ok value) × (values ≡ value ∷ []))
      × (holds outer inner json ≡ true
          → lib.is_array (inside outer inner json) ≡ false
          → lib.is_object (inside outer inner json) ≡ false
          → values ≡ [])
      × (holds outer inner json ≡ false → values ≡ [])

  singleton :
      {A : Type 0} (o : Outcome A) (values : List A)
      → ((o >>= (λ value. ok (value ∷ []))) ≡ ok values)
        ↔ ((value : A) × (o ≡ ok value) × (values ≡ value ∷ []))
  singleton (ok v) values = (λ h. (v, refl, sym (of_ok h)), λ (u, e, k). cc)
  singleton (throw e) values = (λ h. cc, λ (u, e', k). cc)

  pub items_under-Listed :
      {A : Type 0} (outer inner : Text) (parser : J → Outcome A) (json : J) (values : List A)
      → (items_under lib outer inner parser json ≡ ok values)
        ↔ Listed outer inner parser json values
  unfolding items_under parse_items
  items_under-Listed outer inner parser json values = ground (
    arith,
    parse_non_null-Reads parser (lib.elements (inside outer inner json)) values,
    singleton (parser (inside outer inner json)) values,
  )
