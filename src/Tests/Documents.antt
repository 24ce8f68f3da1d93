-- ===== src/Tests/Documents.antt =====
-- A JSON library for the tests: documents, and the operations of nlohmann::json on them.
use libtradier.Base.{ℕ, Bool, true, false, List, [], ◌∷◌, Option, none, some, if◌then◌else◌}
use libtradier.Text.{Text, txt, text_eq}
use libtradier.Int.{ℤ}
use libtradier.Errors.{Exception, Outcome, ok, throw}
use libtradier.Service.{Json}

mutual
  pub data Doc : Type 0 where
    null : Doc
    flag : Bool → Doc
    number : ℕ → Doc
    text : Text → Doc
    array : Items → Doc
    object : Fields → Doc

  pub data Items : Type 0 where
    nil : Items
    item : Doc → Items → Items

  pub data Fields : Type 0 where
    end : Fields
    field : Text → Doc → Fields → Fields

abbrev type_error {ℓ} : {A : Type ℓ} → Outcome A
type_error = throw (Exception.standard (txt "type_error"))

abbrev pub get : Text → Fields → Option Doc
get key end = none
get key (field k d rest) = if text_eq k key then some d else get key rest

abbrev fields : Doc → Option Fields
fields (object fs) = some fs
fields _ = none

abbrev lookup : Doc → Text → Option Doc
lookup d key = elim (fields d) [ none ↦ none | some fs ↦ get key fs ]

abbrev pub items : Items → List Doc
items nil = []
items (item d rest) = d ∷ items rest

abbrev pub get_text : Doc → Outcome Text
get_text (text t) = ok t
get_text _ = type_error

abbrev get_number : Doc → Outcome ℕ
get_number (number n) = ok n
get_number _ = type_error

abbrev pub get_flag : Doc → Outcome Bool
get_flag (flag b) = ok b
get_flag _ = type_error

abbrev pub read_or {ℓ} : {A : Type ℓ} → (Doc → Outcome A) → A → Option Doc → Outcome A
read_or read default none = ok default
read_or read default (some d) = read d

abbrev value {ℓ} : {A : Type ℓ} → (Doc → Outcome A) → Doc → Text → A → Outcome A
value read d key default = elim (fields d) [
  | none ↦ type_error
  | some fs ↦ read_or read default (get key fs)
]

abbrev as_int : Doc → Outcome ℤ
as_int d = elim (get_number d) [ ok n ↦ ok (ℤ.pos n) | throw e ↦ throw e ]

abbrev pub present : Option Doc → Bool
present none = false
present (some d) = true

abbrev pub or_null : Option Doc → Doc
or_null none = null
or_null (some d) = d

abbrev is_null : Doc → Bool
is_null null = true
is_null _ = false

abbrev is_object : Doc → Bool
is_object (object fs) = true
is_object _ = false

abbrev is_array : Doc → Bool
is_array (array xs) = true
is_array _ = false

abbrev is_text : Doc → Bool
is_text (text t) = true
is_text _ = false

abbrev is_number : Doc → Bool
is_number (number n) = true
is_number _ = false

abbrev elements : Doc → List Doc
elements (array xs) = items xs
elements _ = []

-- nlohmann::json with the documents that the texts stand for.
abbrev pub documents : (Text → Outcome Doc) → Json Doc ℕ
documents parse = record {
  parse = parse;
  contains = λ d key. present (lookup d key);
  at = λ d key. or_null (lookup d key);
  index = λ d key. elim (fields d) [ none ↦ type_error | some fs ↦ ok (or_null (get key fs)) ];
  is_null = is_null;
  is_object = is_object;
  is_array = is_array;
  is_string = is_text;
  is_number = is_number;
  elements = elements;
  text_value = value get_text;
  int_value = value as_int;
  long_value = value as_int;
  double_value = value get_number;
  bool_value = value get_flag;
  get_text = get_text;
  get_double = get_number;
  get_int = as_int;
  get_long = as_int;
  get_bool = get_flag;
  empty_object = object end;
}
