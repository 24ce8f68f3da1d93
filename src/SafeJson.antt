-- ===== src/SafeJson.antt =====
-- SafeJsonParser, JsonValidator, parseDateTime and parseResponseSafe of
-- include/tradier/common/json_utils.hpp and src/common/json_utils_base.cpp. json::parse and the
-- conversions throw nothing but a json::exception.
use libtradier.Base.{
  Bool, true, false, ◌&&◌, ◌||◌, not, List, [], ◌∷◌, ◌++◌, Option, none, if◌then◌else◌, is_empty,
}
use libtradier.Text.{Text, txt, decimal}
use libtradier.Int.{ℤ}
use libtradier.Errors.{what, Outcome, ok, throw, ◌>>=◌, or_default}
use libtradier.Http.{Response, success}
use libtradier.Service.{Json, to_option}
use libtradier.Dates.{Calendar, parse_iso_date_time}

pub record SafeJsonParser (J : Type 0) : Type 0 where
  pub json : J
  pub valid : Bool
  pub error : Text

-- SafeJsonParser(json)
unfoldable pub wrapped : {J : Type 0} → J → SafeJsonParser J
wrapped json = record { json = json; valid = true; error = [] }

module _ {J D : Type 0} (lib : Json J D) where
  parsed : Outcome J → SafeJsonParser J
  parsed (ok json) = record { json = json; valid = true; error = [] }
  parsed (throw e) = record { json = lib.empty_object; valid = false; error = what e }

  -- SafeJsonParser(text)
  unfoldable pub safe_text : Text → SafeJsonParser J
  unfolding parsed
  safe_text text = parsed (lib.parse text)

  -- SafeJsonParser(response)
  unfoldable pub safe_response : Response → SafeJsonParser J
  unfolding parsed
  safe_response response =
      if not (success response)
      then record {
        json = lib.empty_object;
        valid = false;
        error = txt "HTTP error: " ++ decimal response.status;
      }
      else parsed (lib.parse response.body)

  unfoldable pub holds_key : SafeJsonParser J → Text → Bool
  holds_key p key = p.valid && lib.contains p.json key

  -- operator[] of a key
  unfoldable pub field_of : SafeJsonParser J → Text → SafeJsonParser J
  unfolding wrapped holds_key
  field_of p key = wrapped (if holds_key p key then lib.at p.json key else lib.empty_object)

  -- value(key, default), for the five types; `read` is get<T>().
  unfoldable pub safe_value : {A : Type 0} → (J → Outcome A) → SafeJsonParser J → Text → A → A
  safe_value read p key d =
      if not p.valid || not (lib.contains p.json key) || lib.is_null (lib.at p.json key)
      then d
      else or_default d (read (lib.at p.json key))

  -- The conversions to double, std::string, int, bool and long, each with its zero
  unfoldable pub convert : {A : Type 0} → (J → Outcome A) → A → SafeJsonParser J → A
  convert read zero p =
      if not p.valid || lib.is_null p.json then zero else or_default zero (read p.json)

  unfoldable pub parse_response_safe :
      {A : Type 0} → Response → (SafeJsonParser J → Outcome A) → Option A
  unfolding safe_response
  parse_response_safe response parser =
      let p = safe_response response in if not p.valid then none else to_option (parser p)

  unfoldable pub parse_date_time : {Tm : Type 0} → Calendar Tm → J → Text → ℤ
  parse_date_time calendar json key =
      if lib.contains json key && not (lib.is_null (lib.at json key))
      then or_default (ℤ.pos 0)
          (lib.get_text (lib.at json key) >>= (λ text. ok (parse_iso_date_time calendar text)))
      else ℤ.pos 0

-- The errors that a validator has collected
abbrev pub JsonValidator : Type 0
JsonValidator = List Text

abbrev returns_value : {A : Type 0} → Outcome A → Bool
returns_value (ok a) = true
returns_value (throw e) = false

-- The loop of getErrorString
unfoldable pub separated : Bool → Text → List Text → Text
separated first text [] = text
separated first text (error ∷ errors) =
    separated false ((if first then text else text ++ txt ", ") ++ error) errors

module _ {J D : Type 0} (lib : Json J D) where
  -- A check of a field: `good` says whether it has the type asked for.
  unfoldable pub validate :
      Text → Text → (J → Bool) → J → Text → Bool → JsonValidator → Bool × JsonValidator
  validate missing wrong good json name required errors =
      if not (lib.contains json name)
      then if required then (false, errors ++ (missing ++ name) ∷ []) else (true, errors)
      else if not (good (lib.at json name))
      then (false, errors ++ (wrong ++ name) ∷ [])
      else (true, errors)

  -- validateField; get<T>() decides.
  unfoldable pub validate_field :
      {A : Type 0} → (J → Outcome A) → J → Text → Bool → JsonValidator → Bool × JsonValidator
  unfolding validate
  validate_field read =
      validate (txt "Missing required field: ") (txt "Invalid type for field: ")
        (λ json. returns_value (read json))

  unfoldable pub validate_object : J → Text → Bool → JsonValidator → Bool × JsonValidator
  unfolding validate
  validate_object =
      validate (txt "Missing required object: ") (txt "Field is not an object: ") lib.is_object

  unfoldable pub validate_array : J → Text → Bool → JsonValidator → Bool × JsonValidator
  unfolding validate
  validate_array =
      validate (txt "Missing required array: ") (txt "Field is not an array: ") lib.is_array

-- getErrorString
unfoldable pub error_string : JsonValidator → Text
unfolding separated
error_string errors =
    if is_empty errors then txt "" else separated true (txt "Validation errors: ") errors
