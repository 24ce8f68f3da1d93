-- ===== src/Service.antt =====
-- How the services of include/tradier call the client and read its answers: the body of a
-- tryExecute, and parseResponse of include/tradier/common/json_utils.hpp.
pub mod Laws
use libtradier.Base.{ℕ, Bool, true, false, ◌&&◌, not, List, ◌++◌, Option, none, some, if◌then◌else◌}
use libtradier.Text.{Text, txt}
use libtradier.Int.{ℤ}
use libtradier.Errors.{Exception, api_error, Outcome, ok, throw, ◌>>=◌, ◌>>◌}
use libtradier.ApiResult.{ApiResult, try_execute}
use libtradier.FormMap.{FormMap}
use libtradier.Http.{Response, success, Method}

-- TradierClient::get, post, put and del; `S` is the state of the client and of the world.
pub record Client (S : Type 0) : Type 0 where
  pub send : Method → Text → FormMap → S → Outcome Response × S

-- nlohmann::json, with values of type `J`.
pub record Json (J D : Type 0) : Type 0 where
  -- json::parse
  pub parse : Text → Outcome J
  pub contains : J → Text → Bool
  -- operator[] at a key that is there
  pub at : J → Text → J
  -- operator[] of a const value; at a key that is not there its behaviour is undefined, so any here
  pub index : J → Text → Outcome J
  pub is_null : J → Bool
  pub is_object : J → Bool
  pub is_array : J → Bool
  pub is_string : J → Bool
  pub is_number : J → Bool
  -- what a range-based for goes through
  pub elements : J → List J
  -- value(key, default), for the types of the defaults
  pub text_value : J → Text → Text → Outcome Text
  pub int_value : J → Text → ℤ → Outcome ℤ
  pub long_value : J → Text → ℤ → Outcome ℤ
  pub double_value : J → Text → D → Outcome D
  pub bool_value : J → Text → Bool → Outcome Bool
  -- the conversion to std::string
  pub get_text : J → Outcome Text
  -- get<double>(), get<int>(), get<long>() and get<bool>()
  pub get_double : J → Outcome D
  pub get_int : J → Outcome ℤ
  pub get_long : J → Outcome ℤ
  pub get_bool : J → Outcome Bool
  -- json::object()
  pub empty_object : J

unfoldable pub to_option {ℓ} : {A : Type ℓ} → Outcome A → Option A
to_option (ok a) = some a
to_option (throw e) = none

module _ {J D : Type 0} (lib : Json J D) where
  -- parseResponse
  unfoldable pub parse_response {ℓ} : {A : Type ℓ} → Response → (J → Outcome A) → Option A
  unfolding to_option
  parse_response response parser =
      if success response then to_option (lib.parse response.body >>= parser) else none

-- What a service asks of the client: the request, once its parameters are there, and what to throw.
pub record Call : Type 0 where
  pub method : Method
  pub path : Text
  -- the checks, then the parameters
  pub prepare : Outcome FormMap
  -- the text in front of the body of a bad answer
  pub failure : Text
  -- thrown when the body cannot be read
  pub unreadable : Exception
  pub operation : Text

unfoldable pub or_throw {ℓ} : {A : Type ℓ} → Exception → Option A → Outcome A
or_throw e none = throw e
or_throw e (some a) = ok a

module _ {J D S : Type 0} (lib : Json J D) (client : Client S) where
  unfoldable pub read_answer {ℓ} : {A : Type ℓ} → Call → (J → Outcome A) → Response → Outcome A
  unfolding or_throw
  read_answer call parser response =
      if not (success response)
      then throw (Exception.api (api_error response.status (call.failure ++ response.body)))
      else or_throw call.unreadable (parse_response lib response parser)

  unfoldable pub run {ℓ} :
      {A : Type ℓ} → Call → (J → Outcome A) → Outcome FormMap → S → ApiResult A × S
  run call parser (throw e) s = (try_execute (throw e) call.operation, s)
  run call parser (ok params) s =
      let (answer, s') = client.send call.method call.path params s in
      (try_execute (answer >>= read_answer call parser) call.operation, s')

  -- tryExecute around a whole service function.
  unfoldable pub perform {ℓ} : {A : Type ℓ} → Call → (J → Outcome A) → S → ApiResult A × S
  unfolding run
  perform call parser = run call parser call.prepare
