-- ===== src/Account/Ensured.antt =====
-- What a parser ensures of its values holds of what a function of src/account.cpp returns.
use libtradier.Base.{◌≡◌, Bool, true, false, not, none, if◌then◌else◌}
use libtradier.Errors.{Exception, Outcome, ok, throw, ◌>>=◌}
use libtradier.Errors.Ensures.{Ensures, returns, throws, bind-Ensures, if-Ensures, ensured}
use libtradier.ApiResult.{of_value}
use libtradier.ApiResult.Laws.{try_execute-IsSettled}
use libtradier.FormMap.{FormMap}
use libtradier.Http.{Response, success}
use libtradier.Service.{Client, Json, Call, or_throw, to_option}
use libtradier.SafeJson.{SafeJsonParser, safe_response, parse_response_safe}
use libtradier.Account.Answers.{read_safe_answer, run_safe}

or_throw-Ensures :
    {A : Type 0} {P : A → Type 0} (e : Exception) {o : Outcome A}
    → Ensures P o
    → Ensures P (or_throw e (to_option o))
unfolding or_throw to_option
or_throw-Ensures e (returns p) = returns p
or_throw-Ensures e throws = throws

readable :
    {A : Type 0} {P : A → Type 0} (e : Exception) (valid : Bool) {o : Outcome A}
    → Ensures P o
    → Ensures P (or_throw e (if not valid then none else to_option o))
unfolding or_throw
readable e true h = or_throw-Ensures e h
readable e false h = throws

module _ {J D S : Type 0} (lib : Json J D) (client : Client S) where
  read_safe_answer-Ensures :
      {A : Type 0} {P : A → Type 0} (call : Call) (parser : SafeJsonParser J → Outcome A)
      (r : Response)
      → ((p : SafeJsonParser J) → Ensures P (parser p))
      → Ensures P (read_safe_answer lib client call parser r)
  unfolding read_safe_answer or_throw parse_response_safe
  read_safe_answer-Ensures call parser r all =
      if-Ensures (not (success r)) (λ bad. throws)
        (λ good. readable call.unreadable (safe_response lib r).valid (all (safe_response lib r)))

  pub run_safe-Ensures :
      {A : Type 0} {P : A → Type 0} (call : Call) (parser : SafeJsonParser J → Outcome A)
      (params : Outcome FormMap) (s : S) (v : A)
      → ((p : SafeJsonParser J) → Ensures P (parser p))
      → (run_safe lib client call parser params s).0 ≡ of_value v
      → P v
  unfolding run_safe
  run_safe-Ensures call parser (throw e) s v all h =
      cc (((try_execute-IsSettled (throw e) call.operation).1 v).1 h)
  run_safe-Ensures call parser (ok params) s v all h =
      let answer = (client.send call.method call.path params s).0 in
      ensured v (bind-Ensures answer (λ r. read_safe_answer-Ensures call parser r all)) (
        ((try_execute-IsSettled (answer >>= read_safe_answer lib client call parser)
              call.operation).1
            v).1
          h)
