-- ===== src/Promises.antt =====
-- The class Promise of include/tradier/common/async.hpp, with executeAsync and waitWithTimeout. The
-- tasks of then and catch_ run once the future of their promise is ready; from its test of the weak
-- pointer on a task holds the next promise, so each task is one step. `S` is the state of the world.
pub mod Chains
use libtradier.Base.{Bool, true, false, not, Option, none, some, if◌then◌else◌}
use libtradier.Text.{Text, txt}
use libtradier.Errors.{ApiError, api_error, Exception, what, Outcome, ok, throw, ◌>>=◌}
use libtradier.ApiResult.{
  ApiResult, of_value, of_error, is_success, value_of, error_of, internal_error,
}

-- What a future that is ready holds: a result, or the error of a promise that was destroyed first
pub data Settled (T : Type 0) : Type 0 where
  result : ApiResult T → Settled T
  broken : Settled T

-- `owned`: there is a Promise that holds the std::promise.
pub record Cell (T : Type 0) : Type 0 where
  pub owned : Bool
  pub content : Option (Settled T)

module _ {T : Type 0} where
  -- Promise()
  unfoldable pub new_promise : Cell T
  new_promise = record { owned = true; content = none }

  unfoldable pub or_result : ApiResult T → Option (Settled T) → Option (Settled T)
  or_result r none = some (result r)
  or_result r (some settled) = some settled

  -- set_value, where a future_error is ignored
  unfoldable pub set_value : ApiResult T → Cell T → Cell T
  unfolding or_result
  set_value r cell = record cell { content = or_result r cell.content }

  unfoldable pub resolve : T → Cell T → Cell T
  unfolding set_value
  resolve value cell = if cell.owned then set_value (of_value value) cell else cell

  unfoldable pub reject : ApiError → Cell T → Cell T
  unfolding set_value
  reject error cell = if cell.owned then set_value (of_error error) cell else cell

  or_broken : Option (Settled T) → Option (Settled T)
  or_broken none = some broken
  or_broken (some settled) = some settled

  -- The destructor of the last Promise that holds it
  unfoldable pub release : Cell T → Cell T
  unfolding or_broken
  release cell = record { owned = false; content = or_broken cell.content }

  -- waitWithTimeout, of a future that is ready in time or not
  unfoldable pub wait_with_timeout : Option (Outcome (ApiResult T)) → Outcome (ApiResult T)
  unfolding internal_error
  wait_with_timeout none = ok (internal_error (txt "Operation timed out"))
  wait_with_timeout (some outcome) = outcome

-- ApiError(0, e.what())
abbrev pub error_from : Exception → ApiError
error_from e = api_error 0 (what e)

module _ {U S : Type 0} where
  -- The result that is put into the next promise
  abbrev pub copied : Outcome (ApiResult U) × S → Outcome (ApiResult U) × S
  copied (throw e, s) = (throw e, s)
  copied (ok next, s) = (
    (if is_success next
        then value_of next >>= (λ v. ok (of_value v))
        else error_of next >>= (λ e. ok (of_error e))),
    s,
  )

  -- The catch clause of the task of then
  abbrev pub settled_answer : Outcome (ApiResult U) × S → ApiResult U × S
  settled_answer (ok next, s) = (next, s)
  settled_answer (throw e, s) = (of_error (error_from e), s)

-- `broken_text` is what() of the error that get() throws then.
module _ {T U S : Type 0} (broken_text : Text) (func : T → S → Outcome (ApiResult U) × S) where
  unfoldable pub on_value : Outcome T → S → Outcome (ApiResult U) × S
  on_value (throw e) s = (throw e, s)
  on_value (ok v) s = copied (func v s)

  -- The result for the next promise, or what its calculation throws
  unfoldable pub next_result : ApiResult T → S → Outcome (ApiResult U) × S
  unfolding on_value
  next_result r s =
      if is_success r then on_value (value_of r) s else (error_of r >>= (λ e. ok (of_error e)), s)

  -- The task of then
  unfoldable pub then_task : Settled T → Cell U → S → Cell U × S
  unfolding next_result set_value
  then_task broken next s =
      if next.owned
      then (set_value (of_error (error_from (Exception.standard broken_text))) next, s)
      else (next, s)
  then_task (result r) next s =
      let (answer, s') = settled_answer (next_result r s) in
      if next.owned then (set_value answer next, s') else (next, s)

module _ {T S : Type 0} (broken_text : Text)
    (error_handler : ApiError → S → Outcome (Unit {0}) × S) where
  abbrev handled : ApiError → Cell T → Outcome (Unit {0}) × S → Outcome (Unit {0}) × Cell T × S
  handled error next (throw e, s) = (throw e, next, s)
  handled error next (ok done, s) =
      (ok tt, (if next.owned then set_value (of_error error) next else next), s)

  -- The catch clause, which calls the handler as well
  unfoldable pub catch_exception : Exception → Cell T → S → Outcome (Unit {0}) × Cell T × S
  unfolding set_value
  catch_exception e next s = handled (error_from e) next (error_handler (error_from e) s)

  after_handler : ApiResult T → Cell T → Outcome (Unit {0}) × S → Outcome (Unit {0}) × Cell T × S
  unfolding catch_exception set_value
  after_handler r next (throw e, s) = catch_exception e next s
  after_handler r next (ok done, s) = (ok tt, set_value r next, s)

  on_error : ApiResult T → Cell T → Outcome ApiError → S → Outcome (Unit {0}) × Cell T × S
  unfolding after_handler
  on_error r next (throw e) s = catch_exception e next s
  on_error r next (ok error) s = after_handler r next (error_handler error s)

  -- The task of catch_; what the handler throws in the catch clause leaves the task.
  unfoldable pub catch_task : Settled T → Cell T → S → Outcome (Unit {0}) × Cell T × S
  unfolding on_error catch_exception set_value
  catch_task broken next s = catch_exception (Exception.standard broken_text) next s
  catch_task (result r) next s =
      if not next.owned
      then (ok tt, next, s)
      else if is_success r
      then (ok tt, set_value r next, s)
      else on_error r next (error_of r) s

module _ {T S : Type 0} (callback : ApiResult T → S → Outcome (Unit {0}) × S) where
  abbrev called_back : Outcome (Unit {0}) × S → Outcome (Unit {0}) × S
  called_back (ok done, s) = (ok tt, s)
  called_back (throw e, s) = callback (internal_error (what e)) s

  -- The task of executeAsync, from what syncFunc comes to
  unfoldable pub execute_async : Outcome (ApiResult T) × S → Outcome (Unit {0}) × S
  unfolding internal_error
  execute_async (ok r, s) = called_back (callback r s)
  execute_async (throw e, s) = callback (internal_error (what e)) s
