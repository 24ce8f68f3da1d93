-- ===== src/Promises/Chains.antt =====
-- Two calls of then in a row, of the class Promise of include/tradier/common/async.hpp.
use libtradier.Base.{◌≡◌, refl, Bool, true, false, Option, none, some}
use libtradier.Text.{Text}
use libtradier.Errors.{ApiError, Exception, Outcome, ok, throw}
use libtradier.ApiResult.{ApiResult, of_value, of_error, is_success, value_of, error_of}
use libtradier.Promises.{
  Settled, result, Cell, new_promise, set_value, release, error_from, copied, settled_answer,
  on_value, or_result, next_result, then_task,
}

-- A result has a value or an error.
pub data Final (T : Type 0) : Type 0 where
  obtained : T → Final T
  missed : ApiError → Final T

abbrev pub to_result : {T : Type 0} → Final T → ApiResult T
to_result (obtained v) = of_value v
to_result (missed e) = of_error e

abbrev pub kept_or_released : {T : Type 0} → Bool → Cell T
kept_or_released true = new_promise
kept_or_released false = release new_promise

module _ {S : Type 0} where
  abbrev lifted : {U : Type 0} → Outcome (Final U) × S → Outcome (ApiResult U) × S
  lifted (ok y, s) = (ok (to_result y), s)
  lifted (throw e, s) = (throw e, s)

  abbrev pub lift :
      {T U : Type 0} → (T → S → Outcome (Final U) × S) → T → S → Outcome (ApiResult U) × S
  lift f v s = lifted (f v s)

  abbrev caught : {U : Type 0} → Outcome (Final U) × S → Final U × S
  caught (ok y, s) = (y, s)
  caught (throw e, s) = (missed (error_from e), s)

  -- The error is passed on; a value goes to the function, and what that throws becomes an error.
  abbrev pub bind : {T U : Type 0} → (T → S → Outcome (Final U) × S) → Final T → S → Final U × S
  bind f (missed e) s = (missed e, s)
  bind f (obtained v) s = caught (f v s)

  module _ {T U V : Type 0} (broken_text : Text) (f : T → S → Outcome (Final U) × S)
      (g : U → S → Outcome (Final V) × S) where
    abbrev when_ready : Option (Settled U) → S → Cell V × S
    when_ready none s = (new_promise, s)
    when_ready (some settled) s = then_task broken_text (lift g) settled new_promise s

    -- first.then(f).then(g) on a result that is there; `kept` says whether the promise in the middle
    -- still exists when the task of the first then runs. The promise at the end does.
    abbrev pub then_then : Bool → Final T → S → Cell V × S
    then_then kept x s =
        let (middle, s') =
          then_task broken_text (lift f) (result (to_result x)) (kept_or_released kept) s in
        when_ready middle.content s'

  copied-lifted :
      {U : Type 0} (o : Outcome (Final U) × S)
      → settled_answer (copied (lifted o)) ≡ (to_result (caught o).0, (caught o).1)
  unfolding is_success value_of error_of
  copied-lifted (ok (obtained v), s) = refl
  copied-lifted (ok (missed e), s) = refl
  copied-lifted (throw e, s) = refl

  then_task-new :
      {T U : Type 0} (broken_text : Text) (f : T → S → Outcome (Final U) × S) (x : Final T) (s : S)
      → then_task broken_text (lift f) (result (to_result x)) new_promise s ≡ (
        record { owned = true; content = some (result (to_result (bind f x s).0)) },
        (bind f x s).1,
      )
  unfolding then_task next_result on_value set_value or_result new_promise is_success value_of
      error_of
  then_task-new broken_text f (missed e) s = refl
  then_task-new broken_text f (obtained v) s =
      let outcome = copied-lifted (f v s) in
      λ i. (record { owned = true; content = some (result (outcome i).0) }, (outcome i).1)

  then_then-released :
      {T U V : Type 0} (broken_text : Text) (f : T → S → Outcome (Final U) × S)
      (g : U → S → Outcome (Final V) × S) (x : Final T) (s : S)
      → then_then broken_text f g false x s ≡ (
        record {
          owned = true;
          content = some (result (of_error (error_from (Exception.standard broken_text))));
        },
        s,
      )
  unfolding then_task new_promise release set_value or_result
  then_then-released broken_text f g x s = refl

  -- While the promise in the middle exists, a promise of p.then(f).then(g) gets what f and g make of the
  -- result of p, one after the other, where an error is passed on and what f or g throws becomes an
  -- error. If the promise in the middle, a temporary object, is destroyed before the task of the first
  -- then runs, neither f nor g is called, and the last promise gets the error of a broken promise,
  -- whatever the result of p is.
  pub then_then-Chained :
      {T U V : Type 0} (broken_text : Text) (f : T → S → Outcome (Final U) × S)
      (g : U → S → Outcome (Final V) × S) (x : Final T) (s : S)
      → let (y, s') = bind f x s in
        (then_then broken_text f g true x s ≡ (
          record { owned = true; content = some (result (to_result (bind g y s').0)) },
          (bind g y s').1,
        ))
        × (then_then broken_text f g false x s ≡ (
          record {
            owned = true;
            content = some (result (of_error (error_from (Exception.standard broken_text))));
          },
          s,
        ))
  then_then-Chained broken_text f g x s = (
    rw (then_task-new broken_text f x s)
        (then_task-new broken_text g (bind f x s).0 (bind f x s).1),
    then_then-released broken_text f g x s,
  )
