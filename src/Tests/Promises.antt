-- ===== src/Tests/Promises.antt =====
-- include/tradier/common/async.hpp: a promise with a value, and two functions, of which the second throws.
use libtradier.Base.{ℕ, ◌+◌, ◌≡◌, true, false, List, [], ◌∷◌, some}
use libtradier.Text.{txt}
use libtradier.Errors.{Exception, Outcome, ok, throw}
use libtradier.ApiResult.{of_error}
use libtradier.Promises.{result, error_from}
use libtradier.Promises.Chains.{Final, obtained, to_result, bind, then_then, then_then-Chained}

abbrev double : ℕ → List ℕ → Outcome (Final ℕ) × List ℕ
double n seen = (ok (obtained (n + n)), n ∷ seen)

abbrev refuse : ℕ → List ℕ → Outcome (Final ℕ) × List ℕ
refuse n seen = (throw (Exception.standard (txt "no")), n ∷ seen)

then_then-Chained_example :
    let (y, seen) = bind double (obtained 4) [] in
    (then_then (txt "Broken promise") double refuse true (obtained 4) [] ≡ (
      record { owned = true; content = some (result (to_result (bind refuse y seen).0)) },
      (bind refuse y seen).1,
    ))
    × (then_then (txt "Broken promise") double refuse false (obtained 4) [] ≡ (
      record {
        owned = true;
        content = some (result (of_error (error_from (Exception.standard (txt "Broken promise")))));
      },
      [],
    ))
then_then-Chained_example = then_then-Chained (txt "Broken promise") double refuse (obtained 4) []
