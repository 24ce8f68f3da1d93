-- ===== src/Trading/Checks.antt =====
-- Which orders the service sends at all.
use libtradier.Base.{◌≡◌, refl, ◌↔◌, true, Option, none, some}
use libtradier.Text.{Text}
use libtradier.Errors.{ApiError, Exception, Outcome, ok, throw, ◌>>◌}
use libtradier.ApiResult.{of_value, of_error, try_execute}
use libtradier.ApiResult.Laws.{catch_all-error}
use libtradier.Http.{Method, Response, success}
use libtradier.FormMap.{FormMap}
use libtradier.Validation.{Doubles, in_context}
use libtradier.Validation.Rules.{
  IsSymbol, IsAccount, IsQuantity, IsPrice, require_valid_symbol-IsSymbol,
  require_valid_account_number-IsAccount, require_valid_quantity-IsQuantity,
  require_valid_price-IsPrice,
}
use libtradier.Service.{Client, Json, parse_response}
use libtradier.Service.Laws.{perform-of_value, perform-unprepared}
use libtradier.Trading.Orders.{OrderRequest, OrderResponse}
use libtradier.Trading.Requests.{check_some, check_request, request_form, build_params, orders_path}
use libtradier.Trading.Parsers.{parse_order_response}
use libtradier.Trading.Operations.{place_order, place_order_call}

abbrev IfSome {ℓ} : {A : Type ℓ} → (A → Type 0) → Option A → Type 0
IfSome P none = Unit
IfSome P (some a) = P a

check_some-IfSome {ℓ} :
    {A : Type ℓ} (check : A → Outcome (Unit {0})) (P : A → Type 0)
    → ((a : A) → (check a ≡ ok tt) ↔ P a)
    → (o : Option A) → (check_some check o ≡ ok tt) ↔ IfSome P o
check_some-IfSome check P h none = (λ _. tt, λ _. refl)
check_some-IfSome check P h (some a) = h a

infixr 5 ◌↔∙◌
◌↔∙◌ {ℓ κ μ} : {A : Type ℓ} {B : Type κ} {C : Type μ} → A ↔ B → B ↔ C → A ↔ C
(f, f') ↔∙ (g, g') = (λ a. g (f a), λ c. f' (g' c))

-- A check after a check.
>>-iff {ℓ} :
    {A : Type ℓ} {P Q : Type 0} (m : Outcome (Unit {0})) (k : Outcome A) (a : A)
    → (m ≡ ok tt) ↔ P
    → (k ≡ ok a) ↔ Q
    → ((m >> k) ≡ ok a) ↔ (P × Q)
>>-iff (ok tt) k a (p, _) (q, q') = (λ h. (p refl, q h), λ (_, y). q' y)
>>-iff (throw e) k a (_, p') _ = (λ h. cc, λ (x, _). cc (p' x))

module _ {D : Type 0} (doubles : Doubles D) where
  -- What buildParams asks of a request.
  abbrev pub IsRequest : OrderRequest D → Type 0
  IsRequest r =
      IsSymbol r.symbol
      × (IsQuantity doubles r.quantity
          × (IfSome (IsPrice doubles) r.price
              × (IfSome (IsPrice doubles) r.stop × IfSome IsSymbol r.option_symbol)))

  check_request-IsRequest : (r : OrderRequest D) → (check_request doubles r ≡ ok tt) ↔ IsRequest r
  unfolding check_request
  check_request-IsRequest r = >>-iff _ _ tt (require_valid_symbol-IsSymbol r.symbol) (
      >>-iff _ _ tt (require_valid_quantity-IsQuantity doubles r.quantity) (
        >>-iff _ _ tt (check_some-IfSome _ _ (require_valid_price-IsPrice doubles) r.price) (
          >>-iff _ _ tt (check_some-IfSome _ _ (require_valid_price-IsPrice doubles) r.stop)
            (check_some-IfSome _ _ require_valid_symbol-IsSymbol r.option_symbol))))

  in_context-ok :
      (context : Text) (m : Outcome (Unit {0})) → (in_context context m ≡ ok tt) ↔ (m ≡ ok tt)
  unfolding in_context
  in_context-ok context (ok tt) = (λ h. refl, λ h. refl)
  in_context-ok context (throw (Exception.validation m)) = (λ h. cc, λ h. cc)
  in_context-ok context (throw _) = (λ h. cc, λ h. cc)

  build_params-eq :
      (r : OrderRequest D) (form : FormMap)
      → (build_params doubles r ≡ ok form) ↔ (IsRequest r × (request_form doubles r ≡ form))
  unfolding build_params
  build_params-eq r form =
      >>-iff _ _ form (in_context-ok _ (check_request doubles r) ↔∙ check_request-IsRequest r)
        (λ h. cc, λ h. cc)

  prepare-eq :
      (account : Text) (r : OrderRequest D) (form : FormMap)
      → ((place_order_call doubles account r).prepare ≡ ok form)
        ↔ (IsAccount account × (IsRequest r × (request_form doubles r ≡ form)))
  unfolding place_order_call
  prepare-eq account r form =
      >>-iff _ _ form (require_valid_account_number-IsAccount account) (build_params-eq r form)

module _ {J D S : Type 0} (doubles : Doubles D) (lib : Json J D) (client : Client S) where
  -- placeOrder returns `v` exactly when the account number has 8 to 20 characters, the request passes
  -- every check of buildParams, the client's answer to a POST of the request's form at
  -- /accounts/<account>/orders has a 2xx code, and the answer's body is parsed to `v`.
  pub place_order-of_value :
      (account : Text) (r : OrderRequest D) (s : S) (v : OrderResponse)
      → ((place_order doubles lib client account r s).0 ≡ of_value v) ↔ (
          IsAccount account
          × IsRequest doubles r
          × ((response : Response) × ((client.send Method.post
                  (orders_path account)
                  (request_form doubles r)
                  s).0
                ≡ ok response)
              × (success response ≡ true)
              × (parse_response lib response (parse_order_response lib) ≡ some v)))
  unfolding place_order place_order_call
  place_order-of_value account r s v =
      let (there, back) =
        perform-of_value lib client (place_order_call doubles account r) (parse_order_response lib)
          s v in
      (
        λ h.
            (let (form, response, prepared, sent, good, parsed) = there h in
              let (a, (q, e)) = (prepare-eq doubles account r form).0 prepared in
              (a, q, (response, rw e sent, good, parsed))),
        λ (a, q, (response, sent, good, parsed)). back (
          request_form doubles r,
          response,
          (prepare-eq doubles account r _).1 (a, (q, refl)),
          sent,
          good,
          parsed,
        ),
      )

  -- An order that does not pass every check is never sent: the client and the world are as before,
  -- and the caller gets an error.
  pub place_order-refused :
      (account : Text) (r : OrderRequest D) (s : S)
      → ¬ (IsAccount account × IsRequest doubles r)
      → ((place_order doubles lib client account r s).1 ≡ s)
        × ((e : ApiError) × ((place_order doubles lib client account r s).0 ≡ of_error e))
  unfolding place_order try_execute
  place_order-refused account r s bad = refuse ((place_order_call doubles account r).prepare) refl
    where
      refuse :
          (p : Outcome FormMap)
          → (place_order_call doubles account r).prepare ≡ p
          → ((place_order doubles lib client account r s).1 ≡ s)
            × ((e : ApiError) × ((place_order doubles lib client account r s).0 ≡ of_error e))
      refuse (ok form) h =
          let (a, (q, _)) = (prepare-eq doubles account r form).0 h in absurd (bad (a, q))
      refuse (throw e) h =
          let (a, k) = catch_all-error _ e in
          rw
            (perform-unprepared lib client (place_order_call doubles account r)
              (parse_order_response lib) s e h)
            (refl, (a, k))
