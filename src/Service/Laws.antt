-- ===== src/Service/Laws.antt =====
-- What every service function built on tryExecute and parseResponse comes to.
use libtradier.Errors.Ensures.{Ensures, returns, throws, bind-Ensures}
use libtradier.Base.{Bool-cases, inl, inr, sym, ◌∙◌, of_some, ◌≡◌, refl, ap, ◌↔◌, true, some, arith}
use libtradier.Errors.{Exception, Outcome, ok, throw, ◌>>=◌}
use libtradier.ApiResult.{of_value, try_execute}
use libtradier.ApiResult.Laws.{try_execute-IsSettled}
use libtradier.FormMap.{FormMap}
use libtradier.Http.{Response, success}
use libtradier.Service.{Client, Json, Call, parse_response, to_option, read_answer, run, perform}

pub bind-ok {ℓ κ} :
    {A : Type ℓ} {B : Type κ} (m : Outcome A) (f : A → Outcome B) (b : B)
    → ((m >>= f) ≡ ok b) ↔ ((a : A) × (m ≡ ok a) × (f a ≡ ok b))
bind-ok (ok a) f b = (λ h. (a, refl, h), λ (a', e, h). cc)
bind-ok (throw e) f b = (λ h. cc, λ (a', e', h). cc)

module _ {J D S : Type 0} (lib : Json J D) (client : Client S) where
  read_answer-ok {ℓ} :
      {A : Type ℓ} (call : Call) (parser : J → Outcome A) (r : Response) (v : A)
      → (read_answer lib client call parser r ≡ ok v)
        ↔ ((success r ≡ true) × (parse_response lib r parser ≡ some v))
  unfolding read_answer
  read_answer-ok call parser r v = (λ h. ground arith, λ h. ground arith)

  -- What the request that was sent was answered with.
  abbrev pub Answered {ℓ} : {A : Type ℓ} → Call → (J → Outcome A) → S → A → Type ℓ
  Answered call parser s v =
      (params : FormMap) × (response : Response) × (call.prepare ≡ ok params)
      × ((client.send call.method call.path params s).0 ≡ ok response)
      × (success response ≡ true)
      × (parse_response lib response parser ≡ some v)

  -- The same of an answer that is at hand.
  finish-of_value {ℓ} :
      {A : Type ℓ} (call : Call) (parser : J → Outcome A) (answer : Outcome Response) (v : A)
      → (try_execute (answer >>= read_answer lib client call parser) call.operation ≡ of_value v)
        ↔ ((r : Response) × (answer ≡ ok r)
            × (success r ≡ true)
            × (parse_response lib r parser ≡ some v))
  finish-of_value call parser answer v =
      let (there, back) =
        (try_execute-IsSettled (answer >>= read_answer lib client call parser) call.operation).1
          v in
      let (split, join) = bind-ok answer (read_answer lib client call parser) v in
      (
        λ h.
            (let (r, e, k) = split (back h) in
              let (good, parsed) = (read_answer-ok call parser r v).0 k in (r, e, good, parsed)),
        λ (r, e, good, parsed).
            there (join (r, e, (read_answer-ok call parser r v).1 (good, parsed))),
      )

  run-of_value {ℓ} :
      {A : Type ℓ} (call : Call) (parser : J → Outcome A) (s : S) (v : A) (p : Outcome FormMap)
      → call.prepare ≡ p
      → ((run lib client call parser p s).0 ≡ of_value v) ↔ Answered call parser s v
  unfolding run
  run-of_value call parser s v (throw e) h = (
    λ k. cc (((try_execute-IsSettled (throw e) call.operation).1 v).1 k),
    λ (params, r, k, _, _, _). cc,
  )
  run-of_value call parser s v (ok params) h =
      let (there, back) =
        finish-of_value call parser (client.send call.method call.path params s).0 v in
      (
        λ k. (let (r, e, good, parsed) = there k in (params, r, h, e, good, parsed)),
        λ (params', r, k, e, good, parsed). back (r, cc, good, parsed),
      )

  -- A service function returns the value `v` exactly when its checks pass, the client returns an
  -- answer with a 2xx code, and the body is parsed to `v`.
  pub perform-of_value {ℓ} :
      {A : Type ℓ} (call : Call) (parser : J → Outcome A) (s : S) (v : A)
      → ((perform lib client call parser s).0 ≡ of_value v) ↔ Answered call parser s v
  unfolding perform
  perform-of_value call parser s v = run-of_value call parser s v call.prepare refl

  -- A service function whose checks throw sends nothing: the client and the world stay as they were,
  -- and the exception is what the caller gets, as an error.
  pub perform-unprepared {ℓ} :
      {A : Type ℓ} (call : Call) (parser : J → Outcome A) (s : S) (e : Exception)
      → call.prepare ≡ throw e
      → perform lib client call parser s ≡ (try_execute (throw e) call.operation, s)
  unfolding perform
  perform-unprepared call parser s e h = ap (λ p. run lib client call parser p s) h

module _ {J D : Type 0} (lib : Json J D) where
  to_option-Ensures :
      {A : Type 0} {P : A → Type 0} {o : Outcome A} (v : A)
      → Ensures P o
      → to_option o ≡ some v
      → P v
  unfolding to_option
  to_option-Ensures {P} v (returns {v = u} p) h = (let e : u ≡ v = of_some h in rw (← e) p)
  to_option-Ensures v throws h = cc

  -- What a parser ensures of its values holds of what parseResponse returns.
  pub parse_response-Ensures :
      {A : Type 0} {P : A → Type 0} (r : Response) (parser : J → Outcome A) (v : A)
      → ((json : J) → Ensures P (parser json))
      → parse_response lib r parser ≡ some v
      → P v
  unfolding parse_response
  parse_response-Ensures r parser v ensures h = elim (Bool-cases (success r)) [
    | inl good ↦
        to_option-Ensures v (bind-Ensures (lib.parse r.body) ensures) (sym (rw good refl) ∙ h)
    | inr bad ↦ ground arith
  ]
