-- ===== src/Market/Laws.antt =====
-- What the functions of src/market.cpp on quotes return, from the answer of the server on.
use libtradier.Base.{
  ◌++◌, if◌then◌else◌, ◌≡◌, refl, sym, ◌∙◌, ap, ◌↔◌, Bool, true, false, List, [], ◌∷◌, some,
  of_some, is_empty,
}
use libtradier.Text.{Text, txt, text_lt, text_eq}
use libtradier.Errors.{of_ok, ApiError, Outcome, ok, throw, ◌>>=◌}
use libtradier.ApiResult.{
  ApiResult, of_value, of_error, validation_error, and_then, catch_all, http_error, of_status,
}
use mathlib.Core.List.{append_assoc}
use libtradier.FormMap.{FormMap, put}
use libtradier.Query.{joined, joined_loop}
use libtradier.Http.{Method, Response, success}
use libtradier.Validation.{Doubles}
use libtradier.Service.{Client, Json, Call, parse_response, to_option, run, read_answer, perform}
use libtradier.Service.Laws.{bind-ok, perform-of_value}
use libtradier.Dates.{Calendar}
use libtradier.ApiResult.Laws.{IsSettled, with_value, with_error, try_execute-IsSettled}
use libtradier.Market.Items.{Listed, items_under-Listed}
use libtradier.Market.Quotes.{Quote, parse_quote, parse_quotes}
use libtradier.Market.Requests.{quotes_form, prepare_quotes}
use libtradier.Market.Calls.{get_quotes_call}
use libtradier.Market.Operations.{get_quotes, get_quote, first_quote}

of_value_inj {ℓ} : {A : Type ℓ} {u v : A} → of_value u ≡ of_value v → u ≡ v
of_value_inj h = of_some (ap (λ (r : ApiResult _). r.value) h)

first_inj {ℓ} : {A : Type ℓ} {x y : A} {xs ys : List A} → x ∷ xs ≡ y ∷ ys → x ≡ y
first_inj h = cc

to_option-some {ℓ} : {A : Type ℓ} (o : Outcome A) (v : A) → (to_option o ≡ some v) ↔ (o ≡ ok v)
unfolding to_option
to_option-some (ok u) v = (λ h. ap ok (of_some h), λ h. cc)
to_option-some (throw e) v = (λ h. cc, λ h. cc)

-- The symbols with a comma between each two.
unfoldable pub with_commas : List Text → Text
with_commas [] = []
with_commas (symbol ∷ []) = symbol
with_commas (symbol ∷ next ∷ symbols) = symbol ++ b',' ∷ with_commas (next ∷ symbols)

-- What getQuotes has to ask for.
abbrev pub asked_quotes : List Text → Bool → FormMap
asked_quotes symbols greeks =
    (txt "greeks", if greeks then txt "true" else txt "false")
    ∷ (txt "symbols", with_commas symbols)
    ∷ []

joined_loop-later :
    (text : Text) (symbol : Text) (symbols : List Text)
    → joined_loop b',' false text (symbol ∷ symbols) ≡ text ++ b',' ∷ with_commas (symbol ∷ symbols)
unfolding joined_loop with_commas
joined_loop-later text symbol [] = append_assoc text (b',' ∷ []) symbol
joined_loop-later text symbol (next ∷ symbols) =
    joined_loop-later ((text ++ b',' ∷ []) ++ symbol) next symbols
    ∙ append_assoc (text ++ b',' ∷ []) symbol _
    ∙ append_assoc text (b',' ∷ []) _

joined-with_commas : (symbols : List Text) → joined b',' symbols ≡ with_commas symbols
unfolding joined joined_loop with_commas
joined-with_commas [] = refl
joined-with_commas (symbol ∷ []) = refl
joined-with_commas (symbol ∷ next ∷ symbols) = joined_loop-later symbol next symbols

quotes_form-asked_quotes :
    (symbols : List Text) (greeks : Bool) → quotes_form symbols greeks ≡ asked_quotes symbols greeks
unfolding quotes_form put text_lt text_eq txt
quotes_form-asked_quotes symbols greeks = rw (joined-with_commas symbols) refl

prepare_quotes-ok :
    (symbols : List Text) (greeks : Bool) (form : FormMap)
    → (prepare_quotes symbols greeks ≡ ok form)
      ↔ ((is_empty symbols ≡ false) × (form ≡ asked_quotes symbols greeks))
unfolding prepare_quotes
prepare_quotes-ok [] greeks form = (λ h. cc, λ h. cc)
prepare_quotes-ok (symbol ∷ symbols) greeks form = (
  λ h. (refl, sym (of_ok h) ∙ quotes_form-asked_quotes (symbol ∷ symbols) greeks),
  λ (_, e). ap ok (quotes_form-asked_quotes (symbol ∷ symbols) greeks ∙ sym e),
)

module _ {J D : Type 0} (lib : Json J D) where
  parse_response-some :
      {A : Type 0} (r : Response) (parser : J → Outcome A) (v : A)
      → success r ≡ true
      → (parse_response lib r parser ≡ some v)
        ↔ ((json : J) × (lib.parse r.body ≡ ok json) × (parser json ≡ ok v))
  unfolding parse_response
  parse_response-some r parser v good =
      let (there, back) = bind-ok (lib.parse r.body) parser v in
      let (split, join) = to_option-some (lib.parse r.body >>= parser) v in
      rw good (λ h. there (split h), λ h. join (back h))

module _ {J D Tm S : Type 0} (lib : Json J D) (doubles : Doubles D) (calendar : Calendar Tm)
    (client : Client S) where
  -- What andThen makes of the quotes: the first one, or an error
  abbrev pub First : Text → ApiResult (List (Quote D)) → ApiResult (Quote D) → Type 0
  First symbol quotes first =
      ((quote : Quote D)
        → (first ≡ of_value quote)
          ↔ ((others : List (Quote D)) × (quotes ≡ of_value (quote ∷ others))))
      × (quotes ≡ of_value [] → (e : ApiError) × (first ≡ of_error e) × (e.status_code ≡ 404))
      × ((e : ApiError) → quotes ≡ of_error e → first ≡ of_error e)

  and_then-First :
      (symbol : Text) (quotes : ApiResult (List (Quote D)))
      → IsSettled quotes
      → First symbol quotes (and_then quotes (first_quote lib doubles calendar client symbol))
  unfolding and_then first_quote catch_all http_error of_status
  and_then-First symbol quotes (with_error e h) =
      rw h (λ q. (λ k. cc, λ (others, k). cc), λ k. cc, λ e' k. cc)
  and_then-First symbol quotes (with_value [] h) =
      rw h (λ q. (λ k. cc, λ (others, k). cc), λ k. (_, refl, refl), λ e' k. cc)
  and_then-First symbol quotes (with_value (q ∷ qs) h) = rw h (
    λ q'. (
      λ k. (qs, ap (λ x. of_value (x ∷ qs)) (of_value_inj k)),
      λ (others, k). ap of_value (first_inj (of_value_inj k)),
    ),
    λ k. cc,
    λ e' k. cc,
  )

  run-IsSettled :
      {A : Type 0} (call : Call) (parser : J → Outcome A) (params : Outcome FormMap) (s : S)
      → IsSettled (run lib client call parser params s).0
  unfolding run
  run-IsSettled call parser (throw e) s = (try_execute-IsSettled (throw e) call.operation).0
  run-IsSettled call parser (ok params) s =
      (try_execute-IsSettled
        ((client.send call.method call.path params s).0 >>= read_answer lib client call parser)
        call.operation).0

  get_quotes-IsSettled :
      (symbols : List Text) (greeks : Bool) (s : S)
      → IsSettled (get_quotes lib doubles calendar client symbols greeks s).0
  unfolding get_quotes perform
  get_quotes-IsSettled symbols greeks s =
      run-IsSettled (get_quotes_call symbols greeks) (parse_quotes lib doubles calendar)
        (get_quotes_call symbols greeks).prepare s

  -- getQuote refuses an empty symbol and sends nothing; otherwise it does what getQuotes does with the
  -- one symbol, and returns a quote exactly if that returns a list with this quote at its front, an
  -- error with code 404 if the list is empty, and the same error if it fails.
  pub get_quote-First :
      (symbol : Text) (greeks : Bool) (s : S)
      → let (first, s') = get_quote lib doubles calendar client symbol greeks s in
        let (quotes, s'') = get_quotes lib doubles calendar client (symbol ∷ []) greeks s in
        (is_empty symbol ≡ true
          → (first ≡ validation_error (txt "Symbol cannot be empty")) × (s' ≡ s))
        × (is_empty symbol ≡ false → First symbol quotes first × (s' ≡ s''))
  unfolding get_quote
  get_quote-First [] greeks s = (λ h. (refl, refl), λ h. cc)
  get_quote-First (c ∷ symbol) greeks s = (
    λ h. cc,
    λ h. (
      and_then-First (c ∷ symbol)
          (get_quotes lib doubles calendar client ((c ∷ symbol) ∷ []) greeks s).0
          (get_quotes-IsSettled ((c ∷ symbol) ∷ []) greeks s),
      refl,
    ),
  )

  -- What the server answered getQuotes with
  abbrev pub Quoted : List Text → Bool → S → List (Quote D) → Type 0
  Quoted symbols greeks s quotes =
      (is_empty symbols ≡ false)
      × (response : Response) × (json : J) × ((client.send Method.get (txt "/markets/quotes")
            (asked_quotes symbols greeks) s).0
          ≡ ok response)
      × (success response ≡ true)
      × (lib.parse response.body ≡ ok json)
      × Listed lib (txt "quotes") (txt "quote") (parse_quote lib doubles calendar) json quotes

  -- getQuotes returns a list of quotes exactly if there is a symbol, a GET of /markets/quotes with the
  -- symbols, a comma between each two, and the flag is answered with a 2xx code, the body is JSON, and
  -- the quotes are those that it holds under quotes and quote: the elements of an array that are not null, in their order, each
  -- parsed, or a single object; none if they are not there.
  pub get_quotes-Listed :
      (symbols : List Text) (greeks : Bool) (s : S) (quotes : List (Quote D))
      → ((get_quotes lib doubles calendar client symbols greeks s).0 ≡ of_value quotes)
        ↔ Quoted symbols greeks s quotes
  unfolding get_quotes get_quotes_call parse_quotes
  get_quotes-Listed symbols greeks s quotes =
      let (there, back) =
        perform-of_value lib client (get_quotes_call symbols greeks)
          (parse_quotes lib doubles calendar) s quotes in
      (
        λ h.
            (let (form, r, prepared, sent, good, parsed) = there h in
              let (some_there, e) = (prepare_quotes-ok symbols greeks form).0 prepared in
              let (json, read, listed) =
                (parse_response-some lib r (parse_quotes lib doubles calendar) quotes good).0
                  parsed in
              (
                some_there,
                r,
                json,
                sym (ap (λ f. (client.send Method.get (txt "/markets/quotes") f s).0) e) ∙ sent,
                good,
                read,
                (items_under-Listed lib (txt "quotes") (txt "quote")
                      (parse_quote lib doubles calendar) json quotes).0
                    listed,
              )),
        λ (some_there, r, json, sent, good, read, listed). back (
          asked_quotes symbols greeks,
          r,
          (prepare_quotes-ok symbols greeks (asked_quotes symbols greeks)).1 (some_there, refl),
          sent,
          good,
          (parse_response-some lib r (parse_quotes lib doubles calendar) quotes good).1 (
            json,
            read,
            (items_under-Listed lib (txt "quotes") (txt "quote") (parse_quote lib doubles calendar)
                  json quotes).1
                listed,
          ),
        ),
      )
