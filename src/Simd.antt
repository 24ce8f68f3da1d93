-- ===== src/Simd.antt =====
-- src/simd/streaming_simd.cpp: the scalar and the AVX2 versions of bulk_string_to_double and of
-- bulk_process_events, and the dispatcher of include/tradier/simd/simd_traits.hpp. An array with its
-- length is a list; the output array of bulk_string_to_double is the list of what is written to it,
-- and what stands there after a throw is left out. The lines on std::cerr are left out.
pub mod Doubling
pub mod Passes
pub mod Agreement
use libtradier.Base.{
  ℕ, zero, suc, ◌+◌, ◌/◌, Bool, true, false, ◌&&◌, not, List, [], ◌∷◌, ◌++◌, Option, none, some,
  if◌then◌else◌, is_empty, length, take, drop,
}
use libtradier.Text.{Text, txt, text_eq}
use libtradier.Errors.{Outcome, ok, throw, ◌>>=◌}
use libtradier.Service.{Json, to_option}
use libtradier.Validation.{Doubles}
use libtradier.Streaming.Events.{TradeEvent, QuoteEvent, Conversions, read_trade, read_quote}
use libtradier.Streaming.Messages.{Handler, is_set, deliver}

-- What the preprocessor knows: LIBTRADIER_SIMD_ACTIVE, _AVX512_AVAILABLE and _AVX2_AVAILABLE.
pub record Target : Type 0 where
  pub active : Bool
  pub avx512 : Bool
  pub avx2 : Bool

-- simd_dispatcher::dispatch. The AVX-512 versions call another one: of bulk_string_to_double the
-- scalar one, of bulk_process_events that for AVX2.
unfoldable pub simd_dispatch {ℓ} : {A : Type ℓ} → Target → A → A → A → A
simd_dispatch target scalar with_avx2 with_avx512 =
    if target.active
    then (if target.avx512 then with_avx512 else if target.avx2 then with_avx2 else scalar)
    else scalar

abbrev pub appended : {D : Type 0} → Option D → List D → List D
appended none output = output
appended (some d) output = d ∷ output

module _ {D : Type 0} (conversions : Conversions D) where
  -- The body of the try block: the number of a text that is not empty.
  unfoldable pub stod_text : Text → Option D
  unfolding to_option
  stod_text text = if is_empty text then none else to_option (conversions.stod text)

  unfoldable pub caught_text : Outcome Text → Option D
  unfolding stod_text
  caught_text (throw e) = none
  caught_text (ok text) = stod_text text

module _ {J D : Type 0} (lib : Json J D) (conversions : Conversions D) where
  -- One element in the scalar loop, and among those that are left over
  unfoldable pub scalar_number : J → Outcome (Option D)
  unfolding caught_text
  scalar_number json =
      if lib.is_number json
      then lib.get_double json >>= (λ d. ok (some d))
      else ok (if lib.is_string json then caught_text conversions (lib.get_text json) else none)

  unfoldable pub scalar_doubles : List J → Outcome (List D)
  unfolding scalar_number
  scalar_doubles [] = ok []
  scalar_doubles (json ∷ jsons) =
      scalar_number json >>= (λ d. scalar_doubles jsons >>= (λ output. ok (appended d output)))

module _ {J D : Type 0} (lib : Json J D) (from_chars : Text → Option D) where
  -- values[i] and valid[i]; `from_chars` is std::from_chars, with no value where it sets an error.
  unfoldable pub chunk_number : J → Outcome (Option D)
  chunk_number json =
      if lib.is_number json
      then lib.get_double json >>= (λ d. ok (some d))
      else if lib.is_string json
      then lib.get_text json >>= (λ text. ok (if is_empty text then none else from_chars text))
      else ok none

  unfoldable pub chunk_doubles : List J → Outcome (List D)
  unfolding chunk_number
  chunk_doubles [] = ok []
  chunk_doubles (json ∷ jsons) =
      chunk_number json >>= (λ d. chunk_doubles jsons >>= (λ output. ok (appended d output)))

module _ {J D : Type 0} (lib : Json J D) (conversions : Conversions D)
    (from_chars : Text → Option D) where
  -- The loop, once for every full chunk of 4, and the remaining elements
  unfoldable pub double_chunks : ℕ → List J → Outcome (List D)
  unfolding chunk_doubles scalar_doubles
  double_chunks zero jsons = scalar_doubles lib conversions jsons
  double_chunks (suc chunks) jsons =
      chunk_doubles lib from_chars (take 4 jsons)
      >>= (λ output. double_chunks chunks (drop 4 jsons) >>= (λ more. ok (output ++ more)))

  unfoldable pub avx2_doubles : List J → Outcome (List D)
  unfolding double_chunks
  avx2_doubles jsons = double_chunks (length jsons / 4) jsons

  unfoldable pub bulk_string_to_double : Target → List J → Outcome (List D)
  unfolding simd_dispatch scalar_doubles avx2_doubles
  bulk_string_to_double target jsons =
      simd_dispatch target (scalar_doubles lib conversions jsons) (avx2_doubles jsons)
        (scalar_doubles lib conversions jsons)

-- A try block that ends with processed++; the handler's changes to the state stay. Its catch takes what
-- derives from std::exception, as every `Exception` here does; a handler that throws anything else is
-- left out.
unfoldable pub try_event : {S : Type 0} → Outcome (Unit {0}) × S → Bool × S
try_event (ok done, s) = (true, s)
try_event (throw e, s) = (false, s)

abbrev pub count : Bool → ℕ → ℕ
count true processed = processed + 1
count false processed = processed

-- for (...) { ... processed++; }
unfoldable pub for_each : {E S : Type 0} → (E → S → Bool × S) → List E → ℕ → S → ℕ × S
for_each body [] processed s = (processed, s)
for_each body (e ∷ es) processed s =
    let (done, s') = body e s in for_each body es (count done processed) s'

-- The same loop, where the body may throw out of it
unfoldable pub proceed :
    {S : Type 0} → (S → ℕ → Outcome ℕ × S) → ℕ → Outcome Bool × S → Outcome ℕ × S
proceed rest processed (throw e, s) = (throw e, s)
proceed rest processed (ok done, s) = rest s (count done processed)

unfoldable pub step_loop :
    {J S : Type 0} → (J → S → Outcome Bool × S) → List J → S → ℕ → Outcome ℕ × S
unfolding proceed
step_loop body [] s processed = (ok processed, s)
step_loop body (json ∷ jsons) s processed = proceed (step_loop body jsons) processed (body json s)

-- is_trade[i] and is_quote[i], with the type of the event
abbrev pub on : Text → Option Text → Bool
on key none = false
on key (some type) = text_eq type key

module _ {J D : Type 0} (lib : Json J D) where
  unfoldable pub read_head : J → Outcome (Text × Text)
  read_head json = do
    type ← lib.get_text (lib.at json (txt "type"))
    symbol ← lib.text_value json (txt "symbol") (txt "")
    ok (type, symbol)

  -- types[i]; nothing has been handled when the type is not a text.
  unfoldable pub classify : J → Outcome (J × Option Text)
  classify json =
      if lib.contains json (txt "type")
      then lib.get_text (lib.at json (txt "type")) >>= (λ type. ok (json, some type))
      else ok (json, none)

  unfoldable pub classify_all : List J → Outcome (List (J × Option Text))
  unfolding classify
  classify_all [] = ok []
  classify_all (json ∷ jsons) =
      classify json >>= (λ event. classify_all jsons >>= (λ events. ok (event ∷ events)))

module _ {J D S : Type 0} (lib : Json J D) (doubles : Doubles D) (conversions : Conversions D)
    (trade : Handler (TradeEvent D) S) (quote : Handler (QuoteEvent D) S) where
  -- The try block of the scalar version; the symbol has been read before it.
  unfoldable pub scalar_event : J → Text → Text → S → Bool × S
  unfolding try_event deliver
  scalar_event json type symbol s =
      if text_eq type (txt "trade") && is_set trade
      then try_event (deliver (read_trade lib doubles conversions json type symbol) trade s)
      else if text_eq type (txt "quote") && is_set quote
      then try_event (deliver (read_quote lib doubles conversions json type symbol) quote s)
      else (false, s)

  unfoldable pub scalar_headed : J → Outcome (Text × Text) → S → Outcome Bool × S
  unfolding scalar_event
  scalar_headed json (throw e) s = (throw e, s)
  scalar_headed json (ok (type, symbol)) s =
      let (done, s') = scalar_event json type symbol s in (ok done, s')

  unfoldable pub scalar_step : J → S → Outcome Bool × S
  unfolding scalar_headed read_head
  scalar_step json s =
      if not (lib.contains json (txt "type"))
      then (ok false, s)
      else scalar_headed json (read_head lib json) s

  unfoldable pub scalar_events : List J → S → Outcome ℕ × S
  unfolding step_loop scalar_step
  scalar_events jsons s = step_loop scalar_step jsons s 0

  -- The try blocks of the AVX2 version, which read the symbol inside
  unfoldable pub trade_event : J × Option Text → S → Bool × S
  unfolding try_event deliver
  trade_event (json, none) s = (false, s)
  trade_event (json, some type) s =
      if text_eq type (txt "trade") && is_set trade
      then try_event (
          deliver
            (lib.text_value json (txt "symbol") (txt "")
              >>= read_trade lib doubles conversions json type)
            trade s)
      else (false, s)

  unfoldable pub quote_event : J × Option Text → S → Bool × S
  unfolding try_event deliver
  quote_event (json, none) s = (false, s)
  quote_event (json, some type) s =
      if text_eq type (txt "quote") && is_set quote
      then try_event (
          deliver
            (lib.text_value json (txt "symbol") (txt "")
              >>= read_quote lib doubles conversions json type)
            quote s)
      else (false, s)

  unfoldable pub either_event : J × Option Text → S → Bool × S
  unfolding trade_event quote_event
  either_event (json, type) s =
      if on (txt "trade") type && is_set trade
      then trade_event (json, type) s
      else quote_event (json, type) s

  unfoldable pub remaining_typed : Outcome (J × Option Text) → S → Outcome Bool × S
  unfolding either_event
  remaining_typed (throw e) s = (throw e, s)
  remaining_typed (ok event) s = let (done, s') = either_event event s in (ok done, s')

  unfoldable pub remaining_step : J → S → Outcome Bool × S
  unfolding remaining_typed classify
  remaining_step json s = remaining_typed (classify lib json) s

  -- A chunk: its trades, then its quotes. The tests of the handlers stand in the loops.
  unfoldable pub event_chunk :
      (S → ℕ → Outcome ℕ × S) → Outcome (List (J × Option Text)) → S → ℕ → Outcome ℕ × S
  unfolding for_each trade_event quote_event
  event_chunk rest (throw e) s processed = (throw e, s)
  event_chunk rest (ok events) s processed =
      let (traded, s') = for_each trade_event events processed s in
      let (handled, s'') = for_each quote_event events traded s' in rest s'' handled

  unfoldable pub event_chunks : ℕ → List J → S → ℕ → Outcome ℕ × S
  unfolding event_chunk classify_all step_loop remaining_step
  event_chunks zero jsons s processed = step_loop remaining_step jsons s processed
  event_chunks (suc chunks) jsons s processed =
      event_chunk (event_chunks chunks (drop 8 jsons)) (classify_all lib (take 8 jsons)) s processed

  unfoldable pub avx2_events : List J → S → Outcome ℕ × S
  unfolding event_chunks
  avx2_events jsons s = event_chunks (length jsons / 8) jsons s 0

  unfoldable pub bulk_process_events : Target → List J → S → Outcome ℕ × S
  unfolding simd_dispatch scalar_events avx2_events
  bulk_process_events target jsons s =
      simd_dispatch target (scalar_events jsons s) (avx2_events jsons s) (avx2_events jsons s)
