-- ===== src/Simd/Agreement.antt =====
-- The two versions of bulk_process_events of src/simd/streaming_simd.cpp against each other. The
-- AVX2 version handles the trades of a chunk of 8 events before its quotes.
use mathlib.Core.Path.{fun_ext, subst}
use libtradier.Base.{
  ℕ, zero, suc, ◌/◌, ◌≡◌, refl, sym, ap, ◌∙◌, ◌⊎◌, inl, inr, Bool, true, false, ◌&&◌, List, [], ◌∷◌,
  ◌++◌, Option, none, some, if◌then◌else◌, length, take, drop, All, All-take, All-drop,
  take-append-drop, Bool-cases, arith,
}
use libtradier.Text.{Text, txt, text_eq, text_eq_iff}
use libtradier.Errors.{Outcome, ok, throw}
use libtradier.Service.{Json}
use libtradier.Validation.{Doubles}
use libtradier.Streaming.Events.{TradeEvent, QuoteEvent, Conversions}
use libtradier.Streaming.Messages.{Handler, is_set, deliver}
use libtradier.Simd.{
  Target, simd_dispatch, try_event, count, for_each, proceed, step_loop, scalar_event,
  scalar_headed, scalar_step, scalar_events, read_head, trade_event, quote_event, either_event,
  classify, classify_all, remaining_typed, remaining_step, event_chunk, event_chunks, avx2_events,
  bulk_process_events,
}
use libtradier.Simd.Passes.{Commute, IsSplit, for_each-passes}

-- What one handler does and leaves does not depend on whether the other has run.
abbrev pub Independent :
    {D S : Type 0} → Handler (TradeEvent D) S → Handler (QuoteEvent D) S → Type 0
Independent {D} {S} (some h) (some g) =
    (t : TradeEvent D) (q : QuoteEvent D) (s : S)
    → ((h t (g q s).1).0 ≡ (h t s).0)
      × ((g q (h t s).1).0 ≡ (g q s).0)
      × ((h t (g q s).1).1 ≡ (g q (h t s).1).1)
Independent none g = Unit {0}
Independent h none = Unit {0}

has_returned : Outcome (Unit {0}) → Bool
has_returned (ok done) = true
has_returned (throw e) = false

not_both :
    (type : Text) (b c : Bool)
    → (text_eq type (txt "trade") && b) ≡ true
    → (text_eq type (txt "quote") && c) ≡ false
unfolding text_eq txt
not_both type b c h = elim (Bool-cases (text_eq type (txt "quote"))) [
  | inr other ↦ rw other
  | inl same ↦
      let h' =
        subst (λ t. (text_eq t (txt "trade") && b) ≡ true) ((text_eq_iff type (txt "quote")).0 same)
          h in
      cc
]

module _ {S : Type 0} where
  try_event-parts : (r : Outcome (Unit {0}) × S) → try_event r ≡ (has_returned r.0, r.1)
  unfolding try_event has_returned
  try_event-parts (ok done, s) = refl
  try_event-parts (throw e, s) = refl

  Commute-if :
      (b c : Bool) (f g : S → Bool × S)
      → Commute f g
      → Commute (λ s. if b then f s else (false, s)) (λ s. if c then g s else (false, s))
  Commute-if true true f g h s = h s
  Commute-if true false f g h s = (refl, refl, refl)
  Commute-if false c f g h s = (refl, refl, refl)

  ran : ℕ × S → Outcome ℕ × S
  ran (n, s) = (ok n, s)

  answered : Bool × S → Outcome Bool × S
  answered (done, s) = (ok done, s)

  try_event-Commute :
      (f g : S → Outcome (Unit {0}) × S) (s : S)
      → ((f (g s).1).0 ≡ (f s).0) × ((g (f s).1).0 ≡ (g s).0) × ((f (g s).1).1 ≡ (g (f s).1).1)
      → ((try_event (f (try_event (g s)).1)).0 ≡ (try_event (f s)).0)
        × ((try_event (g (try_event (f s)).1)).0 ≡ (try_event (g s)).0)
        × ((try_event (f (try_event (g s)).1)).1 ≡ (try_event (g (try_event (f s)).1)).1)
  try_event-Commute f g s (a, b, c) = simp try_event-parts (ap has_returned a, ap has_returned b, c)

module _ {J S : Type 0} (body : J → S → Outcome Bool × S) where
  proceed-append :
      (xs ys : List J) (n : ℕ) (r : ℕ × S) (o : Outcome Bool × S)
      → ((s : S) (m : ℕ)
          → step_loop body xs s m ≡ ran r
          → step_loop body (xs ++ ys) s m ≡ step_loop body ys r.1 r.0)
      → proceed (step_loop body xs) n o ≡ ran r
      → proceed (step_loop body (xs ++ ys)) n o ≡ step_loop body ys r.1 r.0
  unfolding proceed ran
  proceed-append xs ys n (m, s') (throw e, s) ih h = cc
  proceed-append xs ys n (m, s') (ok done, s) ih h = ih s (count done n) h

  step_loop-append :
      (xs ys : List J) (s : S) (n : ℕ) (r : ℕ × S)
      → step_loop body xs s n ≡ ran r
      → step_loop body (xs ++ ys) s n ≡ step_loop body ys r.1 r.0
  unfolding step_loop ran
  step_loop-append [] ys s n (m, s') h = cc
  step_loop-append (x ∷ xs) ys s n r h =
      proceed-append xs ys n r (body x s) (λ s' m h'. step_loop-append xs ys s' m r h') h

module _ {D S : Type 0} where
  deliver-Commute :
      (o : Outcome (TradeEvent D)) (p : Outcome (QuoteEvent D)) (trade : Handler (TradeEvent D) S)
      (quote : Handler (QuoteEvent D) S)
      → Independent trade quote
      → Commute (λ s. try_event (deliver o trade s)) (λ s. try_event (deliver p quote s))
  unfolding deliver try_event
  deliver-Commute (throw e) p trade quote i s = (refl, refl, refl)
  deliver-Commute (ok t) (throw e) trade quote i s = (refl, refl, refl)
  deliver-Commute (ok t) (ok q) none quote i s = (refl, refl, refl)
  deliver-Commute (ok t) (ok q) (some h) none i s = (refl, refl, refl)
  deliver-Commute (ok t) (ok q) (some h) (some g) i s = try_event-Commute (h t) (g q) s (i t q s)

module _ {J D S : Type 0} (lib : Json J D) (doubles : Doubles D) (conversions : Conversions D)
    (trade : Handler (TradeEvent D) S) (quote : Handler (QuoteEvent D) S) where
  -- The event has no type, or a type and a symbol that can be read.
  abbrev pub IsLegible : J → Type 0
  IsLegible json =
      (lib.contains json (txt "type") ≡ false)
      ⊎ ((type : Text) × (symbol : Text) × (lib.contains json (txt "type") ≡ true)
          × (lib.get_text (lib.at json (txt "type")) ≡ ok type)
          × (lib.text_value json (txt "symbol") (txt "") ≡ ok symbol))

  first : J × Option Text → S → Bool × S
  unfolding trade_event
  first = trade_event lib doubles conversions trade quote

  second : J × Option Text → S → Bool × S
  unfolding quote_event
  second = quote_event lib doubles conversions trade quote

  either : J × Option Text → S → Bool × S
  unfolding either_event
  either = either_event lib doubles conversions trade quote

  event-Commute : (a b : J × Option Text) → Independent trade quote → Commute (first a) (second b)
  unfolding first second
  event-Commute (json, none) b i s = (refl, refl, refl)
  event-Commute (json, some type) (json', none) i s = (refl, refl, refl)
  event-Commute (json, some type) (json', some type') i s =
      Commute-if _ _ _ _ (deliver-Commute _ _ trade quote i) s

  head_of : (json : J) → IsLegible json → J × Option Text
  head_of json (inl h) = (json, none)
  head_of json (inr (type, symbol, typed, e, e')) = (json, some type)

  heads : (jsons : List J) → All IsLegible jsons → List (J × Option Text)
  unfolding head_of
  heads [] h = []
  heads (json ∷ jsons) (h, hs) = head_of json h ∷ heads jsons hs

  classify-head : (json : J) (h : IsLegible json) → classify lib json ≡ ok (head_of json h)
  unfolding classify head_of
  classify-head json (inl h) = rw h
  classify-head json (inr (type, symbol, h, e, e')) = rw (h, e)

  classify_all-heads :
      (jsons : List J) (h : All IsLegible jsons) → classify_all lib jsons ≡ ok (heads jsons h)
  unfolding classify_all heads
  classify_all-heads [] h = refl
  classify_all-heads (json ∷ jsons) (h, hs) = rw (classify-head json h, classify_all-heads jsons hs)

  head-IsSplit : (e : J × Option Text) → IsSplit first second either e
  unfolding first second either
  head-IsSplit (json, none) = inr (fun_ext (λ s. refl), λ s. refl)
  head-IsSplit (json, some type) = elim (Bool-cases (text_eq type (txt "trade") && is_set trade)) [
    | inl h ↦ inl (fun_ext (λ s. rw h), λ s. rw (not_both type (is_set trade) (is_set quote) h))
    | inr h ↦ inr (fun_ext (λ s. rw h), λ s. rw h)
  ]

  scalar_event-either :
      (json : J) (type symbol : Text) (s : S)
      → lib.text_value json (txt "symbol") (txt "") ≡ ok symbol
      → scalar_event lib doubles conversions trade quote json type symbol s
        ≡ either (json, some type) s
  unfolding scalar_event either
  scalar_event-either json type symbol s e =
      elim (Bool-cases (text_eq type (txt "trade") && is_set trade)) [
        | inl h ↦ rw (e, h)
        | inr h ↦ rw (e, h)
      ]

  either-none : (json : J) (s : S) → either (json, none) s ≡ (false, s)
  unfolding either
  either-none json s = refl

  scalar_step-head :
      (json : J) (h : IsLegible json) (s : S)
      → scalar_step lib doubles conversions trade quote json s
        ≡ answered (either (head_of json h) s)
  unfolding scalar_step scalar_headed read_head head_of answered
  scalar_step-head json (inl h) s = rw (h, either-none json s)
  scalar_step-head json (inr (type, symbol, h, e, e')) s =
      rw (h, e, e', scalar_event-either json type symbol s e')

  remaining_step-head :
      (json : J) (h : IsLegible json) (s : S)
      → remaining_step lib doubles conversions trade quote json s
        ≡ answered (either (head_of json h) s)
  unfolding remaining_step remaining_typed answered either
  remaining_step-head json h s = rw (classify-head json h)

  step_loop-heads :
      (body : J → S → Outcome Bool × S)
      → ((json : J) (h : IsLegible json) (s : S)
          → body json s ≡ answered (either (head_of json h) s))
      → (jsons : List J) (h : All IsLegible jsons) (s : S) (n : ℕ)
      → step_loop body jsons s n ≡ ran (for_each either (heads jsons h) n s)
  unfolding step_loop proceed heads for_each ran answered
  step_loop-heads body step [] h s n = refl
  step_loop-heads body step (json ∷ jsons) (h, hs) s n = rw (step json h s) (
      step_loop-heads body step jsons hs (either (head_of json h) s).1
        (count (either (head_of json h) s).0 n))

  heads-IsSplit :
      (jsons : List J) (h : All IsLegible jsons) → All (IsSplit first second either) (heads jsons h)
  unfolding heads
  heads-IsSplit [] h = tt
  heads-IsSplit (json ∷ jsons) (h, hs) = (head-IsSplit (head_of json h), heads-IsSplit jsons hs)

  module _ (independent : Independent trade quote) where
    scalar : List J → S → ℕ → Outcome ℕ × S
    scalar = step_loop (scalar_step lib doubles conversions trade quote)

    chunk-scalar :
        (rest : S → ℕ → Outcome ℕ × S) (xs ys : List J) (h : All IsLegible xs) (s : S) (n : ℕ)
        → ((s : S) (n : ℕ) → rest s n ≡ scalar ys s n)
        → event_chunk lib doubles conversions trade quote rest (classify_all lib xs) s n
          ≡ scalar (xs ++ ys) s n
    unfolding event_chunk scalar first second
    chunk-scalar rest xs ys h s n same =
        let step = scalar_step lib doubles conversions trade quote in
        let r = for_each first (heads xs h) n s in
        let last = for_each second (heads xs h) r.0 r.1 in
        let passes : for_each either (heads xs h) n s ≡ last =
          for_each-passes first second (λ a b. event-Commute a b independent) either (heads xs h) n
            s (heads-IsSplit xs h) in
        rw (classify_all-heads xs h) (
          same last.1 last.0
          ∙ sym (
              step_loop-append step xs ys s n last
                (step_loop-heads step scalar_step-head xs h s n ∙ ap ran passes)))

    chunks-scalar :
        (chunks : ℕ) (jsons : List J) (s : S) (n : ℕ)
        → All IsLegible jsons
        → event_chunks lib doubles conversions trade quote chunks jsons s n ≡ scalar jsons s n
    unfolding event_chunks scalar
    chunks-scalar zero jsons s n h =
        step_loop-heads _ remaining_step-head jsons h s n
        ∙ sym (step_loop-heads _ scalar_step-head jsons h s n)
    chunks-scalar (suc chunks) jsons s n h =
        chunk-scalar _ (take 8 jsons) (drop 8 jsons) (All-take IsLegible 8 jsons h) s n
          (λ s' n'. chunks-scalar chunks (drop 8 jsons) s' n' (All-drop IsLegible 8 jsons h))
        ∙ ap (λ js. scalar js s n) (take-append-drop 8 jsons)

    -- If the type and the symbol of every event that has a type can be read, and neither handler is
    -- influenced by the other, then bulk_process_events counts the same events and leaves the handlers
    -- in the same state on every processor, although the AVX2 version reorders them.
    pub bulk_process_events-same :
        (target : Target) (jsons : List J) (s : S)
        → All IsLegible jsons
        → bulk_process_events lib doubles conversions trade quote target jsons s
          ≡ scalar_events lib doubles conversions trade quote jsons s
    unfolding bulk_process_events simd_dispatch avx2_events scalar_events scalar
    bulk_process_events-same target jsons s h =
        ground (arith, chunks-scalar (length jsons / 8) jsons s 0 h)
