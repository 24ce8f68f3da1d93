-- ===== src/Tests/Simd.antt =====
-- src/simd/streaming_simd.cpp with texts that std::stod and std::from_chars read differently, and with a
-- trade and a quote.
use libtradier.Base.{
  ℕ, ◌%◌, ◌≡◌, refl, true, false, List, [], ◌∷◌, Option, none, some, if◌then◌else◌, All, replicate,
  inr,
}
use libtradier.Text.{Text, txt, text_eq}
use libtradier.Int.{ℤ}
use libtradier.Errors.{Exception, ok, throw}
use libtradier.Service.{to_option}
use libtradier.Streaming.Events.{TradeEvent, QuoteEvent, Conversions, read_trade, read_quote}
use libtradier.Streaming.Messages.{Handler}
use libtradier.Simd.{
  Target, scalar_doubles, avx2_doubles, bulk_string_to_double, scalar_events, bulk_process_events,
}
use libtradier.Simd.Doubling.{IsAgreed, bulk_string_to_double-same, avx2_doubles-copies}
use libtradier.Simd.Agreement.{IsLegible, bulk_process_events-same}
use libtradier.Tests.Documents.{Doc, text, number, object, end, field, documents}
use libtradier.Tests.Orders.{numbers}

-- std::stod skips the space in front of a one; std::from_chars does not.
abbrev conversions : Conversions ℕ
conversions = record {
  stod = λ t.
      if text_eq t (txt "1")
      then ok 1
      else if text_eq t (txt " 1")
      then ok 1
      else throw (Exception.standard (txt "stod"));
  truncate = λ d. ℤ.pos d;
}

abbrev from_chars : Text → Option ℕ
from_chars t = if text_eq t (txt "1") then some 1 else none

abbrev with_avx2 : Target
with_avx2 = record { active = true; avx512 = false; avx2 = true }

bulk_string_to_double-same_example :
    bulk_string_to_double
      (documents (λ t. ok (number 0)))
      conversions
      from_chars
      with_avx2
      (replicate 6 (text (txt "1")))
    ≡ scalar_doubles (documents (λ t. ok (number 0))) conversions (replicate 6 (text (txt "1")))
unfolding text_eq txt to_option
bulk_string_to_double-same_example =
    let agreed : IsAgreed (documents (λ t. ok (number 0))) conversions from_chars (text (txt "1")) =
      λ other string. (txt "1", refl, λ filled. refl) in
    bulk_string_to_double-same (documents (λ t. ok (number 0))) conversions from_chars with_avx2
      (replicate 6 (text (txt "1"))) (agreed, (agreed, (agreed, (agreed, (agreed, (agreed, tt))))))

avx2_doubles-copies_example :
    (scalar_doubles (documents (λ t. ok (number 0))) conversions (replicate 6 (text (txt " 1")))
      ≡ ok (replicate 6 1))
    × (avx2_doubles
          (documents (λ t. ok (number 0)))
          conversions
          from_chars
          (replicate 6 (text (txt " 1")))
        ≡ ok (replicate (6 % 4) 1))
unfolding text_eq txt
avx2_doubles-copies_example =
    avx2_doubles-copies (documents (λ t. ok (number 0))) conversions from_chars (text (txt " 1"))
      (txt " 1") 1 refl refl refl refl refl refl 6

abbrev quote : Doc
quote = object (field (txt "type") (text (txt "quote")) (field (txt "symbol") (text (txt "A")) end))

abbrev trade : Doc
trade = object (field (txt "type") (text (txt "trade")) (field (txt "symbol") (text (txt "B")) end))

-- Each handler keeps the symbols in a list of its own.
abbrev keep_trade : Handler (TradeEvent ℕ) (List Text × List Text)
keep_trade = some (λ v s. (ok tt, (v.symbol ∷ s.0, s.1)))

abbrev keep_quote : Handler (QuoteEvent ℕ) (List Text × List Text)
keep_quote = some (λ v s. (ok tt, (s.0, v.symbol ∷ s.1)))

abbrev events : List Doc
events = quote ∷ trade ∷ quote ∷ trade ∷ quote ∷ trade ∷ quote ∷ trade ∷ trade ∷ []

events-IsLegible :
    All (IsLegible (documents (λ t. ok trade)) numbers conversions keep_trade keep_quote) events
unfolding text_eq txt
events-IsLegible =
    let q : IsLegible (documents (λ t. ok trade)) numbers conversions keep_trade keep_quote quote =
      inr (txt "quote", txt "A", refl, refl, refl) in
    let t : IsLegible (documents (λ t. ok trade)) numbers conversions keep_trade keep_quote trade =
      inr (txt "trade", txt "B", refl, refl, refl) in
    (q, (t, (q, (t, (q, (t, (q, (t, (t, tt)))))))))

bulk_process_events-same_example :
    bulk_process_events
      (documents (λ t. ok trade))
      numbers
      conversions
      keep_trade
      keep_quote
      with_avx2
      events
      ([], [])
    ≡ scalar_events
        (documents (λ t. ok trade))
        numbers
        conversions
        keep_trade
        keep_quote
        events
        ([], [])
bulk_process_events-same_example =
    bulk_process_events-same (documents (λ t. ok trade)) numbers conversions keep_trade keep_quote
      (λ t q s. (refl, refl, refl)) with_avx2 events ([], []) events-IsLegible

-- All nine events are counted, four chunks of a pair and one that is left over.
avx2_test :
    (bulk_process_events
      (documents (λ t. ok trade))
      numbers
      conversions
      keep_trade
      keep_quote
      with_avx2
      events
      ([], [])).0
    ≡ ok 9
unfolding bulk_process_events text_eq txt read_trade read_quote
avx2_test = refl
