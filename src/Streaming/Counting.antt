-- ===== src/Streaming/Counting.antt =====
-- The statistics of handleMessage of src/streaming.cpp.
use libtradier.Base.{ℕ, ◌≡◌, ◌≢◌, refl, ◌↔◌, ◌⊎◌, inl, inr, ◌++◌, Option, none, some}
use libtradier.Int.{next64}
use libtradier.Text.{Text}
use libtradier.Errors.{what, Outcome, ok, throw}
use libtradier.Service.{Json}
use libtradier.Validation.{Doubles}
use libtradier.Streaming.Events.{Conversions}
use libtradier.Streaming.Messages.{
  Handlers, Filters, StreamStatistics, report, rescue, admitted, process_admitted, process_event,
  process_message, count_message, handle_message,
}

module _ {J D S : Type 0} (lib : Json J D) (doubles : Doubles D) (conversions : Conversions D)
    (handlers : Handlers D S) (filters : Filters) where
  -- The error handler does not throw.
  abbrev pub IsQuiet : Type 0
  IsQuiet = (message : Text) (s : S) → (report handlers.error message s).0 ≡ ok tt

  rescue-quiet :
      (label : Text) (r : Outcome (Unit {0}) × S)
      → IsQuiet
      → (rescue label handlers.error r).0 ≡ ok tt
  unfolding rescue
  rescue-quiet label (ok done, s) quiet = refl
  rescue-quiet label (throw e, s) quiet = quiet (label ++ what e) s

  -- A document whose type, symbol and exchange can be read.
  abbrev pub IsReadable : Outcome J → Type 0
  IsReadable document =
      (json : J) × (kept : Option (Text × Text)) × (document ≡ ok json)
      × (admitted lib filters json ≡ ok kept)

  process_admitted-ok :
      (json : J) (o : Outcome (Option (Text × Text))) (s : S)
      → IsQuiet
      → ((process_admitted lib doubles conversions handlers json o s).0 ≡ ok tt)
        ↔ ((kept : Option (Text × Text)) × (o ≡ ok kept))
  unfolding process_admitted
  process_admitted-ok json (ok none) s quiet = (λ h. (none, refl), λ h. refl)
  process_admitted-ok json (ok (some (type, symbol))) s quiet =
      (λ h. (some (type, symbol), refl), λ h. rescue-quiet _ _ quiet)
  process_admitted-ok json (throw e) s quiet = (λ h. cc, λ (kept, e'). cc)

  process_message-ok :
      (o : Outcome J) (s : S)
      → IsQuiet
      → ((process_message lib doubles conversions handlers filters o s).0 ≡ ok tt) ↔ IsReadable o
  unfolding process_message process_event
  process_message-ok (ok json) s quiet =
      let (there, back) = process_admitted-ok json (admitted lib filters json) s quiet in
      (
        λ h. (let (kept, e) = there h in (json, kept, refl, e)),
        λ (json', kept, e, k). back (kept, cc),
      )
  process_message-ok (throw e) s quiet = (λ h. cc, λ (json, kept, h, k). cc)

  count_message-Counted :
      (stats : StreamStatistics) (r : Outcome (Unit {0}) × S)
      → IsQuiet
      → let (outcome, stats', s) = count_message lib doubles conversions handlers stats r in
        (outcome ≡ ok tt)
        × (stats'.messages_received ≡ stats.messages_received)
        × (stats'.last_message ≡ stats.last_message)
        × (((r.0 ≡ ok tt)
              × (stats'.messages_processed ≡ next64 stats.messages_processed)
              × (stats'.errors ≡ stats.errors))
            ⊎ ((r.0 ≢ ok tt)
                × (stats'.messages_processed ≡ stats.messages_processed)
                × (stats'.errors ≡ next64 stats.errors)))
  unfolding count_message
  count_message-Counted stats (ok done, s) quiet = (refl, refl, refl, inl (refl, refl, refl))
  count_message-Counted stats (throw e, s) quiet =
      (quiet _ s, refl, refl, inr ((λ h. cc), refl, refl))

  -- If the error handler does not throw, then handleMessage does not throw, counts every message once
  -- as received and keeps the time, and counts it once as processed, if its text is JSON and its type,
  -- symbol and exchange can be read, and once as an error, if not; what the message's own handler
  -- throws does not matter. The counters wrap at 2^64.
  pub handle_message-Counted :
      (message : Text) (now : ℕ) (stats : StreamStatistics) (s : S)
      → IsQuiet
      → let (outcome, stats', s') =
          handle_message lib doubles conversions handlers filters message now stats s in
        (outcome ≡ ok tt)
        × (stats'.messages_received ≡ next64 stats.messages_received)
        × (stats'.last_message ≡ now)
        × ((IsReadable (lib.parse message)
              × (stats'.messages_processed ≡ next64 stats.messages_processed)
              × (stats'.errors ≡ stats.errors))
            ⊎ (¬ IsReadable (lib.parse message)
                × (stats'.messages_processed ≡ stats.messages_processed)
                × (stats'.errors ≡ next64 stats.errors)))
  unfolding handle_message
  handle_message-Counted message now stats s quiet =
      let r = process_message lib doubles conversions handlers filters (lib.parse message) s in
      let (there, back) = process_message-ok (lib.parse message) s quiet in
      let (fine, received, time, split) =
        count_message-Counted
          (record stats { messages_received = next64 stats.messages_received; last_message = now })
          r quiet in
      (
        fine,
        received,
        time,
        elim split [
          | inl (good, counted, same) ↦ inl (there good, counted, same)
          | inr (bad, counted, same) ↦ inr ((λ h. bad (back h)), counted, same)
        ],
      )
