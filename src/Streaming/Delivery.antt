-- ===== src/Streaming/Delivery.antt =====
-- Which events processEvent of src/streaming.cpp hands to a handler.
use libtradier.Base.{
  ℕ, ◌∙◌, ◌≡◌, refl, true, false, Bool, ◌&&◌, ◌++◌, Option, none, some, if◌then◌else◌, arith,
}
use libtradier.Int.{next64}
use libtradier.Text.{Text, txt, text_eq, text_eq_iff}
use libtradier.Errors.{what, Outcome, ok, throw}
use libtradier.Errors.Ensures.{Ensures, returns, throws, Ensures-mono}
use libtradier.Service.{Json}
use libtradier.Validation.{Doubles}
use libtradier.Streaming.Events.{Conversions, read_trade, read_quote, read_summary, read_timesale}
use libtradier.Streaming.Messages.{
  Handler, Handlers, Filters, StreamStatistics, is_set, report, deliver, rescue, admitted, dispatch,
  process_admitted, process_event, process_message, count_message, handle_message,
}
use libtradier.Streaming.Filtering.{
  IsAllowed, Admits, admitted-Ensures, read_trade-Ensures, read_quote-Ensures, read_summary-Ensures,
  read_timesale-Ensures,
}

-- A handler keeps `P`, on the values that are `Good`.
abbrev pub HandlerKeeps : {E S : Type 0} → (S → Type 0) → (E → Type 0) → Handler E S → Type 0
HandlerKeeps {E} {S} P Good h =
    (f : E → S → Outcome (Unit {0}) × S) → h ≡ some f → (v : E) (s : S) → Good v → P s → P (f v s).1

module _ {S : Type 0} (P : S → Type 0) where
  deliver-Keeps :
      {E : Type 0} (Good : E → Type 0) {o : Outcome E} (h : Handler E S) (s : S)
      → Ensures Good o
      → HandlerKeeps P Good h
      → P s
      → P (deliver o h s).1
  unfolding deliver
  deliver-Keeps Good none s (returns p) keeps ps = ps
  deliver-Keeps Good (some f) s (returns {v} p) keeps ps = keeps f refl v s p ps
  deliver-Keeps Good h s throws keeps ps = ps

  report-Keeps :
      (h : Handler Text S) (message : Text) (s : S)
      → HandlerKeeps P (λ m. Unit) h
      → P s
      → P (report h message s).1
  unfolding report
  report-Keeps none message s keeps ps = ps
  report-Keeps (some f) message s keeps ps = keeps f refl message s tt ps

  rescue-Keeps :
      (label : Text) (h : Handler Text S) (r : Outcome (Unit {0}) × S)
      → HandlerKeeps P (λ m. Unit) h
      → P r.1
      → P (rescue label h r).1
  unfolding rescue
  rescue-Keeps label h (ok done, s) keeps ps = ps
  rescue-Keeps label h (throw e, s) keeps ps = report-Keeps h (label ++ what e) s keeps ps

  if-Keeps :
      (b : Bool) (x y : Outcome (Unit {0}) × S)
      → (b ≡ true → P x.1)
      → (b ≡ false → P y.1)
      → P (if b then x else y).1
  if-Keeps true x y h k = h refl
  if-Keeps false x y h k = k refl

-- An event that a message may be turned into: it has the type `type`, and its symbol and the
-- message's exchange pass the filters.
abbrev pub IsGood : {J D : Type 0} → Json J D → Filters → Outcome J → Text → Text → Text → Type 0
IsGood {J} lib filters document kind type symbol =
    (type ≡ kind) × (json : J) × (document ≡ ok json) × IsAllowed lib filters json symbol

module _ {J D S : Type 0} (lib : Json J D) (doubles : Doubles D) (conversions : Conversions D)
    (P : S → Type 0) (handlers : Handlers D S) (filters : Filters) (document : Outcome J) where
  -- Every handler keeps `P`, the handlers of events on those events that the filters let through.
  pub record HandlersKeep : Type 0 where
    pub trade :
        HandlerKeeps P
          (λ v. IsGood lib filters document (txt "trade") v.type v.symbol)
          handlers.trade
    pub quote :
        HandlerKeeps P
          (λ v. IsGood lib filters document (txt "quote") v.type v.symbol)
          handlers.quote
    pub summary :
        HandlerKeeps P
          (λ v. IsGood lib filters document (txt "summary") v.type v.symbol)
          handlers.summary
    pub timesale :
        HandlerKeeps P
          (λ v. IsGood lib filters document (txt "timesale") v.type v.symbol)
          handlers.timesale
    pub error : HandlerKeeps P (λ m. Unit) handlers.error

  branch-Keeps :
      {E : Type 0} (kind type : Text) (Good : E → Type 0) (reads : Outcome E) (h : Handler E S)
      (other : Outcome (Unit {0}) × S) (s : S)
      → (type ≡ kind → Ensures Good reads)
      → HandlerKeeps P Good h
      → P s
      → P other.1
      → P (if text_eq type kind && is_set h then deliver reads h s else other).1
  branch-Keeps kind type Good reads h other s good keeps ps po =
      if-Keeps P (text_eq type kind && is_set h) (deliver reads h s) other
        (λ e. deliver-Keeps P Good h s (good ((text_eq_iff type kind).0 (ground arith))) keeps ps)
        (λ e. po)

  good :
      {json : J} {type symbol : Text} (kind t y : Text)
      → document ≡ ok json
      → IsAllowed lib filters json symbol
      → type ≡ kind
      → (t ≡ type) × (y ≡ symbol)
      → IsGood lib filters document kind t y
  good {json} kind t y parsed allowed same (of_type, of_symbol) =
      (of_type ∙ same, json, parsed, rw of_symbol allowed)

  dispatch-Keeps :
      (json : J) (type symbol : Text) (s : S)
      → HandlersKeep
      → document ≡ ok json
      → IsAllowed lib filters json symbol
      → P s
      → P (dispatch lib doubles conversions handlers json type symbol s).1
  unfolding dispatch
  dispatch-Keeps json type symbol s keep parsed allowed ps =
      branch-Keeps (txt "trade") type
        (λ v. IsGood lib filters document (txt "trade") v.type v.symbol)
        (read_trade lib doubles conversions json type symbol) handlers.trade _ s
        (λ same.
          Ensures-mono (λ v p. good (txt "trade") v.type v.symbol parsed allowed same p)
            (read_trade-Ensures lib doubles conversions json type symbol))
        keep.trade ps
        (branch-Keeps (txt "quote") type
          (λ v. IsGood lib filters document (txt "quote") v.type v.symbol)
          (read_quote lib doubles conversions json type symbol) handlers.quote _ s
          (λ same.
            Ensures-mono (λ v p. good (txt "quote") v.type v.symbol parsed allowed same p)
              (read_quote-Ensures lib doubles conversions json type symbol))
          keep.quote ps
          (branch-Keeps (txt "summary") type
            (λ v. IsGood lib filters document (txt "summary") v.type v.symbol)
            (read_summary lib doubles conversions json type symbol) handlers.summary _ s
            (λ same.
              Ensures-mono (λ v p. good (txt "summary") v.type v.symbol parsed allowed same p)
                (read_summary-Ensures lib doubles conversions json type symbol))
            keep.summary ps
            (branch-Keeps (txt "timesale") type
              (λ v. IsGood lib filters document (txt "timesale") v.type v.symbol)
              (read_timesale lib doubles conversions json type symbol) handlers.timesale _ s
              (λ same.
                Ensures-mono (λ v p. good (txt "timesale") v.type v.symbol parsed allowed same p)
                  (read_timesale-Ensures lib doubles conversions json type symbol))
              keep.timesale ps (ps))))

  process_admitted-Keeps :
      (json : J) (o : Outcome (Option (Text × Text))) (s : S)
      → HandlersKeep
      → document ≡ ok json
      → Ensures (Admits lib filters json) o
      → P s
      → P (process_admitted lib doubles conversions handlers json o s).1
  unfolding process_admitted
  process_admitted-Keeps json (ok none) s keep parsed admits ps = ps
  process_admitted-Keeps json (ok (some (type, symbol))) s keep parsed (returns allowed) ps =
      rescue-Keeps P (txt "Event processing error: ") handlers.error
        (dispatch lib doubles conversions handlers json type symbol s) keep.error
        (dispatch-Keeps json type symbol s keep parsed allowed ps)
  process_admitted-Keeps json (throw e) s keep parsed admits ps = ps

  process_message-Keeps :
      (o : Outcome J) (s : S)
      → document ≡ o
      → HandlersKeep
      → P s
      → P (process_message lib doubles conversions handlers filters o s).1
  unfolding process_message process_event
  process_message-Keeps (ok json) s parsed keep ps =
      process_admitted-Keeps json (admitted lib filters json) s keep parsed
        (admitted-Ensures lib filters json) ps
  process_message-Keeps (throw e) s parsed keep ps = ps

  count_message-Keeps :
      (stats : StreamStatistics) (r : Outcome (Unit {0}) × S)
      → HandlersKeep
      → P r.1
      → P (count_message lib doubles conversions handlers stats r).2
  unfolding count_message
  count_message-Keeps stats (ok done, s) keep ps = ps
  count_message-Keeps stats (throw e, s) keep ps =
      report-Keeps P handlers.error (txt "Message parsing error: " ++ what e) s keep.error ps

module _ {J D S : Type 0} (lib : Json J D) (doubles : Doubles D) (conversions : Conversions D)
    (P : S → Type 0) (handlers : Handlers D S) (filters : Filters) where
  -- handleMessage hands a handler only what the filters let through: what every handler keeps on the
  -- events that have its type, whose symbol is in the symbol filter, and whose message has an exchange
  -- in the exchange filter or none, handleMessage keeps. A filter that is empty lets everything
  -- through.
  pub handle_message-Keeps :
      (message : Text) (now : ℕ) (stats : StreamStatistics) (s : S)
      → HandlersKeep lib doubles conversions P handlers filters (lib.parse message)
      → P s
      → P (handle_message lib doubles conversions handlers filters message now stats s).2
  unfolding handle_message
  handle_message-Keeps message now stats s keep ps =
      count_message-Keeps lib doubles conversions P handlers filters (lib.parse message)
        (record stats { messages_received = next64 stats.messages_received; last_message = now }) _
        keep
        (process_message-Keeps lib doubles conversions P handlers filters (lib.parse message)
          (lib.parse message) s refl keep ps)
