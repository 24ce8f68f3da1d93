-- ===== src/Streaming/Filtering.antt =====
-- What processEvent of src/streaming.cpp lets through its filters, and what it keeps of a message.
use libtradier.Base.{
  ◌≡◌, refl, ◌⊎◌, true, false, Bool, not, if◌then◌else◌, Option, none, some, arith, is_empty,
}
use libtradier.Text.{Text, txt}
use libtradier.Errors.{ok}
use libtradier.Errors.Ensures.{Ensures, returns, bind-Ensures, if-Ensures, then-Ensures}
use libtradier.Service.{Json}
use libtradier.Validation.{Doubles}
use libtradier.Streaming.Events.{
  Conversions, numeric, whole_numeric, read_trade, read_quote, read_summary, read_timesale,
}
use libtradier.Streaming.Messages.{Filters, member, passes, exchange_passes, admitted}

-- An event keeps the type and the symbol of its message.
module _ {J D : Type 0} (lib : Json J D) (doubles : Doubles D) (conversions : Conversions D) where
  pub read_trade-Ensures :
      (json : J) (type symbol : Text)
      → Ensures
          (λ v. (v.type ≡ type) × (v.symbol ≡ symbol))
          (read_trade lib doubles conversions json type symbol)
  unfolding read_trade
  read_trade-Ensures json type symbol =
      bind-Ensures (lib.text_value json (txt "exch") (txt "")) (λ _.
        bind-Ensures (numeric lib doubles conversions json (txt "price")) (λ _.
          bind-Ensures (whole_numeric lib doubles conversions json (txt "size")) (λ _.
            bind-Ensures (whole_numeric lib doubles conversions json (txt "cvol")) (λ _.
              bind-Ensures (numeric lib doubles conversions json (txt "last")) (λ _.
                bind-Ensures (lib.text_value json (txt "date") (txt ""))
                  (λ _. returns (refl, refl)))))))

  pub read_quote-Ensures :
      (json : J) (type symbol : Text)
      → Ensures
          (λ v. (v.type ≡ type) × (v.symbol ≡ symbol))
          (read_quote lib doubles conversions json type symbol)
  unfolding read_quote
  read_quote-Ensures json type symbol =
      bind-Ensures (numeric lib doubles conversions json (txt "bid")) (λ _.
        bind-Ensures (numeric lib doubles conversions json (txt "ask")) (λ _.
          bind-Ensures (whole_numeric lib doubles conversions json (txt "bidsz")) (λ _.
            bind-Ensures (whole_numeric lib doubles conversions json (txt "asksz")) (λ _.
              bind-Ensures (lib.text_value json (txt "bidexch") (txt "")) (λ _.
                bind-Ensures (lib.text_value json (txt "biddate") (txt "")) (λ _.
                  bind-Ensures (lib.text_value json (txt "askexch") (txt "")) (λ _.
                    bind-Ensures (lib.text_value json (txt "askdate") (txt ""))
                      (λ _. returns (refl, refl)))))))))

  pub read_summary-Ensures :
      (json : J) (type symbol : Text)
      → Ensures
          (λ v. (v.type ≡ type) × (v.symbol ≡ symbol))
          (read_summary lib doubles conversions json type symbol)
  unfolding read_summary
  read_summary-Ensures json type symbol =
      bind-Ensures (numeric lib doubles conversions json (txt "open")) (λ _.
        bind-Ensures (numeric lib doubles conversions json (txt "high")) (λ _.
          bind-Ensures (numeric lib doubles conversions json (txt "low")) (λ _.
            bind-Ensures (numeric lib doubles conversions json (txt "prevClose"))
              (λ _. returns (refl, refl)))))

  pub read_timesale-Ensures :
      (json : J) (type symbol : Text)
      → Ensures
          (λ v. (v.type ≡ type) × (v.symbol ≡ symbol))
          (read_timesale lib doubles conversions json type symbol)
  unfolding read_timesale
  read_timesale-Ensures json type symbol =
      bind-Ensures (lib.text_value json (txt "exch") (txt "")) (λ _.
        bind-Ensures (numeric lib doubles conversions json (txt "bid")) (λ _.
          bind-Ensures (numeric lib doubles conversions json (txt "ask")) (λ _.
            bind-Ensures (numeric lib doubles conversions json (txt "last")) (λ _.
              bind-Ensures (whole_numeric lib doubles conversions json (txt "size")) (λ _.
                bind-Ensures (whole_numeric lib doubles conversions json (txt "seq")) (λ _.
                  bind-Ensures (lib.text_value json (txt "date") (txt "")) (λ _.
                    bind-Ensures (lib.text_value json (txt "flag") (txt "")) (λ _.
                      bind-Ensures (lib.bool_value json (txt "cancel") false) (λ _.
                        bind-Ensures (lib.bool_value json (txt "correction") false) (λ _.
                          bind-Ensures (lib.text_value json (txt "session") (txt ""))
                            (λ _. returns (refl, refl))))))))))))

-- What the filters let through: the symbol, and the exchange if the message has one.
abbrev pub IsAllowed : {J D : Type 0} → Json J D → Filters → J → Text → Type 0
IsAllowed lib filters json symbol =
    (passes symbol filters.symbols ≡ true)
    × ((is_empty filters.exchanges ≡ true)
        ⊎ (lib.contains json (txt "exch") ≡ false)
        ⊎ ((exchange : Text) × (lib.get_text (lib.at json (txt "exch")) ≡ ok exchange)
            × (member exchange filters.exchanges ≡ true)))

exchange_passes-true :
    {J D : Type 0} (lib : Json J D) (filters : Filters) (json : J)
    → exchange_passes lib filters json ≡ ok true
    → (is_empty filters.exchanges ≡ true)
      ⊎ (lib.contains json (txt "exch") ≡ false)
      ⊎ ((exchange : Text) × (lib.get_text (lib.at json (txt "exch")) ≡ ok exchange)
          × (member exchange filters.exchanges ≡ true))
unfolding exchange_passes
exchange_passes-true lib filters json h = ground arith

-- What holds of the type and the symbol that pass the filters.
abbrev pub Admits : {J D : Type 0} → Json J D → Filters → J → Option (Text × Text) → Type 0
Admits lib filters json none = Unit
Admits lib filters json (some (type, symbol)) = IsAllowed lib filters json symbol

admitted_by :
    {J D : Type 0} (lib : Json J D) (filters : Filters) (json : J) (passed : Bool)
    (type symbol : Text)
    → not (passes symbol filters.symbols) ≡ false
    → exchange_passes lib filters json ≡ ok passed
    → Admits lib filters json (if passed then some (type, symbol) else none)
admitted_by lib filters json false type symbol kept e = tt
admitted_by lib filters json true type symbol kept e =
    (ground arith, exchange_passes-true lib filters json e)

pub admitted-Ensures :
    {J D : Type 0} (lib : Json J D) (filters : Filters) (json : J)
    → Ensures (Admits lib filters json) (admitted lib filters json)
unfolding admitted
admitted-Ensures lib filters json =
    if-Ensures (not (lib.contains json (txt "type"))) (λ _. returns tt)
      (λ _. bind-Ensures (lib.get_text (lib.at json (txt "type"))) (λ type.
        bind-Ensures (lib.text_value json (txt "symbol") (txt "")) (λ symbol.
          if-Ensures (not (passes symbol filters.symbols)) (λ _. returns tt)
            (λ kept.
              then-Ensures (exchange_passes lib filters json)
                (λ passed e. returns (admitted_by lib filters json passed type symbol kept e))))))
