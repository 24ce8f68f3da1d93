-- ===== src/Trading/Forms.antt =====
-- What the forms of src/trading.cpp say: the value that stands at each key.
use mathlib.Core.Option
use libtradier.Base.{◌≡◌, refl, Option, none, some, if◌then◌else◌, arith}
use libtradier.Text.{Text, txt, text_eq}
use libtradier.FormMap.{FormMap, put_some, find}
use libtradier.FormMap.Laws.{find-put}
use libtradier.Validation.{Doubles}
use libtradier.Trading.Orders.{OrderRequest, BracketOrder, side_text, type_text, duration_text}
use libtradier.Trading.Requests.{request_form, bracket_form, order_class, same_text, exit_side}

-- The value that was there before, unless there is a new one.
abbrev or_before : Option Text → Option Text → Option Text
or_before none before = before
or_before (some v) before = some v

find-put_some {ℓ} :
    {A : Type ℓ} (k j : Text) (print : A → Text) (o : Option A) (m : FormMap)
    → find j (put_some k print o m)
      ≡ (if text_eq k j then or_before (Option.map print o) (find j m) else find j m)
find-put_some k j print none m = ground arith
find-put_some k j print (some v) m = find-put k j (print v) m

or_before-none : (o : Option Text) → or_before o none ≡ o
or_before-none none = refl
or_before-none (some v) = refl

map-same_text : (o : Option Text) → Option.map same_text o ≡ o
map-same_text none = refl
map-same_text (some v) = refl

ruleset lookup = (find-put, find-put_some, or_before-none, map-same_text)

module _ {D : Type 0} (doubles : Doubles D) where
  -- The form of buildParams holds the class (option if an option symbol is given, equity if not),
  -- the symbol, the side, the quantity, the type and the duration, and of the price, the stop, the
  -- option symbol and the tag those that the request has.
  pub find-request_form :
      (r : OrderRequest D)
      → (find (txt "class") (request_form doubles r) ≡ some (order_class r.option_symbol))
        × (find (txt "symbol") (request_form doubles r) ≡ some r.symbol)
        × (find (txt "side") (request_form doubles r) ≡ some (side_text r.side))
        × (find (txt "quantity") (request_form doubles r) ≡ some (doubles.print r.quantity))
        × (find (txt "type") (request_form doubles r) ≡ some (type_text r.type))
        × (find (txt "duration") (request_form doubles r) ≡ some (duration_text r.duration))
        × (find (txt "price") (request_form doubles r) ≡ Option.map doubles.print r.price)
        × (find (txt "stop") (request_form doubles r) ≡ Option.map doubles.print r.stop)
        × (find (txt "option_symbol") (request_form doubles r) ≡ r.option_symbol)
        × (find (txt "tag") (request_form doubles r) ≡ r.tag)
  unfolding request_form txt text_eq find
  find-request_form r = (
    simp lookup,
    simp lookup,
    simp lookup,
    simp lookup,
    simp lookup,
    simp lookup,
    simp lookup,
    simp lookup,
    simp lookup,
    simp lookup,
  )

  -- The form of placeBracketOrder: the entry is a limit order at the entry price, the first exit a
  -- limit order at the take-profit price, the second a stop order at the stop-loss price; all three
  -- have the symbol and the quantity of the order, and both exits sell if the entry's side is BUY
  -- and buy otherwise.
  pub find-bracket_form :
      (b : BracketOrder D)
      → ((find (txt "type") (bracket_form doubles b) ≡ some (txt "limit"))
          × (find (txt "price") (bracket_form doubles b) ≡ some (doubles.print b.entry_price))
          × (find (txt "side") (bracket_form doubles b) ≡ some (side_text b.side))
          × (find (txt "symbol") (bracket_form doubles b) ≡ some b.symbol)
          × (find (txt "quantity") (bracket_form doubles b) ≡ some (doubles.print b.quantity)))
        × ((find (txt "oto[0][type]") (bracket_form doubles b) ≡ some (txt "limit"))
            × (find (txt "oto[0][price]") (bracket_form doubles b)
                ≡ some (doubles.print b.take_profit_price))
            × (find (txt "oto[0][side]") (bracket_form doubles b) ≡ some (exit_side b.side))
            × (find (txt "oto[0][symbol]") (bracket_form doubles b) ≡ some b.symbol)
            × (find (txt "oto[0][quantity]") (bracket_form doubles b)
                ≡ some (doubles.print b.quantity)))
        × ((find (txt "oto[1][type]") (bracket_form doubles b) ≡ some (txt "stop"))
            × (find (txt "oto[1][stop]") (bracket_form doubles b)
                ≡ some (doubles.print b.stop_loss_price))
            × (find (txt "oto[1][side]") (bracket_form doubles b) ≡ some (exit_side b.side))
            × (find (txt "oto[1][symbol]") (bracket_form doubles b) ≡ some b.symbol)
            × (find (txt "oto[1][quantity]") (bracket_form doubles b)
                ≡ some (doubles.print b.quantity)))
        × (find (txt "tag") (bracket_form doubles b) ≡ b.tag)
  unfolding bracket_form txt text_eq find
  find-bracket_form b = (
    (simp lookup, simp lookup, simp lookup, simp lookup, simp lookup),
    (simp lookup, simp lookup, simp lookup, simp lookup, simp lookup),
    (simp lookup, simp lookup, simp lookup, simp lookup, simp lookup),
    simp lookup,
  )
