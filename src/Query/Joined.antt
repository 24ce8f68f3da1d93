-- ===== src/Query/Joined.antt =====
-- Texts joined with a separator are split again at it.
use mathlib.Core.List.{append_assoc, append-nil}
use libtradier.Base.{ℕ, ◌≡◌, sym, ap, ◌∙◌, false, List, [], ◌∷◌, ◌++◌, All}
use libtradier.Text.{Text}
use libtradier.Query.{split_on, joined_loop, joined}
use libtradier.Query.RoundTrip.{Free, split_on-Free, split_on-append}

abbrev tail_text : ℕ → List Text → Text
tail_text sep [] = []
tail_text sep (s ∷ items) = sep ∷ (s ++ tail_text sep items)

joined_loop-tail_text :
    (sep : ℕ) (text : Text) (items : List Text)
    → joined_loop sep false text items ≡ text ++ tail_text sep items
unfolding joined_loop
joined_loop-tail_text sep text [] = sym (append-nil text)
joined_loop-tail_text sep text (s ∷ items) =
    joined_loop-tail_text sep ((text ++ (sep ∷ [])) ++ s) items
    ∙ (append_assoc (text ++ (sep ∷ [])) s (tail_text sep items)
        ∙ append_assoc text (sep ∷ []) (s ++ tail_text sep items))

split_on-tail_text :
    (sep : ℕ) (s : Text) (items : List Text)
    → Free sep s
    → All (Free sep) items
    → split_on sep (s ++ tail_text sep items) ≡ s ∷ items
split_on-tail_text sep s [] h hs = rw (append-nil s) (split_on-Free sep s h)
split_on-tail_text sep s (t ∷ items) h hs =
    split_on-append sep s (t ++ tail_text sep items) h
    ∙ ap (λ rest. s ∷ rest) (split_on-tail_text sep t items hs.0 hs.1)

pub split_on-joined :
    (sep : ℕ) (s : Text) (items : List Text)
    → All (Free sep) (s ∷ items)
    → split_on sep (joined sep (s ∷ items)) ≡ s ∷ items
unfolding joined joined_loop
split_on-joined sep s items h =
    ap (split_on sep) (joined_loop-tail_text sep s items) ∙ split_on-tail_text sep s items h.0 h.1
