-- ===== src/FormMap/Laws.antt =====
-- Lookup after insertion, and the order of the keys.
use libtradier.Base.{List, none, ◌≡◌, refl, true, [], ◌∷◌, arith, some, if◌then◌else◌}
use libtradier.Text.{Text, text_eq, text_lt, text_eq_iff}
use libtradier.FormMap.{put, find, Above, IsSorted}
use libtradier.FormMap.Order.{text_lt_irrefl, text_lt_trans, text_lt_connected}

-- The value last written at a key is the one found there; other keys are left alone.
pub find-put {ℓ} :
    {A : Type ℓ} (k j : Text) (v : A) (m : List (Text × A))
    → find j (put k v m) ≡ (if text_eq k j then some v else find j m)
unfolding put find
find-put k j v [] = refl
find-put k j v ((i, w) ∷ m) =
    ground (arith, text_eq_iff k j, text_eq_iff i j, text_lt_connected k i, find-put k j v m)

Above-put {ℓ} :
    {A : Type ℓ} (k j : Text) (v : A) (m : List (Text × A))
    → text_lt j k ≡ true
    → Above j m
    → Above j (put k v m)
unfolding put
Above-put k j v [] h a = (h, tt)
Above-put k j v ((i, w) ∷ m) h a = ground (arith, Above-put k j v m h a.1)

Above-trans {ℓ} :
    {A : Type ℓ} (j k : Text) (m : List (Text × A)) → text_lt j k ≡ true → Above k m → Above j m
Above-trans j k [] h a = tt
Above-trans j k ((i, w) ∷ m) h a = (text_lt_trans j k i h a.0, Above-trans j k m h a.1)

-- Insertion keeps the keys in order, each one once.
pub put-IsSorted {ℓ} :
    {A : Type ℓ} (k : Text) (v : A) (m : List (Text × A)) → IsSorted m → IsSorted (put k v m)
unfolding put
put-IsSorted k v [] s = (tt, tt)
put-IsSorted k v ((j, w) ∷ m) s =
    ground (arith, put-IsSorted k v m s.1, Above-put k j v m, Above-trans k j m)

-- A key below all others is not there.
pub find-Above {ℓ} : {A : Type ℓ} (k : Text) (m : List (Text × A)) → Above k m → find k m ≡ none
unfolding find
find-Above k [] a = refl
find-Above k ((j, w) ∷ m) a = ground (arith, text_eq_iff j k, text_lt_irrefl k, find-Above k m a.1)
