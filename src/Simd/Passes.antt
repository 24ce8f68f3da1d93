-- ===== src/Simd/Passes.antt =====
-- A loop that makes one of two steps at each element against two loops, one for each kind of step.
use libtradier.Base.{ℕ, ◌≡◌, refl, ap, ◌∙◌, ◌⊎◌, inl, inr, Bool, true, false, List, [], ◌∷◌, All}
use libtradier.Simd.{count, for_each}

-- The two steps have the same result in either order.
abbrev pub Commute : {S : Type 0} → (S → Bool × S) → (S → Bool × S) → Type 0
Commute {S} f g =
    (s : S)
    → ((f (g s).1).0 ≡ (f s).0) × ((g (f s).1).0 ≡ (g s).0) × ((f (g s).1).1 ≡ (g (f s).1).1)

count_comm : (a b : Bool) (n : ℕ) → count a (count b n) ≡ count b (count a n)
count_comm true true n = refl
count_comm true false n = refl
count_comm false b n = refl

module _ {E S : Type 0} (first second either : E → S → Bool × S) where
  -- The element takes one of the steps, and the other step does nothing at it.
  abbrev pub IsSplit : E → Type 0
  IsSplit e =
      ((either e ≡ first e) × ((s : S) → second e s ≡ (false, s)))
      ⊎ ((either e ≡ second e) × ((s : S) → first e s ≡ (false, s)))

module _ {E S : Type 0} (first second : E → S → Bool × S)
    (commute : (a b : E) → Commute (first a) (second b)) where
  -- A second step before a pass of first steps may as well come after it.
  postpone :
      (b : E) (es : List E) (n : ℕ) (s : S)
      → for_each first es (count (second b s).0 n) (second b s).1
        ≡ (let (m, s') = for_each first es n s in (count (second b s').0 m, (second b s').1))
  unfolding for_each
  postpone b [] n s = refl
  postpone b (e ∷ es) n s =
      let (at_first, at_second, after) = commute e b s in
      let counts : count (first e (second b s).1).0 (count (second b s).0 n)
          ≡ count (second b (first e s).1).0 (count (first e s).0 n) =
        rw (at_first, at_second) (count_comm (first e s).0 (second b s).0 n) in
      (λ i. for_each first es (counts i) (after i))
      ∙ postpone b es (count (first e s).0 n) (first e s).1

  pub for_each-passes :
      (either : E → S → Bool × S) (es : List E) (n : ℕ) (s : S)
      → All (IsSplit first second either) es
      → for_each either es n s ≡ (let (m, s') = for_each first es n s in for_each second es m s')
  unfolding for_each
  for_each-passes either [] n s h = refl
  for_each-passes either (e ∷ es) n s (inl (same, idle), h) =
      rw (same, idle (for_each first es (count (first e s).0 n) (first e s).1).1)
        (for_each-passes either es (count (first e s).0 n) (first e s).1 h)
  for_each-passes either (e ∷ es) n s (inr (same, idle), h) =
      rw (same, for_each, idle s)
        (for_each-passes either es (count (second e s).0 n) (second e s).1 h
          ∙ ap (λ (r : ℕ × S). for_each second es r.0 r.1) (postpone e es n s))
