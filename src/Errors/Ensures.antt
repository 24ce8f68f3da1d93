-- ===== src/Errors/Ensures.antt =====
-- Partial correctness of code that may throw: what holds of the value if it returns one.
use libtradier.Base.{◌≡◌, refl, Bool, true, false, if◌then◌else◌}
use libtradier.Errors.{of_ok, Exception, Outcome, ok, throw, ◌>>=◌}

pub data Ensures {A : Type 0} (P : A → Type 0) : Outcome A → Type 0 where
  returns : {v : A} → P v → Ensures P (ok v)
  throws : {e : Exception} → Ensures P (throw e)

pub bind-Ensures :
    {A B : Type 0} {P : B → Type 0} (m : Outcome A) {f : A → Outcome B}
    → ((a : A) → Ensures P (f a))
    → Ensures P (m >>= f)
bind-Ensures (ok a) h = h a
bind-Ensures (throw e) h = throws

-- What is known of the first part may be used in the second.
pub then-Ensures :
    {A B : Type 0} {P : B → Type 0} (m : Outcome A) {f : A → Outcome B}
    → ((a : A) → m ≡ ok a → Ensures P (f a))
    → Ensures P (m >>= f)
then-Ensures (ok a) h = h a (λ i. ok a)
then-Ensures (throw e) h = throws

pub if-Ensures :
    {A : Type 0} {P : A → Type 0} (b : Bool) {x y : Outcome A}
    → (b ≡ true → Ensures P x)
    → (b ≡ false → Ensures P y)
    → Ensures P (if b then x else y)
if-Ensures true h k = h refl
if-Ensures false h k = k refl

pub Ensures-mono :
    {A : Type 0} {P Q : A → Type 0} {o : Outcome A}
    → ((v : A) → P v → Q v)
    → Ensures P o
    → Ensures Q o
Ensures-mono h (returns {v} p) = returns (h v p)
Ensures-mono h throws = throws

pub ensured : {A : Type 0} {P : A → Type 0} {o : Outcome A} (v : A) → Ensures P o → o ≡ ok v → P v
ensured {P} v (returns {v = u} p) h = (let e : u ≡ v = of_ok h in rw (← e) p)
ensured v throws h = cc
