-- ===== src/Codec/Bytes.antt =====
-- Bytes: the range of an unsigned char, and the masks of the encoders as arithmetic, each checked
-- over the 256 values.
use Prim.Native.Nat.{bit_and}
use mathlib.Core.Logic.{ite}
use native.Mathlib.Decide.{ℕ_discrete}
use libtradier.Base.{ℕ, zero, suc, ◌/◌, ◌%◌, ◌<◌, ◌≡◌, refl, Bool, true, false, ◌&&◌, arith, All}
use libtradier.Text.{Text}

abbrev pub IsBytes : Text → Type 0
IsBytes s = All (λ c. c < 256) s

-- Check a test at every number below a bound, by evaluation.
unfoldable pub all_below : ℕ → (ℕ → Bool) → Bool
all_below zero p = true
all_below (suc n) p = p n && all_below n p

pub all_below_sound : (n : ℕ) (p : ℕ → Bool) → all_below n p ≡ true → (x : ℕ) → x < n → p x ≡ true
unfolding all_below
all_below_sound zero p h x lt = absurd (omega arith)
all_below_sound (suc n) p h x lt = ground (arith, all_below_sound n p (ground arith) x)

module _ (f g : ℕ → ℕ) where
  unfoldable pub agree_below : ℕ → Bool
  unfolding ℕ_discrete
  agree_below zero = true
  agree_below (suc n) = ite (ℕ_discrete (f n) (g n)) (agree_below n) false

  pub agree_below→eq : (n : ℕ) → agree_below n ≡ true → (i : ℕ) → i < n → f i ≡ g i
  unfolding agree_below
  agree_below→eq zero e i h = absurd (omega arith)
  agree_below→eq (suc n) e i h = ground (arith, agree_below→eq n (ground arith) i)

pub high_six : (c : ℕ) → c < 256 → bit_and c 0xfc / 4 ≡ c / 4
unfolding agree_below
high_six = agree_below→eq (λ c. bit_and c 0xfc / 4) (λ c. c / 4) 256 refl

pub low_two : (c : ℕ) → c < 256 → bit_and c 0x03 ≡ c % 4
unfolding agree_below
low_two = agree_below→eq (λ c. bit_and c 0x03) (λ c. c % 4) 256 refl

pub high_four : (c : ℕ) → c < 256 → bit_and c 0xf0 / 16 ≡ c / 16
unfolding agree_below
high_four = agree_below→eq (λ c. bit_and c 0xf0 / 16) (λ c. c / 16) 256 refl

pub low_four : (c : ℕ) → c < 256 → bit_and c 0x0f ≡ c % 16
unfolding agree_below
low_four = agree_below→eq (λ c. bit_and c 0x0f) (λ c. c % 16) 256 refl

pub high_two : (c : ℕ) → c < 256 → bit_and c 0xc0 / 64 ≡ c / 64
unfolding agree_below
high_two = agree_below→eq (λ c. bit_and c 0xc0 / 64) (λ c. c / 64) 256 refl

pub low_six : (c : ℕ) → c < 256 → bit_and c 0x3f ≡ c % 64
unfolding agree_below
low_six = agree_below→eq (λ c. bit_and c 0x3f) (λ c. c % 64) 256 refl
