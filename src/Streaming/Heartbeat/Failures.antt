-- ===== src/Streaming/Heartbeat/Failures.antt =====
-- When the heartbeat loop of src/streaming.cpp ends.
use libtradier.Base.{
  ℕ, zero, suc, ◌+◌, ◌≡◌, refl, ap, ◌≢◌, ◌⊎◌, inl, inr, false, List, [], ◌∷◌, ◌++◌, Option, none,
  some, ◌≤◌, arith,
}
use libtradier.Errors.{Exception, Outcome, ok, throw}
use libtradier.Streaming.Heartbeat.{
  Turn, Beat, Ending, switched_off, no_connection, too_many_failures, heartbeat_loop, end_or,
  after_send, after_failure, counted,
}

abbrev pub HasFailed : Turn → Type 0
HasFailed turn = (e : Exception) × (turn.send ≡ throw e)

-- The sends of the first n turns fail.
abbrev FailFirst : ℕ → List Turn → Type 0
FailFirst zero turns = Unit
FailFirst (suc n) [] = ⊥
FailFirst (suc n) (turn ∷ turns) = HasFailed turn × FailFirst n turns

-- Somewhere three turns in a row fail.
abbrev pub FailThrice : List Turn → Type 0
FailThrice turns =
    (before after : List Turn) × (a b c : Turn) × (turns ≡ before ++ a ∷ b ∷ c ∷ after)
    × HasFailed a
    × HasFailed b
    × HasFailed c

-- The beat after a failed send.
abbrev failed : Beat → Beat
failed beat = record beat { error_count = beat.error_count + 1 }

after_failure-too_many :
    (limit : ℕ) (report : Outcome (Unit {0})) (time : ℕ) (beat : Beat) (rest : Option Ending × Beat)
    → (end_or (after_failure limit report time beat) beat rest).0 ≡ some too_many_failures
    → (3 ≤ beat.error_count) ⊎ (rest.0 ≡ some too_many_failures)
unfolding end_or after_failure
after_failure-too_many limit report time beat rest h = ground arith

-- What follows a turn that gets to its send, by what the send comes to.
Follows : ℕ → Turn → List Turn → Beat → Type 0
Follows limit turn turns beat =
    ((heartbeat_loop limit turns (counted turn (ok tt) beat)).0 ≡ some too_many_failures)
    ⊎ (HasFailed turn
        × ((3 ≤ beat.error_count + 1)
            ⊎ ((heartbeat_loop limit turns (failed beat)).0 ≡ some too_many_failures)))

by_send :
    (limit : ℕ) (turn : Turn) (turns : List Turn) (beat : Beat) (sent : Outcome (Unit {0}))
    → turn.send ≡ sent
    → (end_or
        (after_send limit turn sent (counted turn sent beat))
        (counted turn sent beat)
        (heartbeat_loop limit turns (counted turn sent beat))).0
      ≡ some too_many_failures
    → Follows limit turn turns beat
unfolding Follows counted after_send end_or
by_send limit turn turns beat (ok done) e h = inl h
by_send limit turn turns beat (throw x) e h = inr (
  (x, e),
  after_failure-too_many limit turn.report turn.time (failed beat)
      (heartbeat_loop limit turns (failed beat)) h,
)

at_send :
    (limit : ℕ) (turn : Turn) (turns : List Turn) (beat : Beat)
    → (heartbeat_loop limit (turn ∷ turns) beat).0 ≡ some too_many_failures
    → (end_or
        (after_send limit turn turn.send (counted turn turn.send beat))
        (counted turn turn.send beat)
        (heartbeat_loop limit turns (counted turn turn.send beat))).0
      ≡ some too_many_failures
unfolding heartbeat_loop
at_send limit turn turns beat h = ground arith

later : (turn : Turn) (turns : List Turn) → FailThrice turns → FailThrice (turn ∷ turns)
later turn turns (before, after, a, b, c, e, fa, fb, fc) =
    (turn ∷ before, after, a, b, c, ap (λ rest. turn ∷ rest) e, fa, fb, fc)

three_first : (turns : List Turn) → FailFirst 3 turns → FailThrice turns
three_first [] h = elim h [ ]
three_first (a ∷ []) h = elim h.1 [ ]
three_first (a ∷ b ∷ []) h = elim h.1.1 [ ]
three_first (a ∷ b ∷ c ∷ turns) (fa, (fb, (fc, _))) = ([], turns, a, b, c, refl, fa, fb, fc)

-- With room for n + 1 more failures the loop gives up only if the first n + 1 sends fail, or three in
-- a row later.
abbrev Explained : ℕ → List Turn → Type 0
Explained limit turns =
    (beat : Beat) (n : ℕ)
    → beat.error_count + suc n ≡ 3
    → (heartbeat_loop limit turns beat).0 ≡ some too_many_failures
    → FailFirst (suc n) turns ⊎ FailThrice turns

thrice :
    (turn : Turn) (turns : List Turn)
    → FailFirst 3 turns ⊎ FailThrice turns
    → FailThrice (turn ∷ turns)
thrice turn turns (inl first) = later turn turns (three_first turns first)
thrice turn turns (inr there) = later turn turns there

one_more :
    (n : ℕ) (turn : Turn) (turns : List Turn)
    → HasFailed turn
    → FailFirst n turns ⊎ FailThrice turns
    → FailFirst (suc n) (turn ∷ turns) ⊎ FailThrice (turn ∷ turns)
one_more n turn turns f (inl first) = inl (f, first)
one_more n turn turns f (inr there) = inr (later turn turns there)

explain :
    (limit : ℕ) (turn : Turn) (turns : List Turn) (beat : Beat) (n : ℕ)
    → Explained limit turns
    → beat.error_count + suc n ≡ 3
    → Follows limit turn turns beat
    → FailFirst (suc n) (turn ∷ turns) ⊎ FailThrice (turn ∷ turns)
unfolding Follows counted
explain limit turn turns beat n ih few (inl h) =
    inr (thrice turn turns (ih (counted turn (ok tt) beat) 2 refl h))
explain limit turn turns beat zero ih few (inr (f, _)) = inl (f, tt)
explain limit turn turns beat (suc n) ih few (inr (f, inl three)) = absurd (omega arith)
explain limit turn turns beat (suc n) ih few (inr (f, inr h)) =
    one_more (suc n) turn turns f (ih (failed beat) n (omega arith) h)

failures : (limit : ℕ) (turns : List Turn) → Explained limit turns
unfolding heartbeat_loop
failures limit [] beat n few h = cc
failures limit (turn ∷ turns) beat n few h =
    explain limit turn turns beat n (failures limit turns) few
      (by_send limit turn turns beat turn.send refl (at_send limit turn turns beat h))

abbrev pub IsOff : Turn → Type 0
IsOff turn = (turn.before ≡ false) ⊎ (turn.after ≡ false)

loop_ends :
    (limit : ℕ) (turns rest : List Turn) (turn : Turn) (beat : Beat)
    → IsOff turn
    → (heartbeat_loop limit (turns ++ turn ∷ rest) beat).0 ≢ none
unfolding heartbeat_loop
loop_ends limit [] rest turn beat off = ground arith
loop_ends limit (t ∷ turns) rest turn beat off =
    ground (arith, loop_ends limit turns rest turn (counted t t.send beat))

-- Somewhere a send fails.
abbrev pub FailOnce : List Turn → Type 0
FailOnce turns =
    (before after : List Turn) × (t : Turn) × (turns ≡ before ++ t ∷ after) × HasFailed t

-- What an ending comes from.
abbrev pub Blamed : Ending → List Turn → Type 0
Blamed ending turns = (ending ≡ switched_off) ⊎ (ending ≡ no_connection) ⊎ FailOnce turns

at_end :
    (limit : ℕ) (turn : Turn) (turns : List Turn) (beat : Beat) (ending : Ending)
    → (heartbeat_loop limit (turn ∷ turns) beat).0 ≡ some ending
    → (ending ≡ switched_off)
      ⊎ (ending ≡ no_connection)
      ⊎ ((end_or
            (after_send limit turn turn.send (counted turn turn.send beat))
            (counted turn turn.send beat)
            (heartbeat_loop limit turns (counted turn turn.send beat))).0
          ≡ some ending)
unfolding heartbeat_loop
at_end limit turn turns beat ending h = ground arith

failed_or_later :
    (limit : ℕ) (turn : Turn) (turns : List Turn) (beat : Beat) (ending : Ending)
    (sent : Outcome (Unit {0}))
    → turn.send ≡ sent
    → (end_or
        (after_send limit turn sent (counted turn sent beat))
        (counted turn sent beat)
        (heartbeat_loop limit turns (counted turn sent beat))).0
      ≡ some ending
    → HasFailed turn ⊎ ((heartbeat_loop limit turns (counted turn sent beat)).0 ≡ some ending)
unfolding after_send end_or
failed_or_later limit turn turns beat ending (ok done) e h = inr h
failed_or_later limit turn turns beat ending (throw x) e h = inl (x, e)

later-Blamed :
    (ending : Ending) (turn : Turn) (turns : List Turn)
    → Blamed ending turns
    → Blamed ending (turn ∷ turns)
later-Blamed ending turn turns (inl off) = inl off
later-Blamed ending turn turns (inr (inl gone)) = inr (inl gone)
later-Blamed ending turn turns (inr (inr (before, after, t, e, f))) =
    inr (inr (turn ∷ before, after, t, ap (λ rest. turn ∷ rest) e, f))

loop-Blamed :
    (limit : ℕ) (turns : List Turn) (beat : Beat) (ending : Ending)
    → (heartbeat_loop limit turns beat).0 ≡ some ending
    → Blamed ending turns
unfolding heartbeat_loop
loop-Blamed limit [] beat ending h = cc
loop-Blamed limit (turn ∷ turns) beat ending h = elim (at_end limit turn turns beat ending h) [
  | inl off ↦ inl off
  | inr (inl gone) ↦ inr (inl gone)
  | inr (inr sends) ↦ elim (failed_or_later limit turn turns beat ending turn.send refl sends) [
    | inl f ↦ inr (inr ([], turns, turn, refl, f))
    | inr on ↦
        later-Blamed ending turn turns
          (loop-Blamed limit turns (counted turn turn.send beat) ending on)
  ]
]

-- The heartbeat loop ends at the latest in the first turn in which the service is disconnected or the
-- threads are to stop, whatever the sends come to. Unless it is switched off or finds no connection, it
-- ends only if some send fails; starting with no failures counted, it ends because of too many failures
-- only if three sends in a row fail.
pub heartbeat_loop_ends :
    (limit : ℕ) (turns : List Turn) (turn : Turn) (beat : Beat)
    → IsOff turn
    → beat.error_count ≡ 0
    → ((heartbeat_loop limit (turns ++ turn ∷ []) beat).0 ≢ none)
      × ((ending : Ending)
          → (heartbeat_loop limit (turns ++ turn ∷ []) beat).0 ≡ some ending
          → Blamed ending (turns ++ turn ∷ []))
      × ((heartbeat_loop limit (turns ++ turn ∷ []) beat).0 ≡ some too_many_failures
          → FailThrice (turns ++ turn ∷ []))
heartbeat_loop_ends limit turns turn beat off fresh = (
  loop_ends limit turns [] turn beat off,
  loop-Blamed limit (turns ++ turn ∷ []) beat,
  λ h. elim (failures limit (turns ++ turn ∷ []) beat 2 (omega arith) h) [
    | inl first ↦ three_first (turns ++ turn ∷ []) first
    | inr there ↦ there
  ],
)
