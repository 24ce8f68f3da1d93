-- ===== src/Auth/Lookup.antt =====
-- What the cache of OAuth states guarantees.
use libtradier.Base.{
  ℕ, ◌+◌, ◌≤◌, ◌≡◌, refl, sym, ◌∙◌, ◌↔◌, true, false, [], ◌∷◌, none, some, ltb, arith, Bool-cases,
  Option-cases, inl, inr, of_some,
}
use libtradier.Text.{Text, text_eq_iff, text_eq_refl}
use libtradier.FormMap.{put, find, Above, IsSorted}
use libtradier.FormMap.Laws.{find-put, put-IsSorted, find-Above}
use libtradier.Auth.States.{StateCache, cleanup_expired_states, erase, validate_state}

-- A state that is not known does not become known by a cleanup.
cleanup-none :
    (expiration now : ℕ) (state : Text) (cache : StateCache)
    → find state cache ≡ none
    → find state (cleanup_expired_states expiration now cache) ≡ none
unfolding cleanup_expired_states find
cleanup-none expiration now state [] h = refl
cleanup-none expiration now state ((s, since) ∷ cache) h =
    ground (arith, cleanup-none expiration now state cache)

-- A known state survives a cleanup if it is not expired.
cleanup-some :
    (expiration now : ℕ) (state : Text) (cache : StateCache) (since : ℕ)
    → find state cache ≡ some since
    → now ≤ since + expiration
    → find state (cleanup_expired_states expiration now cache) ≡ some since
unfolding cleanup_expired_states find
cleanup-some expiration now state [] since h k = cc
cleanup-some expiration now state ((s, t) ∷ cache) since h k =
    ground (arith, cleanup-some expiration now state cache since)

-- With each key once, what is found after a cleanup was there before.
cleanup-find :
    (expiration now : ℕ) (state : Text) (cache : StateCache) (since : ℕ)
    → IsSorted cache
    → find state (cleanup_expired_states expiration now cache) ≡ some since
    → find state cache ≡ some since
unfolding cleanup_expired_states find
cleanup-find expiration now state [] since v h = cc
cleanup-find expiration now state ((s, t) ∷ cache) since v h = ground (
  arith,
  text_eq_iff s state,
  find-Above s cache v.0,
  cleanup-none expiration now state cache,
  cleanup-find expiration now state cache since v.1,
)

find-erase : (state : Text) (cache : StateCache) → find state (erase state cache) ≡ none
unfolding erase find
find-erase state [] = refl
find-erase state ((s, t) ∷ cache) = ground (arith, find-erase state cache)

forgotten :
    (expiration first now : ℕ) (state : Text) (cache : StateCache)
    → find state cache ≡ none
    → (validate_state expiration first now state cache).0 ≡ false
unfolding validate_state
forgotten expiration first now state cache h = rw (cleanup-none expiration first state cache h) refl

cleanup-Above :
    (expiration now : ℕ) (state : Text) (cache : StateCache)
    → Above state cache
    → Above state (cleanup_expired_states expiration now cache)
unfolding cleanup_expired_states
cleanup-Above expiration now state [] a = tt
cleanup-Above expiration now state ((s, t) ∷ cache) a =
    elim (Bool-cases (ltb (t + expiration) now)) [
      | inl old ↦ rw old (cleanup-Above expiration now state cache a.1)
      | inr kept ↦ rw kept (a.0, cleanup-Above expiration now state cache a.1)
    ]

pub cleanup-IsSorted :
    (expiration now : ℕ) (cache : StateCache)
    → IsSorted cache
    → IsSorted (cleanup_expired_states expiration now cache)
unfolding cleanup_expired_states
cleanup-IsSorted expiration now [] v = tt
cleanup-IsSorted expiration now ((s, t) ∷ cache) v = elim (Bool-cases (ltb (t + expiration) now)) [
  | inl old ↦ rw old (cleanup-IsSorted expiration now cache v.1)
  | inr kept ↦
      rw kept (cleanup-Above expiration now s cache v.0, cleanup-IsSorted expiration now cache v.1)
]

used_up :
    (expiration first now : ℕ) (state : Text) (cache : StateCache)
    → find state (validate_state expiration first now state cache).1 ≡ none
unfolding validate_state
used_up expiration first now state cache =
    elim (Option-cases (find state (cleanup_expired_states expiration first cache))) [
      | inl gone ↦ rw gone gone
      | inr (since, there) ↦ rw there (find-erase state _)
    ]

accepted :
    (expiration first now : ℕ) (state : Text) (cache : StateCache) (since : ℕ)
    → find state cache ≡ some since
    → first ≤ now
    → now ≤ since + expiration
    → (validate_state expiration first now state cache).0 ≡ true
unfolding validate_state
accepted expiration first now state cache since there le fresh =
    rw (cleanup-some expiration first state cache since there (omega arith)) (ground arith)

was_known :
    (expiration first now : ℕ) (state : Text) (cache : StateCache)
    → IsSorted cache
    → (validate_state expiration first now state cache).0 ≡ true
    → (since : ℕ) × (find state cache ≡ some since) × (now ≤ since + expiration)
unfolding validate_state
was_known expiration first now state cache v h =
    elim (Option-cases (find state (cleanup_expired_states expiration first cache))) [
      | inl gone ↦ ground arith
      | inr (since, there) ↦
          (since, cleanup-find expiration first state cache since v there, ground arith)
    ]

-- validateState accepts a state exactly if it is in the cache and its time is not over, when the
-- clock does not go back between its two readings; and whatever the answer, the state is used up:
-- the next call with it, at any time, refuses it.
pub validate_state-once :
    (expiration first now : ℕ) (state : Text) (cache : StateCache)
    → IsSorted cache
    → first ≤ now
    → (((validate_state expiration first now state cache).0 ≡ true)
        ↔ ((since : ℕ) × (find state cache ≡ some since) × (now ≤ since + expiration)))
      × ((later latest : ℕ)
          → (validate_state expiration later latest state
              (validate_state expiration first now state cache).1).0
            ≡ false)
validate_state-once expiration first now state cache v le = (
  (
    was_known expiration first now state cache v,
    λ (since, there, fresh). accepted expiration first now state cache since there le fresh,
  ),
  λ later latest.
      forgotten expiration later latest state _ (used_up expiration first now state cache),
)

pub validate_state-put :
    (expiration now back later : ℕ) (state : Text) (cache : StateCache)
    → IsSorted cache
    → back ≤ later
    → ((validate_state expiration back later state (put state now cache)).0 ≡ true)
      ↔ (later ≤ now + expiration)
validate_state-put expiration now back later state cache v le =
    let there : find state (put state now cache) ≡ some now =
      find-put state state now cache ∙ rw (text_eq_refl state) refl in
    (
      λ h.
          (let (since, found, fresh) =
              was_known expiration back later state (put state now cache)
                (put-IsSorted state now cache v) h in
            let same : now ≡ since = of_some (sym there ∙ found) in omega (arith, same)),
      λ fresh. accepted expiration back later state (put state now cache) now there le fresh,
    )
