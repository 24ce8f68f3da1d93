-- ===== src/Auth/States.antt =====
-- The cache of OAuth states in src/auth.cpp: each state is good for one callback and for a while.
use libtradier.Base.{
  ℕ, ◌+◌, Bool, false, List, [], ◌∷◌, Option, none, some, leb, ltb, if◌then◌else◌,
}
use libtradier.Text.{Text, text_eq}
use libtradier.FormMap.{find}

-- std::map<std::string, time_point>
abbrev pub StateCache : Type 0
StateCache = List (Text × ℕ)

-- cleanupExpiredStates at the time `now`
unfoldable pub cleanup_expired_states : ℕ → ℕ → StateCache → StateCache
cleanup_expired_states expiration now [] = []
cleanup_expired_states expiration now ((state, since) ∷ cache) =
    let rest = cleanup_expired_states expiration now cache in
    if ltb (since + expiration) now then rest else (state, since) ∷ rest

-- erase
unfoldable pub erase : Text → StateCache → StateCache
erase state [] = []
erase state ((s, since) ∷ cache) =
    let rest = erase state cache in if text_eq s state then rest else (s, since) ∷ rest

consume : ℕ → ℕ → Text → StateCache → Option ℕ → Bool × StateCache
consume expiration now state cache none = (false, cache)
consume expiration now state cache (some since) = (leb now (since + expiration), erase state cache)

-- validateState; the clock is read at `first` for the cleanup and at `now` for the state itself.
unfoldable pub validate_state : ℕ → ℕ → ℕ → Text → StateCache → Bool × StateCache
unfolding cleanup_expired_states consume
validate_state expiration first now state cache =
    let kept = cleanup_expired_states expiration first cache in
    consume expiration now state kept (find state kept)
