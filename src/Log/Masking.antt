-- ===== src/Log/Masking.antt =====
-- What logHttpRequest of src/common/debug.cpp shows of the token.
use libtradier.Base.{ℕ, ◌≡◌, refl, sym, ◌∙◌, ◌⊎◌, inl, inr, Bool, [], ◌∷◌, ◌++◌, take}
use libtradier.Text.{Text, txt, text_eq_iff}
use libtradier.FormMap.{FormMap}
use libtradier.Log.{Logger, Stamp}
use libtradier.Log.Reports.{
  header_text, request_header, request_headers, log_http_request, perform_actions,
}

-- Two headers with the same key whose values are the same, or the values of two tokens that start
-- with the same 12 characters
abbrev pub LooksAlike : Text × Text → Text × Text → Type 0
LooksAlike (key, value) (key', value') =
    (key ≡ key')
    × ((value ≡ value') ⊎ ((key ≡ txt "Authorization") × (take 12 value ≡ take 12 value')))

abbrev pub LookAlike : FormMap → FormMap → Type 0
LookAlike [] [] = Unit {0}
LookAlike (h ∷ headers) (h' ∷ headers') = LooksAlike h h' × LookAlike headers headers'
LookAlike headers headers' = ⊥

request_header-eq :
    (h h' : Text × Text) → LooksAlike h h' → request_header h.0 h.1 ≡ request_header h'.0 h'.1
unfolding request_header
request_header-eq (key, value) (key', value') (same, inl equal) = cc
request_header-eq (key, value) (key', value') (same, inr (token, start)) =
    let shown = (text_eq_iff key (txt "Authorization")).1 token in
    let shown' = (text_eq_iff key' (txt "Authorization")).1 (sym same ∙ token) in
    rw (shown, shown') (λ i. header_text (same i) (start i ++ txt "..."))

request_headers-eq :
    (headers headers' : FormMap)
    → LookAlike headers headers'
    → request_headers headers ≡ request_headers headers'
unfolding request_headers
request_headers-eq [] [] h = refl
request_headers-eq [] (h' ∷ headers') h = absurd h
request_headers-eq (h ∷ headers) [] r = absurd r
request_headers-eq (h ∷ headers) (h' ∷ headers') (r, rs) =
    λ i. request_header-eq h h' r i ∷ request_headers-eq headers headers' rs i

-- logHttpRequest shows no more of a token than its first 12 characters: two requests that differ in
-- nothing else are written in the same lines, and leave the logger in the same state.
pub log_http_request-masked :
    (opens : Text → Bool) (stamps : ℕ → Stamp) (method url body : Text) (headers headers' : FormMap)
    (n : ℕ) (logger : Logger)
    → LookAlike headers headers'
    → perform_actions opens stamps (log_http_request method url headers body) n logger
      ≡ perform_actions opens stamps (log_http_request method url headers' body) n logger
unfolding log_http_request
log_http_request-masked opens stamps method url body headers headers' n logger h =
    rw (request_headers-eq headers headers' h)
