-- ===== src/Auth/Scopes.antt =====
-- The scopes of a token and their text, in src/auth.cpp.
use libtradier.Base.{◌≡◌, refl, ap, List, [], ◌∷◌, map, if◌then◌else◌, All, arith}
use libtradier.Text.{Text, txt, text_eq}
use libtradier.Query.{split_on, joined}
use libtradier.Query.RoundTrip.{Free}
use libtradier.Query.Joined.{split_on-joined}

pub data TokenScope : Type 0 where
  read write market trade stream : TokenScope

unfoldable pub scope_to_string : TokenScope → Text
scope_to_string TokenScope.read = txt "read"
scope_to_string TokenScope.write = txt "write"
scope_to_string TokenScope.market = txt "market"
scope_to_string TokenScope.trade = txt "trade"
scope_to_string TokenScope.stream = txt "stream"

unfoldable pub scopes_to_string : List TokenScope → Text
scopes_to_string scopes = joined b' ' (map scope_to_string scopes)

-- The pieces that std::getline reads: none of an empty text, and none behind a last separator.
unfoldable pub without_last : List Text → List Text
without_last [] = []
without_last ([] ∷ []) = []
without_last (piece ∷ pieces) = piece ∷ without_last pieces

-- The scopes of the pieces; an unknown piece is skipped.
unfoldable pub read_scopes : List Text → List TokenScope
read_scopes [] = []
read_scopes (piece ∷ pieces) =
    let rest = read_scopes pieces in
    if text_eq piece (txt "read")
    then TokenScope.read ∷ rest
    else if text_eq piece (txt "write")
    then TokenScope.write ∷ rest
    else if text_eq piece (txt "market")
    then TokenScope.market ∷ rest
    else if text_eq piece (txt "trade")
    then TokenScope.trade ∷ rest
    else if text_eq piece (txt "stream")
    then TokenScope.stream ∷ rest
    else rest

unfoldable pub parse_scope_string : Text → List TokenScope
unfolding without_last read_scopes
parse_scope_string s = read_scopes (without_last (split_on b' ' s))

scope_to_string-Free : (scope : TokenScope) → Free b' ' (scope_to_string scope)
unfolding scope_to_string txt
scope_to_string-Free TokenScope.read = ground arith
scope_to_string-Free TokenScope.write = ground arith
scope_to_string-Free TokenScope.market = ground arith
scope_to_string-Free TokenScope.trade = ground arith
scope_to_string-Free TokenScope.stream = ground arith

map-Free : (scopes : List TokenScope) → All (Free b' ') (map scope_to_string scopes)
map-Free [] = tt
map-Free (scope ∷ scopes) = (scope_to_string-Free scope, map-Free scopes)

without_last-map :
    (scopes : List TokenScope)
    → without_last (map scope_to_string scopes) ≡ map scope_to_string scopes
unfolding without_last scope_to_string txt
without_last-map [] = refl
without_last-map (TokenScope.read ∷ scopes) =
    ap (λ rest. txt "read" ∷ rest) (without_last-map scopes)
without_last-map (TokenScope.write ∷ scopes) =
    ap (λ rest. txt "write" ∷ rest) (without_last-map scopes)
without_last-map (TokenScope.market ∷ scopes) =
    ap (λ rest. txt "market" ∷ rest) (without_last-map scopes)
without_last-map (TokenScope.trade ∷ scopes) =
    ap (λ rest. txt "trade" ∷ rest) (without_last-map scopes)
without_last-map (TokenScope.stream ∷ scopes) =
    ap (λ rest. txt "stream" ∷ rest) (without_last-map scopes)

read_scopes-map : (scopes : List TokenScope) → read_scopes (map scope_to_string scopes) ≡ scopes
unfolding read_scopes scope_to_string txt text_eq
read_scopes-map [] = refl
read_scopes-map (TokenScope.read ∷ scopes) =
    ap (λ rest. TokenScope.read ∷ rest) (read_scopes-map scopes)
read_scopes-map (TokenScope.write ∷ scopes) =
    ap (λ rest. TokenScope.write ∷ rest) (read_scopes-map scopes)
read_scopes-map (TokenScope.market ∷ scopes) =
    ap (λ rest. TokenScope.market ∷ rest) (read_scopes-map scopes)
read_scopes-map (TokenScope.trade ∷ scopes) =
    ap (λ rest. TokenScope.trade ∷ rest) (read_scopes-map scopes)
read_scopes-map (TokenScope.stream ∷ scopes) =
    ap (λ rest. TokenScope.stream ∷ rest) (read_scopes-map scopes)

-- parseScopeString reads every list of scopes back from its scopesToString.
pub parse_scope_string-scopes_to_string :
    (scopes : List TokenScope) → parse_scope_string (scopes_to_string scopes) ≡ scopes
unfolding parse_scope_string scopes_to_string joined split_on
parse_scope_string-scopes_to_string [] = refl
parse_scope_string-scopes_to_string (scope ∷ scopes) =
    rw
      (
        split_on-joined b' ' (scope_to_string scope) (map scope_to_string scopes)
            (map-Free (scope ∷ scopes)),
        without_last-map (scope ∷ scopes),
      )
      (read_scopes-map (scope ∷ scopes))
