-- ===== src/Auth/Redirect.antt =====
-- The functions of the namespace auth in src/auth.cpp that read an address: isValidRedirectUri and the
-- three that look for a parameter of the redirect. Their regular expressions are written out; a part
-- that may be repeated is as long as it can be.
pub mod Parameters
use libtradier.Base.{
  ℕ, Bool, true, false, ◌&&◌, ◌||◌, not, List, [], ◌∷◌, ◌++◌, Option, none, some, leb, ◌==◌,
  if◌then◌else◌, is_empty, all,
}
use libtradier.Text.{Text, txt}
use libtradier.Int.{is_digit}

-- What stands behind a prefix
unfoldable pub after_prefix : Text → Text → Option Text
after_prefix [] text = some text
after_prefix (c ∷ prefix) [] = none
after_prefix (c ∷ prefix) (d ∷ text) =
    let rest = after_prefix prefix text in if c == d then rest else none

-- The longest part from the start on, of characters with the property, and what follows it
unfoldable pub span : (ℕ → Bool) → Text → Text × Text
span p [] = ([], [])
span p (c ∷ text) =
    let (part, rest) = span p text in if p c then (c ∷ part, rest) else ([], c ∷ text)

-- [^&]+ behind the equals sign; nothing where it does not match
abbrev pub value_at : Option Text → Text
value_at none = []
value_at (some text) = (span (λ c. not (c == b'&')) text).0

-- regex_search for [?&]key=([^&]+), and its first group, or the empty text
unfoldable pub extract_parameter : Text → Text → Text
unfolding after_prefix span
extract_parameter key [] = []
extract_parameter key (c ∷ url) =
    let later = extract_parameter key url in
    let value = value_at (after_prefix (key ++ txt "=") url) in
    if (c == b'?' || c == b'&') && not (is_empty value) then value else later

unfoldable pub extract_auth_code_from_url : Text → Text
unfolding extract_parameter
extract_auth_code_from_url url = extract_parameter (txt "code") url

unfoldable pub extract_state_from_url : Text → Text
unfolding extract_parameter
extract_state_from_url url = extract_parameter (txt "state") url

unfoldable pub extract_error_from_url : Text → Text
unfolding extract_parameter
extract_error_from_url url = extract_parameter (txt "error") url

-- [a-zA-Z0-9.-]
abbrev pub is_host_char : ℕ → Bool
is_host_char c =
    (leb b'a' c && leb c b'z') || (leb b'A' c && leb c b'Z') || is_digit c || c == b'.' || c == b'-'

-- (?:/.*)?$, where . is no line terminator
unfoldable pub is_path : Text → Bool
is_path [] = true
is_path (c ∷ text) = c == b'/' && all (λ d. not (d == 10 || d == 13)) text

-- (?:\:[0-9]+)? and the path
unfoldable pub is_port_and_path : Text → Bool
unfolding is_path span
is_port_and_path [] = true
is_port_and_path (c ∷ text) =
    let (port, rest) = span is_digit text in
    if c == b':' then not (is_empty port) && is_path rest else is_path (c ∷ text)

unfoldable pub is_authority : Option Text → Bool
unfolding is_port_and_path span
is_authority none = false
is_authority (some text) =
    let (host, rest) = span is_host_char text in not (is_empty host) && is_port_and_path rest

unfoldable pub is_valid_redirect_uri : Text → Bool
unfolding is_authority after_prefix
is_valid_redirect_uri uri =
    not (is_empty uri)
    && (is_authority (after_prefix (txt "https://") uri)
        || is_authority (after_prefix (txt "http://") uri))
