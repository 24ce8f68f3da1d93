-- ===== src/Tests/Tokens.antt =====
-- The token file and the redirects of src/auth.cpp, with one file and with the documents.
use libtradier.Base.{
  ℕ, ◌*◌, ◌≡◌, refl, sym, ap, ◌∙◌, Bool, true, false, List, [], ◌∷◌, ◌==◌, ◌||◌, not, all, is_empty,
  arith, Bool-cases, inl, inr,
}
use libtradier.Text.{Text, txt, text_eq}
use libtradier.Int.{ℤ}
use libtradier.Errors.{Outcome, ok}
use libtradier.FormMap.{FormMap, find}
use libtradier.Auth.Scopes.{TokenScope}
use libtradier.Auth.Tokens.{TokenInfo}
use libtradier.Auth.TokenFile.{
  JsonMaker, Files, token_fields, save_token_to_file, load_token_from_file,
}
use libtradier.Auth.TokenFile.Restored.{Keeps, to_seconds, save_token_to_file-load}
use libtradier.Auth.Redirect.{
  extract_auth_code_from_url, extract_state_from_url, extract_error_from_url, is_valid_redirect_uri,
}
use libtradier.Auth.Redirect.Parameters.{
  IsPlain, HasNoEquals, IsParameter, redirect, found, extract_from_redirect,
}
use libtradier.Tests.Documents.{
  Doc, Items, Fields, flag, text, number, array, object, nil, item, end, field, documents, get,
  items, get_text, get_flag, read_or,
}

abbrev to_items : List Doc → Items
to_items [] = nil
to_items (d ∷ ds) = item d (to_items ds)

abbrev to_fields : List (Text × Doc) → Fields
to_fields [] = end
to_fields ((key, d) ∷ fs) = field key d (to_fields fs)

abbrev maker : JsonMaker Doc
maker = record {
  of_text = text;
  of_number = number;
  of_bool = flag;
  of_list = λ ds. array (to_items ds);
  of_fields = λ fs. object (to_fields fs);
  dump = λ d. ok (txt "{}");
}

get-find : (fs : List (Text × Doc)) (key : Text) → get key (to_fields fs) ≡ find key fs
unfolding find
get-find [] key = refl
get-find ((k, d) ∷ fs) key = elim (Bool-cases (text_eq k key)) [
  | inl same ↦ rw same
  | inr other ↦ rw other (get-find fs key)
]

items-to_items : (ds : List Doc) → items (to_items ds) ≡ ds
items-to_items [] = refl
items-to_items (d ∷ ds) = ap (λ rest. d ∷ rest) (items-to_items ds)

documents-Keeps : (parse : Text → Outcome Doc) → Keeps (documents parse) maker
documents-Keeps parse = record {
  contains = λ fs key json e. rw (get-find fs key, e);
  at = λ fs key json e. rw (get-find fs key, e);
  text_value = λ fs key t d e. ap (read_or get_text d) (get-find fs key ∙ e);
  bool_value = λ fs key b d e. ap (read_or get_flag d) (get-find fs key ∙ e);
  get_text = λ t. refl;
  get_long = λ n. refl;
  is_array = λ ds. refl;
  elements = λ ds. items-to_items ds;
}

-- One file; the state is its content.
abbrev one_file : Files Text
one_file = record {
  create = λ path s. (true, []);
  write = λ path t s. (true, t);
  readable = λ path s. true;
  content = λ path s. s;
  remove = λ path s. (true, []);
}

abbrev token : TokenInfo
token = record {
  access_token = txt "at";
  refresh_token = txt "rt";
  token_type = txt "Bearer";
  expires_at = 86400402;
  issued_at = 402;
  scopes = TokenScope.read ∷ TokenScope.trade ∷ [];
  is_valid = true;
}

abbrev seconds : ℤ → ℕ
seconds (ℤ.pos n) = n * 1000
seconds (ℤ.negsuc n) = 0

abbrev stored : Doc
stored = maker.of_fields (token_fields maker 1000 token)

save_token_to_file-load_example :
    load_token_from_file
      (documents (λ t. ok stored))
      seconds
      one_file
      (λ t. ok stored)
      (txt "token.json")
      (save_token_to_file maker one_file 1000 token (txt "token.json") []).1
    ≡ to_seconds 1000 token
unfolding save_token_to_file
save_token_to_file-load_example =
    save_token_to_file-load (documents (λ t. ok stored)) maker (documents-Keeps (λ t. ok stored))
      seconds 1000 (λ n. refl) one_file (λ t. ok stored)
      (λ path t s s' e. (refl, sym (ap (λ (r : Bool × Text). r.1) e))) token (txt "token.json") []
      (λ t e. refl) refl

abbrev is_mark : ℕ → Bool
is_mark c = c == b'?' || c == b'&'

plain : (t : Text) → all (λ c. not (is_mark c)) t ≡ true → IsPlain t
plain [] h = tt
plain (c ∷ t) h = ((ground arith, ground arith), plain t (ground arith))

no_equals : (t : Text) → all (λ c. not (c == b'=')) t ≡ true → HasNoEquals t
no_equals [] h = tt
no_equals (c ∷ t) h = (ground arith, no_equals t (ground arith))

parameter :
    (key value : Text)
    → all (λ c. not (is_mark c)) key ≡ true
    → all (λ c. not (c == b'=')) key ≡ true
    → all (λ c. not (is_mark c)) value ≡ true
    → is_empty value ≡ false
    → IsParameter (key, value)
parameter key value k e v filled = (plain key k, no_equals key e, plain value v, filled)

abbrev answer : FormMap
answer = (txt "code", txt "x1=") ∷ (txt "state", txt "s2") ∷ []

extract_from_redirect_example :
    (extract_auth_code_from_url (redirect (txt "https://a.b") answer)
      ≡ found (find (txt "code") answer))
    × (extract_state_from_url (redirect (txt "https://a.b") answer)
        ≡ found (find (txt "state") answer))
    × (extract_error_from_url (redirect (txt "https://a.b") answer)
        ≡ found (find (txt "error") answer))
unfolding txt
extract_from_redirect_example =
    extract_from_redirect (txt "https://a.b") answer (plain (txt "https://a.b") refl) (
      parameter (txt "code") (txt "x1=") refl refl refl refl,
      (parameter (txt "state") (txt "s2") refl refl refl refl, tt),
    )

valid_test : is_valid_redirect_uri (txt "https://localhost:8080/callback") ≡ true
unfolding is_valid_redirect_uri txt
valid_test = refl

no_port_test : is_valid_redirect_uri (txt "http://localhost:/callback") ≡ false
unfolding is_valid_redirect_uri txt
no_port_test = refl
