-- ===== src/Auth/TokenFile/Restored.antt =====
-- A token that saveTokenToFile of src/auth.cpp has saved is what loadTokenFromFile loads.
use libtradier.Base.{
  ℕ, ◌*◌, ◌/◌, ◌≡◌, refl, ap, Bool, true, false, List, [], ◌∷◌, some, map, Bool-cases, inl, inr,
}
use libtradier.Text.{Text, txt, text_eq}
use libtradier.Int.{ℤ}
use libtradier.Errors.{Outcome, ok, throw, or_default}
use libtradier.Service.{Json}
use libtradier.FormMap.{find}
use libtradier.Auth.Scopes.{TokenScope, scope_to_string, read_scopes}
use libtradier.Auth.Tokens.{TokenInfo}
use libtradier.Auth.TokenFile.{
  JsonMaker, Files, token_fields, write_dump, save_token_to_file, read_time, texts_of, scopes_of,
  read_stored_token, load_token_from_file,
}

-- What nlohmann::json promises of the values that it makes: the fields of an object are found, and a
-- value is converted back to what it was made of.
pub record Keeps {J D : Type 0} (lib : Json J D) (maker : JsonMaker J) : Type 0 where
  pub contains :
      (fields : List (Text × J)) (key : Text) (json : J)
      → find key fields ≡ some json
      → lib.contains (maker.of_fields fields) key ≡ true
  pub at :
      (fields : List (Text × J)) (key : Text) (json : J)
      → find key fields ≡ some json
      → lib.at (maker.of_fields fields) key ≡ json
  pub text_value :
      (fields : List (Text × J)) (key text d : Text)
      → find key fields ≡ some (maker.of_text text)
      → lib.text_value (maker.of_fields fields) key d ≡ ok text
  pub bool_value :
      (fields : List (Text × J)) (key : Text) (b d : Bool)
      → find key fields ≡ some (maker.of_bool b)
      → lib.bool_value (maker.of_fields fields) key d ≡ ok b
  pub get_text : (text : Text) → lib.get_text (maker.of_text text) ≡ ok text
  pub get_long : (n : ℕ) → lib.get_long (maker.of_number n) ≡ ok (ℤ.pos n)
  pub is_array : (jsons : List J) → lib.is_array (maker.of_list jsons) ≡ true
  pub elements : (jsons : List J) → lib.elements (maker.of_list jsons) ≡ jsons

-- The token with its times cut to whole seconds
abbrev pub to_seconds : ℕ → TokenInfo → TokenInfo
to_seconds second token = record token {
  expires_at = token.expires_at / second * second;
  issued_at = token.issued_at / second * second;
}

read_scopes-scope_to_string :
    (scopes : List TokenScope) → read_scopes (map scope_to_string scopes) ≡ scopes
unfolding read_scopes scope_to_string text_eq txt
read_scopes-scope_to_string [] = refl
read_scopes-scope_to_string (TokenScope.read ∷ scopes) =
    ap (λ rest. TokenScope.read ∷ rest) (read_scopes-scope_to_string scopes)
read_scopes-scope_to_string (TokenScope.write ∷ scopes) =
    ap (λ rest. TokenScope.write ∷ rest) (read_scopes-scope_to_string scopes)
read_scopes-scope_to_string (TokenScope.market ∷ scopes) =
    ap (λ rest. TokenScope.market ∷ rest) (read_scopes-scope_to_string scopes)
read_scopes-scope_to_string (TokenScope.trade ∷ scopes) =
    ap (λ rest. TokenScope.trade ∷ rest) (read_scopes-scope_to_string scopes)
read_scopes-scope_to_string (TokenScope.stream ∷ scopes) =
    ap (λ rest. TokenScope.stream ∷ rest) (read_scopes-scope_to_string scopes)

module _ {J D : Type 0} (lib : Json J D) (maker : JsonMaker J) (keeps : Keeps lib maker)
    (from_time_t : ℤ → ℕ) (second : ℕ) (times : (n : ℕ) → from_time_t (ℤ.pos n) ≡ n * second) where
  texts_of-made :
      (scopes : List TokenScope)
      → texts_of lib from_time_t (map (λ scope. maker.of_text (scope_to_string scope)) scopes)
        ≡ ok (map scope_to_string scopes)
  unfolding texts_of
  texts_of-made [] = refl
  texts_of-made (scope ∷ scopes) = rw (keeps.get_text (scope_to_string scope), texts_of-made scopes)

  read_time-made :
      (fields : List (Text × J)) (key : Text) (n : ℕ)
      → find key fields ≡ some (maker.of_number n)
      → read_time lib from_time_t (maker.of_fields fields) key ≡ ok (n * second)
  unfolding read_time
  read_time-made fields key n e =
      rw (keeps.contains fields key _ e, keeps.at fields key _ e, keeps.get_long n, times n)

  scopes_of-made :
      (fields : List (Text × J)) (scopes : List TokenScope)
      → find (txt "scopes") fields
        ≡ some (maker.of_list (map (λ scope. maker.of_text (scope_to_string scope)) scopes))
      → scopes_of lib from_time_t (maker.of_fields fields) ≡ ok scopes
  unfolding scopes_of
  scopes_of-made fields scopes e = rw (
    keeps.contains fields (txt "scopes") _ e,
    keeps.at fields (txt "scopes") _ e,
    keeps.is_array (map (λ scope. maker.of_text (scope_to_string scope)) scopes),
    keeps.elements (map (λ scope. maker.of_text (scope_to_string scope)) scopes),
    texts_of-made scopes,
    read_scopes-scope_to_string scopes,
  )

  read_stored_token-made :
      (token : TokenInfo)
      → read_stored_token lib from_time_t (maker.of_fields (token_fields maker second token))
        ≡ ok (to_seconds second token)
  unfolding read_stored_token token_fields find text_eq txt
  read_stored_token-made token =
      let fields = token_fields maker second token in
      rw (
        keeps.text_value fields (txt "access_token") token.access_token (txt "") refl,
        keeps.text_value fields (txt "refresh_token") token.refresh_token (txt "") refl,
        keeps.text_value fields (txt "token_type") token.token_type (txt "Bearer") refl,
        keeps.bool_value fields (txt "is_valid") token.is_valid false refl,
        read_time-made fields (txt "expires_at") (token.expires_at / second) refl,
        read_time-made fields (txt "issued_at") (token.issued_at / second) refl,
        scopes_of-made fields token.scopes refl,
      )

  module _ {S : Type 0} (files : Files S) (read : Text → Outcome J)
      (reads : (filepath text : Text) (s s' : S)
        → files.write filepath text s ≡ (true, s')
        → (files.readable filepath s' ≡ true) × (files.content filepath s' ≡ text)) where
    -- The text of the token's object is read as that object.
    abbrev pub IsParsed : TokenInfo → Type 0
    IsParsed token =
        let json = maker.of_fields (token_fields maker second token) in
        (text : Text) → maker.dump json ≡ ok text → read text ≡ ok json

    written-load :
        (token : TokenInfo) (filepath : Text) (o : Outcome Text) (s : S)
        → IsParsed token
        → maker.dump (maker.of_fields (token_fields maker second token)) ≡ o
        → (write_dump files filepath o s).0 ≡ true
        → load_token_from_file lib from_time_t files read filepath (write_dump files filepath o s).1
          ≡ to_seconds second token
    unfolding write_dump load_token_from_file or_default
    written-load token filepath (throw e) s parses dumped saved = cc
    written-load token filepath (ok text) s parses dumped saved =
        let (readable, content) =
          reads filepath text s (files.write filepath text s).1
            (λ i. (saved i, (files.write filepath text s).1)) in
        rw (readable, content, parses text dumped, read_stored_token-made token)

    -- If nlohmann::json keeps what it is made of and reads back what it dumps of the token, a file has what
    -- was written to it, and from_time_t counts seconds, then a token that saveTokenToFile says it has saved is the token that
    -- loadTokenFromFile loads, with its scopes and its times cut to whole seconds.
    pub save_token_to_file-load :
        (token : TokenInfo) (filepath : Text) (s : S)
        → IsParsed token
        → (save_token_to_file maker files second token filepath s).0 ≡ true
        → load_token_from_file lib from_time_t files read filepath
            (save_token_to_file maker files second token filepath s).1
          ≡ to_seconds second token
    unfolding save_token_to_file
    save_token_to_file-load token filepath s parses saved =
        elim (Bool-cases (files.create filepath s).0) [
          | inl opened ↦ rw opened (
              written-load token filepath _ (files.create filepath s).1 parses refl
                (rw opened at saved))
          | inr closed ↦ (let no_way = rw closed at saved in cc)
        ]
