-- ===== src/Auth/TokenFile.antt =====
-- saveTokenToFile, loadTokenFromFile and deleteTokenFile of src/auth.cpp. Points of time are numbers of
-- clock ticks, with `second` ticks in a second.
pub mod Restored
use libtradier.Base.{ℕ, ◌/◌, Bool, true, false, ◌&&◌, List, [], ◌∷◌, map, if◌then◌else◌}
use libtradier.Text.{Text, txt}
use libtradier.Int.{ℤ}
use libtradier.Errors.{Outcome, ok, throw, ◌>>=◌, or_default}
use libtradier.Service.{Json}
use libtradier.Auth.Scopes.{TokenScope, scope_to_string, read_scopes}
use libtradier.Auth.Tokens.{TokenInfo}

-- How nlohmann::json makes a value; dump throws at a text that is not UTF-8.
pub record JsonMaker (J : Type 0) : Type 0 where
  pub of_text : Text → J
  pub of_number : ℕ → J
  pub of_bool : Bool → J
  pub of_list : List J → J
  pub of_fields : List (Text × J) → J
  pub dump : J → Outcome Text

-- The files of the state `S`. `create` is the constructor of std::ofstream, which empties the file, with
-- is_open; `write` is operator<< with good(); `readable` is is_open of std::ifstream,
-- and `content` what is read through it.
pub record Files (S : Type 0) : Type 0 where
  pub create : Text → S → Bool × S
  pub write : Text → Text → S → Bool × S
  pub readable : Text → S → Bool
  pub content : Text → S → Text
  pub remove : Text → S → Bool × S

-- TokenInfo{}
unfoldable pub no_token : TokenInfo
no_token = record {
  access_token = txt "";
  refresh_token = txt "";
  token_type = txt "Bearer";
  expires_at = 0;
  issued_at = 0;
  scopes = [];
  is_valid = false;
}

module _ {J : Type 0} (maker : JsonMaker J) (second : ℕ) where
  unfoldable pub token_fields : TokenInfo → List (Text × J)
  token_fields token =
      (txt "access_token", maker.of_text token.access_token)
      ∷ (txt "refresh_token", maker.of_text token.refresh_token)
      ∷ (txt "token_type", maker.of_text token.token_type)
      ∷ (txt "expires_at", maker.of_number (token.expires_at / second))
      ∷ (txt "issued_at", maker.of_number (token.issued_at / second))
      ∷ (txt "is_valid", maker.of_bool token.is_valid)
      ∷ (
        txt "scopes",
        maker.of_list (map (λ scope. maker.of_text (scope_to_string scope)) token.scopes),
      )
      ∷ []

module _ {S : Type 0} (files : Files S) where
  -- The file has been opened by now.
  unfoldable pub write_dump : Text → Outcome Text → S → Bool × S
  write_dump filepath (throw e) s = (false, s)
  write_dump filepath (ok text) s = files.write filepath text s

  unfoldable pub delete_token_file : Text → S → Bool × S
  delete_token_file filepath s = files.remove filepath s

module _ {J S : Type 0} (maker : JsonMaker J) (files : Files S) (second : ℕ) where
  unfoldable pub save_token_to_file : TokenInfo → Text → S → Bool × S
  unfolding write_dump token_fields
  save_token_to_file token filepath s =
      let (opened, s') = files.create filepath s in
      if opened
      then write_dump files filepath
          (maker.dump (maker.of_fields (token_fields maker second token))) s'
      else (false, s')

module _ {J D : Type 0} (lib : Json J D) (from_time_t : ℤ → ℕ) where
  -- system_clock::from_time_t of a field, where it is there
  unfoldable pub read_time : J → Text → Outcome ℕ
  read_time json key =
      if lib.contains json key
      then lib.get_long (lib.at json key) >>= (λ seconds. ok (from_time_t seconds))
      else ok 0

  unfoldable pub texts_of : List J → Outcome (List Text)
  texts_of [] = ok []
  texts_of (json ∷ jsons) =
      lib.get_text json >>= (λ text. texts_of jsons >>= (λ texts. ok (text ∷ texts)))

  -- The chain of tests over the scopes is that of parseScopeString.
  unfoldable pub scopes_of : J → Outcome (List TokenScope)
  unfolding texts_of
  scopes_of json =
      if lib.contains json (txt "scopes") && lib.is_array (lib.at json (txt "scopes"))
      then texts_of (lib.elements (lib.at json (txt "scopes")))
        >>= (λ texts. ok (read_scopes texts))
      else ok []

  unfoldable pub read_stored_token : J → Outcome TokenInfo
  unfolding read_time scopes_of
  read_stored_token json = do
    access_token ← lib.text_value json (txt "access_token") (txt "")
    refresh_token ← lib.text_value json (txt "refresh_token") (txt "")
    token_type ← lib.text_value json (txt "token_type") (txt "Bearer")
    is_valid ← lib.bool_value json (txt "is_valid") false
    expires_at ← read_time json (txt "expires_at")
    issued_at ← read_time json (txt "issued_at")
    scopes ← scopes_of json
    ok (record {
      access_token = access_token;
      refresh_token = refresh_token;
      token_type = token_type;
      expires_at = expires_at;
      issued_at = issued_at;
      scopes = scopes;
      is_valid = is_valid;
    })

  -- `read` is operator>> of a stream with the given content, which, unlike json::parse, takes a value
  -- with text behind it.
  unfoldable pub load_token_from_file :
      {S : Type 0} → Files S → (Text → Outcome J) → Text → S → TokenInfo
  unfolding or_default no_token read_stored_token
  load_token_from_file files read filepath s =
      if files.readable filepath s
      then or_default no_token (read (files.content filepath s) >>= read_stored_token)
      else no_token
