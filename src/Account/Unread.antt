-- ===== src/Account/Unread.antt =====
-- What the functions of src/account.cpp return when a SafeJsonParser is converted to a text.
use libtradier.Base.{◌&&◌, ◌≡◌, refl, Bool, true, false, not, List, [], if◌then◌else◌}
use libtradier.Text.{Text, txt}
use libtradier.Int.{ℤ}
use libtradier.Errors.{Outcome, ok}
use libtradier.Errors.Ensures.{Ensures, returns, throws, if-Ensures}
use libtradier.ApiResult.{of_value}
use libtradier.Validation.{Doubles}
use libtradier.Service.{Client, Json}
use libtradier.Dates.{Calendar}
use libtradier.SafeJson.{holds_key, field_of, SafeJsonParser}
use libtradier.Market.Reading.{present}
use libtradier.Account.Types.{
  Account, AccountProfile, Position, Order, no_account, no_profile, no_order,
}
use libtradier.Account.Parsers.{
  parse_failed, items_at, parse_account, parse_account_profile, parse_positions, parse_order,
  parse_orders,
}
use libtradier.Account.Answers.{perform_safe, under_key}
use libtradier.Account.Operations.{
  get_profile_call, get_account_call, get_positions_call, get_orders_call, get_order_call,
  get_profile, get_account, get_positions, get_orders, get_order,
}
use libtradier.Account.Ensured.{run_safe-Ensures}

-- What the parsers make of a value that is no object
unread :
    {A : Type 0} (label : Text) (null object : Bool) (x : Outcome A) (d : A)
    → object ≡ false
    → Ensures (λ a. a ≡ d) (parse_failed label (if not null && object then x else ok d))
unfolding parse_failed
unread label true object x d h = returns refl
unread label false object x d h = rw h (returns refl)

unread_items :
    {A : Type 0} (label : Text) (null object there : Bool) (x : Outcome A) (d : A)
    → object ≡ false
    → Ensures (λ a. a ≡ d) (parse_failed label (if not null && object && there then x else ok d))
unfolding parse_failed
unread_items label true object there x d h = returns refl
unread_items label false object there x d h = rw h (returns refl)

module _ {J D Tm S : Type 0} (lib : Json J D) (doubles : Doubles D) (calendar : Calendar Tm)
    (as_json : SafeJsonParser J → J) (client : Client S) where
  abbrev pub IsNoObject : Type 0
  IsNoObject = (p : SafeJsonParser J) → lib.is_object (as_json p) ≡ false

  parse_account_profile-unread :
      (json : J)
      → lib.is_object json ≡ false
      → Ensures (λ a. a ≡ no_profile) (parse_account_profile lib doubles calendar json)
  unfolding parse_account_profile
  parse_account_profile-unread json h =
      unread (txt "Failed to parse account profile: ") (lib.is_null json) (lib.is_object json) _
        no_profile h

  parse_account-unread :
      (json : J)
      → lib.is_object json ≡ false
      → Ensures (λ a. a ≡ no_account) (parse_account lib doubles calendar json)
  unfolding parse_account
  parse_account-unread json h =
      unread (txt "Failed to parse account: ") (lib.is_null json) (lib.is_object json) _ no_account
        h

  parse_order-unread :
      (json : J)
      → lib.is_object json ≡ false
      → Ensures (λ a. a ≡ no_order doubles) (parse_order lib doubles calendar json)
  unfolding parse_order
  parse_order-unread json h =
      unread (txt "Failed to parse order: ") (lib.is_null json) (lib.is_object json) _
        (no_order doubles) h

  parse_positions-unread :
      (json : J)
      → lib.is_object json ≡ false
      → Ensures (λ a. a ≡ []) (parse_positions lib doubles calendar json)
  unfolding parse_positions items_at
  parse_positions-unread json h =
      unread_items (txt "Failed to parse positions array: ") (lib.is_null json) (lib.is_object json)
        (present lib json (txt "position")) _ [] h

  parse_orders-unread :
      (json : J)
      → lib.is_object json ≡ false
      → Ensures (λ a. a ≡ []) (parse_orders lib doubles calendar json)
  unfolding parse_orders items_at
  parse_orders-unread json h =
      unread_items (txt "Failed to parse orders array: ") (lib.is_null json) (lib.is_object json)
        (present lib json (txt "order")) _ [] h

  under_key-Ensures :
      {A : Type 0} {P : A → Type 0} (key message : Text) (parser : J → Outcome A)
      (p : SafeJsonParser J)
      → ((json : J) → lib.is_object json ≡ false → Ensures P (parser json))
      → IsNoObject
      → Ensures P (under_key lib as_json key message parser p)
  unfolding under_key
  under_key-Ensures key message parser p all none_is =
      if-Ensures (not (holds_key lib p key)) (λ h. throws)
        (λ h. all _ (none_is (field_of lib p key)))

  -- If the conversion of a SafeJsonParser to a nlohmann::json never gives an object, as it does when it
  -- goes through the conversion to std::string, then getProfile, getAccount, getPositions, getOrders
  -- and getOrder read nothing of an answer: a value that they return is the default one.
  pub account_answers-unread :
      (number : Text) (order_id : ℤ) (s : S)
      → IsNoObject
      → ((v : AccountProfile)
          → (get_profile lib doubles calendar as_json client s).0 ≡ of_value v
          → v ≡ no_profile)
        × ((v : Account)
            → (get_account lib doubles calendar as_json client number s).0 ≡ of_value v
            → v ≡ no_account)
        × ((v : List (Position D))
            → (get_positions lib doubles calendar as_json client number s).0 ≡ of_value v
            → v ≡ [])
        × ((v : List (Order D))
            → (get_orders lib doubles calendar as_json client number s).0 ≡ of_value v
            → v ≡ [])
        × ((v : Order D)
            → (get_order lib doubles calendar as_json client number order_id s).0 ≡ of_value v
            → v ≡ no_order doubles)
  unfolding get_profile get_account get_positions get_orders get_order perform_safe
  account_answers-unread number order_id s h = (
    λ v. run_safe-Ensures lib client get_profile_call _ get_profile_call.prepare s v (λ p.
        under_key-Ensures (txt "profile") (txt "Invalid profile response format")
          (parse_account_profile lib doubles calendar) p parse_account_profile-unread h),
    λ v.
        run_safe-Ensures lib client (get_account_call number) _ (get_account_call number).prepare s
          v
          (λ p.
            under_key-Ensures (txt "account") (txt "Invalid account response format")
              (parse_account lib doubles calendar) p parse_account-unread h),
    λ v.
        run_safe-Ensures lib client (get_positions_call number) _
          (get_positions_call number).prepare s v (λ p. parse_positions-unread (as_json p) (h p)),
    λ v.
        run_safe-Ensures lib client (get_orders_call number) _ (get_orders_call number).prepare s v
          (λ p. parse_orders-unread (as_json p) (h p)),
    λ v.
        run_safe-Ensures lib client (get_order_call number order_id) _
          (get_order_call number order_id).prepare s v
          (λ p.
            under_key-Ensures (txt "order") (txt "Invalid order response format")
              (parse_order lib doubles calendar) p parse_order-unread h),
  )
