-- ===== src/Client.antt =====
-- The facade TradierClient of include/tradier/client.hpp and src/client.cpp, and the four request
-- functions of HttpClient that it forwards to.
pub mod Authorized
use libtradier.Base.{ℕ, Bool, Option, none, some, is_empty, if◌then◌else◌}
use libtradier.Text.{Text, txt}
use libtradier.Errors.{Exception, Outcome, ok, throw}
use libtradier.FormMap.{FormMap}
use libtradier.Config.{Config}
use libtradier.Http.{Response, Method}
use libtradier.HttpClient.{
  HttpClient, Net, http_client, perform_request, set_rate_limit, enable_rate_limit,
  set_retry_policy, enable_retries,
}

pub record TradierClient (D : Type 0) : Type 0 where
  pub config : Config
  pub http : HttpClient D

module _ {D : Type 0} where
  -- The constructor; `two` is the double 2.0, `minute` the window, and `start` the time.
  unfoldable pub tradier_client : Config → D → ℕ → ℕ → Outcome (TradierClient D)
  unfolding http_client
  tradier_client config two minute start =
      if is_empty config.access_token
      then throw (Exception.authentication (txt "Access token required"))
      else ok (record { config = config; http = http_client config two minute start })

  unfoldable pub client_set_rate_limit : TradierClient D → ℕ → ℕ → ℕ → TradierClient D
  unfolding set_rate_limit
  client_set_rate_limit c max_requests window start = record c {
    http = set_rate_limit c.http max_requests window start;
  }

  unfoldable pub client_enable_rate_limit : TradierClient D → Bool → TradierClient D
  unfolding enable_rate_limit
  client_enable_rate_limit c enabled = record c { http = enable_rate_limit c.http enabled }

  unfoldable pub client_set_retry_policy : TradierClient D → ℕ → ℕ → D → TradierClient D
  unfolding set_retry_policy
  client_set_retry_policy c max_retries delay multiplier = record c {
    http = set_retry_policy c.http max_retries delay multiplier;
  }

  unfoldable pub client_enable_retries : TradierClient D → Bool → TradierClient D
  unfolding enable_retries
  client_enable_retries c enabled = record c { http = enable_retries c.http enabled }

module _ {D S : Type 0} (backoff : ℕ → D → ℕ → ℕ) (net : Net S) where
  returned :
      TradierClient D
      → Option (Outcome Response × HttpClient D × S)
      → Option (Outcome Response × TradierClient D × S)
  returned c none = none
  returned c (some (outcome, http, s)) = some (outcome, record c { http = http }, s)

  -- get, post, put and del, by the method; `none`: the rate limit still holds the request.
  unfoldable pub client_request :
      ℕ
      → Method
      → Text
      → FormMap
      → TradierClient D
      → S
      → Option (Outcome Response × TradierClient D × S)
  unfolding perform_request returned
  client_request fuel method endpoint params c s =
      returned c (perform_request backoff net fuel method endpoint params c.http s)
