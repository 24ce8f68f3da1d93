-- ===== src/Tests/Accounts.antt =====
-- src/account.cpp with the balances of an account; a SafeJsonParser is converted to a text.
use libtradier.Base.{ℕ, ◌≡◌, refl, [], ◌∷◌}
use libtradier.Text.{txt, text_eq}
use libtradier.Errors.{ok, or_default}
use libtradier.ApiResult.{of_value, try_execute}
use libtradier.Http.{success}
use libtradier.Service.{or_throw, to_option}
use libtradier.SafeJson.{SafeJsonParser, convert}
use libtradier.Account.Types.{AccountBalances}
use libtradier.Account.Operations.{get_balances}
use libtradier.Account.Balances.{IsMark, get_balances-IsMark}
use libtradier.Tests.Documents.{Doc, text, number, object, end, field, documents}
use libtradier.Tests.Orders.{numbers, server}
use libtradier.Tests.Markets.{no_dates}

abbrev balances_document : Doc
balances_document = object (
    field (txt "balances")
      (object (
        field (txt "account_number") (text (txt "VA12345678"))
          (field (txt "total_equity") (number 100) end)))
      end)

abbrev string_of : SafeJsonParser Doc → Doc
string_of p = text (
    convert (documents (λ t. ok balances_document)) (documents (λ t. ok balances_document)).get_text
      [] p)

abbrev marked : AccountBalances ℕ
marked = record {
  account_number = 1 ∷ [];
  account_type = 1 ∷ [];
  total_equity = 100;
  total_cash = 0;
  buying_power = 0;
  market_value = 0;
  day_change = 0;
}

balances_run :
    (get_balances
      (documents (λ t. ok balances_document))
      numbers
      no_dates
      string_of
      (server 200)
      (txt "VA12345678")
      0).0
    ≡ of_value marked
unfolding get_balances try_execute success or_throw to_option text_eq txt or_default
balances_run = refl

get_balances-IsMark_example : IsMark marked.account_number × IsMark marked.account_type
get_balances-IsMark_example =
    get_balances-IsMark (documents (λ t. ok balances_document)) numbers no_dates string_of
      (server 200) (txt "VA12345678") 0 marked balances_run
