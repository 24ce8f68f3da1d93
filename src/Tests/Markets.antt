-- ===== src/Tests/Markets.antt =====
-- src/market.cpp with an answer that holds a quote and a null.
use libtradier.Base.{ℕ, ◌≡◌, refl, ◌↔◌, false, [], ◌∷◌, none}
use libtradier.Text.{txt, text_eq}
use libtradier.Int.{ℤ}
use libtradier.Errors.{ok}
use libtradier.ApiResult.{of_value, try_execute}
use libtradier.Http.{success}
use libtradier.Service.{perform, read_answer, parse_response}
use libtradier.Dates.{Calendar}
use libtradier.Market.Quotes.{Quote, no_quote}
use libtradier.Market.Operations.{get_quotes}
use libtradier.Market.Laws.{Quoted, get_quotes-Listed}
use libtradier.Tests.Documents.{Doc, null, text, array, nil, item, object, end, field, documents}
use libtradier.Tests.Orders.{numbers, server}

abbrev quotes_document : Doc
quotes_document = object (
    field (txt "quotes")
      (object (
        field (txt "quote")
          (array (item null (item (object (field (txt "symbol") (text (txt "AAPL")) end)) nil)))
          end))
      end)

abbrev pub no_dates : Calendar ℕ
no_dates = record { get_time = λ t. none; mktime = λ tm. ℤ.pos tm }

abbrev apple : Quote ℕ
apple = record (no_quote numbers) { symbol = txt "AAPL" }

get_quotes-Listed_example :
    ((get_quotes
        (documents (λ t. ok quotes_document))
        numbers
        no_dates
        (server 200)
        (txt "AAPL" ∷ [])
        false
        0).0
      ≡ of_value (apple ∷ []))
    ↔ Quoted
        (documents (λ t. ok quotes_document))
        numbers
        no_dates
        (server 200)
        (txt "AAPL" ∷ [])
        false
        0
        (apple ∷ [])
get_quotes-Listed_example =
    get_quotes-Listed (documents (λ t. ok quotes_document)) numbers no_dates (server 200)
      (txt "AAPL" ∷ []) false 0 (apple ∷ [])

get_quotes_run :
    (get_quotes
      (documents (λ t. ok quotes_document))
      numbers
      no_dates
      (server 200)
      (txt "AAPL" ∷ [])
      false
      0).0
    ≡ of_value (apple ∷ [])
unfolding get_quotes no_quote perform try_execute read_answer success parse_response text_eq txt
get_quotes_run = refl
