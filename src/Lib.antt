-- ===== src/Lib.antt =====
-- libtradier is a C++ client of the Tradier brokerage API. A TradierClient holds a configuration
-- and an HttpClient; each service (trading, watchlists, accounts, market data, authentication,
-- streaming) checks its arguments, sends one request through the client, parses the JSON body of
-- the answer, and hands the caller an ApiResult, which holds a value or an error. This library
-- models that path from the environment's settings to the result of a call, and the stream of
-- events with its socket and its threads, with the routines beside it for bulk conversion and for
-- logging, and states what each part promises.
--
-- The parts, each with the file that models it. Paths are those of the repository.
--
--   Base, Text, Int — the library names the others share; std::string as a list of bytes; int with
--     std::to_string and std::stoi.
--   Errors — the exception classes of include/tradier/common/errors.hpp, and `Outcome`, a call
--     that returns or throws; Errors/Ensures is a predicate on what it returns.
--   ApiResult — include/tradier/common/api_result.hpp, with tryExecute, andThen (map is the same
--     code) and orElse.
--   Codec — base64Encode of src/common/utils.cpp and base64UrlEncode of src/auth.cpp
--     (Codec/Base64), urlEncode of include/tradier/common/utils.hpp (Codec/UrlEncode);
--     Codec/Base64/Rfc4648 is the encoding as RFC 4648 describes it, the specification.
--   FormMap, Query — std::map from strings to strings as its sorted pairs, and the query text that
--     performRequest writes from it, with the parser of such texts that the round trip needs.
--   RateLimiter — the class of include/tradier/common/async.hpp; the lock makes a call of
--     tryAcquire one step; waitForSlot gives the lock back in each wait, and the calls that other
--     threads make there come between its turns. The clock's readings and the times of these calls
--     are arguments.
--   Config — include/tradier/common/config.hpp and src/common/config.cpp; the environment is a
--     function.
--   Http, HttpClient — include/tradier/common/types.hpp and src/common/http_client.cpp.
--     performRequest is `perform_request`, its retry loop `attempt_loop`. libcurl, the clock and
--     the sleeping thread are the record `Net`, so every theorem holds for every network; `S` is
--     the state of the world. What other threads do to the limiter of a client while a request
--     waits for a slot is an argument; what they do to it while a request is sent is left out, so
--     it is the limiter that the next call starts with.
--   Client — TradierClient of include/tradier/client.hpp and src/client.cpp, which the services
--     call and which forwards to HttpClient; get, post, put and del are `client_request`, by the
--     method.
--   ThreadPool — ThreadPool of include/tradier/common/async.hpp as a step relation: enqueue, the
--     workers and shutdown, interleaved at the lock of the queue.
--   Promises — the class Promise of include/tradier/common/async.hpp, with executeAsync and
--     waitWithTimeout; Chains follows two calls of then.
--   Retry — retryWithBackoff of include/tradier/common/async.hpp.
--   Validation — include/tradier/common/validation.hpp. The type double is a parameter with its
--     comparisons and its conversions (`Doubles`).
--   Service — the shape that every service function has, tryExecute around checks, a request and
--     parseResponse of include/tradier/common/json_utils.hpp (AccountService reads its answers
--     with parseResponseSafe, so its functions are built on `perform_safe` of Account/Answers
--     instead); nlohmann::json is the record `Json`, and the client as a service sees it the
--     record `Client`.
--   Trading — include/tradier/trading.hpp, src/trading.cpp and src/json/trading.cpp. Orders has
--     the types and their texts, Requests the forms, Parsers the reading of answers, Operations
--     and Preview the functions of TradingService.
--   Watchlist — include/tradier/watchlist.hpp and src/watchlist.cpp, all seven functions of
--     WatchlistService.
--   Auth — include/tradier/auth.hpp and src/auth.cpp: Scopes, Tokens, States (the state cache),
--     Lookup (what it guarantees), Authorize (the authorization address, its state and its PKCE
--     challenge), Requests and Exchange (the token requests), Redirect (the regular expressions on
--     addresses, written out as functions), TokenFile (saving and loading a token, over
--     nlohmann::json as `JsonMaker` and the files as `Files`). The clock and OpenSSL are the
--     record `System`, the token server and the callbacks the record `TokenNet`.
--   SafeJson, Dates — SafeJsonParser, JsonValidator, parseResponseSafe and parseDateTime of
--     include/tradier/common/json_utils.hpp and src/common/json_utils_base.cpp, and
--     parseISODateTime of src/common/utils.cpp. std::get_time and std::mktime are the record
--     `Calendar`.
--   Account — AccountService of include/tradier/account.hpp and src/account.cpp, with the parsers
--     of src/json/account.cpp. Types has the structs, Answers how the functions read an answer,
--     Ensured, Balances and Unread the proofs.
--   Market — MarketService of include/tradier/market.hpp and src/market.cpp, with the parsers of
--     src/json/market.cpp. Requests has the parameters, Calls and Operations the functions,
--     Fundamentals those on a company; Reading and Tables are how the parsers find a field, a list
--     and a table, and Greeks, Quotes, Chains, Options, History, Days, Company, Actions, Ratios,
--     Statements and Prices are the structs with their parsers. Items, Laws, Refused and Unset
--     have the proofs.
--   Streaming — StreamingService of include/tradier/streaming.hpp, src/streaming.cpp and
--     src/json/streaming.cpp. Events reads an event from a message, Messages filters, counts and
--     delivers it (Filtering, Delivery and Counting have its laws), Threads is ThreadManager,
--     Symbols the set of the subscribed symbols, Session the sessions, Connection connects and
--     disconnects, Subscriptions has the six subscriptions, Heartbeat the loop of the heartbeat
--     thread. Calls is any sequence of calls; Lifecycle, Keeping, Sending and Heartbeats follow
--     what they keep. Handlers may throw and work on the state `S`, and do not call the service
--     back.
--   WebSocket — WebSocketImpl of src/common/websocket_client.cpp as a step relation: the thread
--     that connects and disconnects, one that sends, and the IO thread, interleaved at the steps
--     of their calls: the test of both flags at the start of connect() and disconnect(), the
--     compare-exchange, the start of the thread, the stores of onConnect and of onClose, a pass
--     over the queue, and the clearing at the end of disconnect() are one step each. Boost and
--     OpenSSL are left open: a connection may open, fail and close at any time.
--   Log — the class Logger of include/tradier/common/debug.hpp and src/common/debug.cpp; Reports
--     has the functions that write several lines, Queue follows the queue between the calls and
--     the log thread, Masking is on the token in a request.
--   Simd — src/simd/streaming_simd.cpp and the dispatcher of include/tradier/simd/simd_traits.hpp;
--     Doubling and Agreement compare the versions for different processors, Passes is the lemma on
--     loops that they need.
--   Tests — the theorems at concrete inputs; Tests/Documents is a small JSON library for them.
--
-- Bounds and fuel. The retry loop is recursive in the number of retries left, so it needs no fuel.
-- waitForSlot can run for ever and takes fuel, one unit per turn; RateLimiter/Waiting shows how
-- much is enough when other threads do not use up the limit. std::to_string takes the number
-- itself plus one as fuel. The 64-bit counters of the statistics, of the threads and of the
-- heartbeats wrap. Limits, retry counts and durations are not negative; a negative number of
-- retries skips the loop and is left out.
--
-- Not modelled: the asynchronous variants of the services' functions, which run the synchronous
-- calls on another thread, PerformanceTimer, and what the logger writes about its own calls
-- elsewhere: a call of the logger in another component changes nothing that the component works
-- on, and is left out there. TradingService, WatchlistService, AccountService, MarketService and
-- StreamingService are modelled in full; of WebSocketImpl the parsing of addresses, the TLS
-- settings and the callback are left out, of AuthService the getters and setters of its
-- configuration and its callbacks are left out. Initialising libcurl and freeing its handles is
-- left out: a handle that cannot be made is the failure of the transfer.
pub mod Base
pub mod Text
pub mod Int
pub mod Errors
pub mod ApiResult
pub mod Codec
pub mod FormMap
pub mod Query
pub mod RateLimiter
pub mod Config
pub mod Http
pub mod HttpClient
pub mod ThreadPool
pub mod Promises
pub mod Retry
pub mod Client
pub mod Validation
pub mod Service
pub mod Trading
pub mod Dates
pub mod SafeJson
pub mod Account
pub mod Log
pub mod Market
pub mod Watchlist
pub mod WebSocket
pub mod Simd
pub mod Streaming
pub mod Auth
pub mod Tests
