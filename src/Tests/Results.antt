-- ===== src/Tests/Results.antt =====
-- include/tradier/common/api_result.hpp at concrete results.
use libtradier.Text.{Text, txt}
use libtradier.Errors.{ApiError, api_error, Exception, Outcome, throw}
use libtradier.ApiResult.{ApiResult, of_error}

abbrev busy : ApiError
busy = api_error 429 (txt "slow down")

abbrev busy_call : Outcome Text
busy_call = throw (Exception.api busy)

abbrev failed : ApiResult Text
failed = of_error busy

abbrev shout : Text → Outcome Text
shout t = throw (Exception.parse t)
