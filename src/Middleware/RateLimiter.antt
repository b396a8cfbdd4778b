-- ===== src/Middleware/RateLimiter.antt =====
-- `apiLimiter` and `transactionLimiter` of src/utils/middleware/rate-limiter.ts: the options that
-- the library express-rate-limit is given, and the handler that it calls for a request above the
-- limit. Amounts of the settings are whole numbers, `Number(…)` of a variable is a parameter.
use transaction_service.Shared.{
  ℕ, String, Option, none, some, Bool, true, false, num_or, Number, finite, pos,
}

pub record LimitedRequest : Type 0 where
  pub ip : Option String
  pub path : String
  pub user_agent : Option String

pub record LimiterLine : Type 0 where
  pub text : String
  pub ip : Option String
  pub path : String
  pub user_agent : Option String

pub record LimiterAnswer : Type 0 where
  pub status : ℕ
  pub error : String
  pub retry_after : Option String

-- An option that is left out is `none`.
pub record LimiterOptions : Type 0 where
  pub window_ms : Number
  pub max : Number
  pub message : String
  pub standard_headers : Option Bool
  pub legacy_headers : Option Bool
  pub skip_successful_requests : Option Bool
  pub handler : LimitedRequest → Option String → LimiterLine × LimiterAnswer

-- A handler's log line and answer. `retry_after` is the header that the library has set.
abbrev too_many : String → String → LimitedRequest → Option String → LimiterLine × LimiterAnswer
too_many text message req retry_after = (
  record { text = text; ip = req.ip; path = req.path; user_agent = req.user_agent },
  record { status = 429; error = message; retry_after = retry_after },
)

-- Numbers are in hundredths.
unfoldable pub api_limiter : Number → Number → LimiterOptions
api_limiter window_setting max_setting = record {
  window_ms = num_or window_setting (finite (pos 90000000));
  max = num_or max_setting (finite (pos 10000));
  message = "Too many requests from this IP, please try again later";
  standard_headers = some true;
  legacy_headers = some false;
  skip_successful_requests = none;
  handler = too_many "Rate limit exceeded" "Too many requests, please try again later";
}

unfoldable pub transaction_limiter : LimiterOptions
transaction_limiter = record {
  window_ms = finite (pos 6000000);
  max = finite (pos 1000);
  message = "Too many transaction requests, please slow down";
  standard_headers = none;
  legacy_headers = none;
  skip_successful_requests = some false;
  handler =
      too_many "Transaction rate limit exceeded"
        "Too many transaction requests, please try again later";
}
