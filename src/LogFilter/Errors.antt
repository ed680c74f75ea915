-- ===== src/LogFilter/Errors.antt =====
-- `IsRateLimitOrRangeErr` (go/logfilter/logfilter.go).
use eip_toolkit.Prelude.{Bool, false, ◌||◌, Option, none, some, codes, bytes_eq, GoError, message}

-- A nil error is `none`.
unfoldable pub is_rate_limit_or_range_err : Option GoError → Bool
is_rate_limit_or_range_err none = false
is_rate_limit_or_range_err (some e) =
    let msg = message e in
    bytes_eq msg (codes "block range too large")
    || bytes_eq msg (codes "query timeout")
    || bytes_eq msg (codes "rate limit exceeded")
