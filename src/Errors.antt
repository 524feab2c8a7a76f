-- ===== src/Errors.antt =====
-- Go's error values, as far as the code looks into them: their text, and the sentinel that
-- `errors.Is` asks for.
pub mod Quote
use jasm.Base.{Bool, true, false, ◌++◌}
use jasm.Text.{Bytes, codes}

pub data Error : Type 0 where
  -- fmt.Errorf with no %w, and an error of code that is not modelled
  errorf : Bytes → Error
  -- fmt.Errorf("text%w", err)
  wrap : Bytes → Error → Error
  -- ErrBWRateLimited
  bw_rate_limited : Error

-- err.Error()
unfoldable pub message : Error → Bytes
message (errorf text) = text
message (wrap text e) = text ++ message e
message bw_rate_limited = codes "rate limited by Bitwarden API"

-- errors.Is(err, ErrBWRateLimited)
unfoldable pub is_bw_rate_limited_sentinel : Error → Bool
is_bw_rate_limited_sentinel (errorf text) = false
is_bw_rate_limited_sentinel (wrap text e) = is_bw_rate_limited_sentinel e
is_bw_rate_limited_sentinel bw_rate_limited = true
