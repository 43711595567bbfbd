-- ===== src/Host.antt =====
-- What the program takes from the Go runtime and has no code for: IEEE 754 arithmetic and its
-- shortest decimal print, and the RFC 3339 parser of package `time`. They are parameters.
use edgedelta_lambda_extensi.Common.{◌/◌, ◌%◌, ◌^◌, Bool, Option, ℤ, ◌==◌}
use edgedelta_lambda_extensi.Text.Bytes.{Bytes}
use edgedelta_lambda_extensi.Json.Value.{Float64}
use edgedelta_lambda_extensi.Json.Quote.{IsPrintable}

pub record Host : Type 0 where
  pub sub : Float64 → Float64 → Float64
  pub div : Float64 → Float64 → Float64
  pub mul : Float64 → Float64 → Float64
  -- `float64(n)` of an int64
  pub from_int64 : ℤ → Float64
  -- how `encoding/json` prints a finite float64
  pub format_float : Float64 → Bytes
  -- `time.Parse(time.RFC3339Nano, s)`: nanoseconds since the zero `time.Time`
  pub parse_time : Bytes → Option ℤ

-- A printed number holds digits, signs, a point and an `e`.
abbrev pub PrintsFloats : Host → Type 0
PrintsFloats host = (x : Float64) → IsPrintable (host.format_float x)

-- 100.0
abbrev pub hundred : Float64
hundred = 0x4059_0000_0000_0000

-- `x == 0`, for both zeros.
unfoldable pub is_zero : Float64 → Bool
is_zero x = x % 2 ^ 63 == 0

-- NaN or an infinity: the exponent has all its bits set.
unfoldable pub is_special : Float64 → Bool
is_special x = x / 2 ^ 52 % 2048 == 2047
