-- ===== src/Runtime.antt =====
-- What the program calls and does not implement: float64 with strconv.ParseFloat and %g, the regular
-- expressions of the regexp package, and time.ParseDuration. They are parameters of the model.
use slo_exporter.Prelude.{String, Bool, Option, ℤ}

pub record Float64 : Type 1 where
  pub F : Type 0
  pub zero : F
  pub one : F
  pub add : F → F → F
  pub sub : F → F → F
  pub lt : F → F → Bool
  pub le : F → F → Bool
  pub eq : F → F → Bool
  -- strconv.ParseFloat(s, 64), with `none` for its error
  pub parse : String → Option F
  -- fmt.Sprintf("%g", x)
  pub format : F → String

pub record TextLibrary : Type 1 where
  pub Regexp : Type 0
  -- regexp.Compile
  pub compile : String → Option Regexp
  -- (*Regexp).MatchString
  pub match_string : Regexp → String → Bool
  -- time.ParseDuration, in nanoseconds
  pub parse_duration : String → Option ℤ
