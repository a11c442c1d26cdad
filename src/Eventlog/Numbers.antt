-- ===== src/Eventlog/Numbers.antt =====
-- How internal/eventlog reads numbers from values: `summaryNumber` of summary.go, and `jsStringNumber`
-- and `UsageFlushInterval` of usage.go.
use Prim.Native.Char.{code}
use wekango.Base.{
  ℕ, ◌+◌, ◌-◌, ◌*◌, ◌%◌, ◌^◌, String, Bool, false, ◌||◌, ◌==◌, Option, none, some, ltb, eqb,
  if◌then◌else◌,
}
use wekango.Base.Int.{ℤ, pos}
use wekango.Base.Text.{within, trim_js}
use wekango.Bson.{Value, null, bool, int, double, str, date, time}
use wekango.Bson.Truth.{double_is_zero, double_is_nan}
use wekango.Eventlog.Values.{Printer, nan}
use wekango.Eventlog.Geo.{float_prefix}

-- `big.Float.SetInt(n).Float64()`
pub record Numbers : Type 0 where
  pub printer : Printer
  pub of_big : ℕ → ℕ

abbrev pub infinity : ℕ
infinity = 0x7ff0000000000000

abbrev pub is_infinite : ℕ → Bool
is_infinite x = eqb (x % 2 ^ 63) infinity

-- The value of a digit of any base up to 16.
abbrev digit_value : ℕ → Option ℕ
digit_value c =
    if within b'0' b'9' c
    then some (c - b'0')
    else if within b'a' b'f' c
    then some (c - b'a' + 10)
    else if within b'A' b'F' c
    then some (c - b'A' + 10)
    else none

abbrev in_base : ℕ → Option ℕ → Option ℕ
in_base base none = none
in_base base (some d) = if ltb d base then some d else none

abbrev next_value : ℕ → ℕ → Option ℕ → (ℕ → Option ℕ) → Option ℕ
next_value base n none more = none
next_value base n (some d) more = more (n * base + d)

-- `SetString` of digits alone.
unfoldable pub radix_from : ℕ → String → ℕ → Option ℕ
radix_from base String.[] n = some n
radix_from base (String.◌∷◌ c s) n =
    next_value base n (in_base base (digit_value (code c))) (radix_from base s)

-- The base that the second character of the text names.
abbrev base_of : ℕ → Option ℕ
base_of c =
    if eqb c b'x' || eqb c b'X'
    then some 16
    else if eqb c b'b' || eqb c b'B'
    then some 2
    else if eqb c b'o' || eqb c b'O'
    then some 8
    else none

abbrev with_digits : String → Option ℕ → Option (ℕ × String)
with_digits ds none = none
with_digits ds (some base) = some (base, ds)

-- The base and the digits of a text that has a prefix for them.
abbrev radix_digits : String → Option (ℕ × String)
radix_digits (String.◌∷◌ z (String.◌∷◌ b (String.◌∷◌ d s))) =
    if eqb (code z) b'0' then with_digits (String.◌∷◌ d s) (base_of (code b)) else none
radix_digits _ = none

abbrev starts_negative : String → Bool
starts_negative String.[] = false
starts_negative (String.◌∷◌ c s) = eqb (code c) b'-'

module _ (n : Numbers) where
  abbrev or_nan : Option ℕ → ℕ
  or_nan none = nan n.printer
  or_nan (some x) = x

  abbrev big_or_nan : Option ℕ → ℕ
  big_or_nan none = nan n.printer
  big_or_nan (some value) = n.of_big value

  -- The parse of a well-formed text fails only out of range, with an infinity as its result.
  abbrev or_infinite : String → Option ℕ → ℕ
  or_infinite s none = if starts_negative s then infinity + 2 ^ 63 else infinity
  or_infinite s (some x) = x

  abbrev decimal_number : String → ℕ
  decimal_number s =
      if s == "Infinity" || s == "+Infinity" || s == "-Infinity" || float_prefix s == s
      then or_infinite s (n.printer.floats.parse s)
      else nan n.printer

  abbrev any_number : String → Option (ℕ × String) → ℕ
  any_number s none = decimal_number s
  any_number s (some (base, ds)) = big_or_nan (radix_from base ds 0)

  -- `jsStringNumber`
  unfoldable pub js_string_number : String → ℕ
  unfolding trim_js float_prefix radix_from
  js_string_number value =
      let s = trim_js value in if s == "" then 0 else any_number s (radix_digits s)

  abbrev text_number : String → ℕ
  text_number s = if s == "" then 0 else or_nan (n.printer.floats.parse s)

  -- `summaryNumber`
  unfoldable pub summary_number : Value → ℕ
  unfolding trim_js
  summary_number null = 0
  summary_number (bool b) = if b then n.printer.floats.of_int (pos 1) else 0
  summary_number (int k) = n.printer.floats.of_int k
  summary_number (double x) = x
  summary_number (date ms) = n.printer.floats.of_int ms
  summary_number (time t) = n.printer.floats.of_int (n.printer.unix_milli t)
  summary_number (str s) = text_number (trim_js s)
  summary_number _ = nan n.printer

  abbrev or_default : ℕ → ℕ
  or_default x =
      if double_is_zero x || double_is_nan x then n.printer.floats.of_int (pos 10000) else x

  abbrev is_out_of_range : ℕ → Bool
  is_out_of_range x =
      n.printer.floats.less x (n.printer.floats.of_int (pos 1))
      || n.printer.floats.less (n.printer.floats.of_int (pos 2147483647)) x
      || is_infinite x

  abbrev milliseconds : ℕ → ℤ
  milliseconds x = if is_out_of_range x then pos 1 else n.printer.floats.to_int x

  -- `UsageFlushInterval`, in milliseconds
  unfoldable pub usage_flush_interval : String → ℤ
  unfolding js_string_number
  usage_flush_interval value = milliseconds (or_default (js_string_number value))
