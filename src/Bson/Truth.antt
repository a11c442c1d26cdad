-- ===== src/Bson/Truth.antt =====
-- JavaScript truthiness, which four packages spell alike: `boardReadTruthy` (api/board_reads.go),
-- `fieldTruthy` (migrations/fields.go), `structuralTruthy` (migrations/structure.go), `fsTruthy`
-- (migrations/files.go), `usageTruthy` (eventlog/usage.go), and its two variants in eventlog.
use Prim.Native.Nat.{ℕ, ◌/◌, ◌%◌, ◌^◌}
use mathlib.Core.Bool.{Bool, true, false, not, ◌&&◌}
use text.Mathlib.Text.{◌==◌}
use wekango.Base.{eqb, if◌then◌else◌}
use wekango.Base.Int.{is_zero}
use wekango.Bson.{Value, null, bool, int, double, str, nil_obj, nil_arr}

-- The value is zero, of either sign.
abbrev pub double_is_zero : ℕ → Bool
double_is_zero bits = eqb (bits % 2 ^ 63) 0

abbrev pub double_is_nan : ℕ → Bool
double_is_nan bits = eqb (bits / 2 ^ 52 % 2 ^ 11) 2047 && not (eqb (bits % 2 ^ 52) 0)

unfoldable pub truthy : Value → Bool
truthy null = false
truthy (bool b) = b
truthy (str s) = not (s == "")
truthy (int n) = not (is_zero n)
truthy (double bits) = not (double_is_zero bits) && not (double_is_nan bits)
truthy _ = true

-- `writerTruthy` takes NaN for true.
unfoldable pub writer_truthy : Value → Bool
writer_truthy null = false
writer_truthy (bool b) = b
writer_truthy (str s) = not (s == "")
writer_truthy (int n) = not (is_zero n)
writer_truthy (double bits) = not (double_is_zero bits)
writer_truthy _ = true

-- `summaryNull` takes a nil map or slice for null.
unfoldable pub summary_null : Value → Bool
summary_null null = true
summary_null (nil_obj k) = true
summary_null (nil_arr k) = true
summary_null _ = false

unfoldable pub summary_truthy : Value → Bool
unfolding summary_null truthy
summary_truthy v = if summary_null v then false else truthy v

unfoldable pub summary_present : Value → Bool
unfolding summary_null
summary_present (str s) = not (s == "")
summary_present v = not (summary_null v)
