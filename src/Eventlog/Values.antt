-- ===== src/Eventlog/Values.antt =====
-- How internal/eventlog prints and orders values of any type: `usageString`, `usageNumber` and
-- `usageLater` of usage.go.
use Prim.Native.Nat.{Ordering}
use Prim.Native.String.{compare}
use wekango.Base.{
  ℕ, String, Bool, true, false, List, [], ◌∷◌, ◌==◌, Option, none, some, if◌then◌else◌,
}
use wekango.Base.Int.{ℤ, pos}
use wekango.Base.Text.{join, trim_js}
use wekango.Bson.{
  Value, null, bool, int, double, str, date, time, nil_obj, nil_arr, arr, obj, Items, nil, cons,
}
use wekango.Env.{Floats}

-- What the standard library does with a value: `fmt.Sprint`, and a time's milliseconds.
pub record Printer : Type 0 where
  pub sprint : Value → String
  pub floats : Floats
  pub open floats use *
  pub unix_milli : ℕ → ℤ

module _ (p : Printer) where
  unfoldable mutual
    unfolding join

    pub usage_string : Value → String
    usage_string null = "null"
    usage_string (str s) = s
    usage_string (obj k d) = "[object Object]"
    usage_string (nil_obj k) = "[object Object]"
    usage_string (arr k vs) = join "," (usage_parts vs)
    usage_string (nil_arr k) = ""
    usage_string v = p.sprint v

    pub usage_parts : Items → List String
    usage_parts nil = []
    usage_parts (cons null vs) = "" ∷ usage_parts vs
    usage_parts (cons v vs) = usage_string v ∷ usage_parts vs

  -- The pattern of `math.NaN()`.
  abbrev pub nan : ℕ
  nan = 0x7ff8000000000001

  abbrev or_nan : Option ℕ → ℕ
  or_nan none = nan
  or_nan (some x) = x

  unfoldable pub usage_number : Value → ℕ
  unfolding trim_js
  usage_number null = 0
  usage_number (time t) = p.of_int (p.unix_milli t)
  usage_number (date ms) = p.of_int ms
  usage_number (int n) = p.of_int n
  usage_number (double x) = x
  usage_number (bool b) = if b then p.of_int (pos 1) else 0
  usage_number (str s) = let t = trim_js s in if t == "" then 0 else or_nan (p.parse t)
  usage_number _ = nan

  abbrev is_greater : Ordering → Bool
  is_greater Ordering.gt = true
  is_greater _ = false

  unfoldable pub usage_later : Value → Value → Bool
  unfolding usage_number
  usage_later (str x) (str y) = is_greater (compare x y)
  usage_later x y = p.less (usage_number y) (usage_number x)
