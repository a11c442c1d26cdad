-- ===== src/Env.antt =====
-- What the program calls and does not implement: the MongoDB driver with the server behind it, the
-- clock and the random source, whose calls read and change a `World`; and the cryptographic
-- functions. Other clients act on the same database, so the world that a call returns need not
-- be one that this program made.
use Prim.Native.Nat.{ℕ}
use Prim.Native.String.{String}
use mathlib.Core.Bool.{Bool}
use mathlib.Core.List.{List}
use mathlib.Core.Option.{Option}
use wekango.Base.Int.{ℤ}
use wekango.Base.Text.{◌⊕◌}
use wekango.Base.Exec.{Exec, Result}
use wekango.Bson.{Value, Fields}

-- `mongo.ErrNoDocuments`, or any other error with its text.
pub data Error : Type 0 where
  no_documents : Error
  failure : String → Error

-- `err.Error()`
abbrev pub error_text : Error → String
error_text no_documents = "mongo: no documents in result"
error_text (failure message) = message

-- `fmt.Errorf("…: %w", err)`
abbrev pub wrap : String → Error → Error
wrap context e = failure (context ⊕ error_text e)

-- `options.Find()`: the sort and the projection, empty when not set.
pub record FindOptions : Type 0 where
  pub order : Fields
  pub projection : Fields

-- `mongo.UpdateResult`
pub record Updated : Type 0 where
  pub matched : ℕ
  pub modified : ℕ

-- The arithmetic of `float64`, on IEEE 754 patterns.
pub record Floats : Type 0 where
  -- `float64(n)`
  pub of_int : ℤ → ℕ
  -- `int64(x)`
  pub to_int : ℕ → ℤ
  pub add : ℕ → ℕ → ℕ
  pub sub : ℕ → ℕ → ℕ
  pub less : ℕ → ℕ → Bool
  pub floor : ℕ → ℕ
  -- `strconv.ParseFloat(s, 64)`, none on an error
  pub parse : String → Option ℕ

pub record Env : Type 1 where
  pub World : Type 0
  -- collection, filter, projection
  pub find_one : String → Fields → Fields → Exec World Error Fields
  -- collection, filter, options
  pub find : String → Fields → FindOptions → Exec World Error (List Fields)
  -- The documents that the cursor of a `Find` gives in turn, given at once; an error where it stops.
  pub cursor : String → Fields → FindOptions → Exec World Error (List (Result Error Fields))
  pub count_documents : String → Fields → Exec World Error ℕ
  -- collection, key, filter
  pub distinct : String → String → Fields → Exec World Error (List Value)
  -- collection, filter, update, upsert
  pub update_one : String → Fields → Fields → Bool → Exec World Error Updated
  pub update_many : String → Fields → Fields → Exec World Error Updated
  pub insert_one : String → Fields → Exec World Error Unit
  pub insert_many : String → List Fields → Exec World Error Unit
  pub delete_one : String → Fields → Exec World Error Unit
  -- nanoseconds since January 1 of year 1, UTC, which is Go's zero time
  pub now : World → ℕ × World
  -- so many random bytes
  pub random : ℕ → Exec World Error (List ℕ)
  pub sha256 : String → List ℕ
  pub base64_std : List ℕ → String
  pub base64_raw_url : List ℕ → String
  pub hex : List ℕ → String
  -- `bcrypt.CompareHashAndPassword(stored, given) == nil`
  pub bcrypt_matches : String → String → Bool
  pub floats : Floats
  pub open floats use *
  -- `t.UnixMilli()`
  pub unix_milli : ℕ → ℤ
  -- The first layout of `boardReadDate` that `time.Parse` accepts, in milliseconds.
  pub parse_date : String → Option ℤ
