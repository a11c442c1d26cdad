-- ===== src/Bson.antt =====
-- The values that the driver decodes and the handlers build: Go's `any` over BSON.
-- `bson.D`, `bson.M` and `map[string]any` are `obj` with their kind; `bson.A` and `[]any` are `arr`.
-- `date` is `bson.DateTime`, milliseconds since 1970, and `time` is a `time.Time`, nanoseconds since
-- Go's zero time. A `float64` is its IEEE 754 pattern, and `opaque` is any other BSON type, given by the text that
-- `fmt.Sprint` prints for it. `int`, `int32` and `int64` share `int`, since every function of
-- the program that tells them apart treats them alike.
pub mod Truth
pub mod Fetch
pub mod Json
use Prim.Native.Nat.{ℕ}
use Prim.Native.String.{String}
use mathlib.Core.Bool.{Bool}
use mathlib.Core.List.{List, [], ◌∷◌}
use wekango.Base.Int.{ℤ}

pub data ObjKind : Type 0 where
  doc_d doc_m go_map : ObjKind

pub data ArrKind : Type 0 where
  bson_a go_slice : ArrKind

mutual
  pub data Value : Type 0 where
    null : Value
    undef : Value
    bool : Bool → Value
    int : ℤ → Value
    double : ℕ → Value
    str : String → Value
    date : ℤ → Value
    time : ℕ → Value
    oid : String → Value
    opaque : String → Value
    nil_obj : ObjKind → Value
    nil_arr : ArrKind → Value
    arr : ArrKind → Items → Value
    obj : ObjKind → Fields → Value

  pub data Items : Type 0 where
    nil : Items
    cons : Value → Items → Items

  pub data Fields : Type 0 where
    end : Fields
    field : String → Value → Fields → Fields

abbrev pub items : Items → List Value
items nil = []
items (cons v vs) = v ∷ items vs

abbrev pub of_items : List Value → Items
of_items [] = nil
of_items (v ∷ vs) = cons v (of_items vs)

-- A composite literal `bson.M{…}` or `bson.D{…}`.
abbrev pub fields : List (String × Value) → Fields
fields [] = end
fields ((k, v) ∷ kvs) = field k v (fields kvs)

abbrev pub doc_of : List (String × Value) → Value
doc_of kvs = obj doc_m (fields kvs)

abbrev pub arr_of : List Value → Value
arr_of vs = arr bson_a (of_items vs)
