-- ===== src/Bson/Fetch.antt =====
-- Reading and writing documents: Go's map reads and writes on `bson.M`, and the type assertions.
use Prim.Native.String.{String}
use mathlib.Core.Path.{◌≡◌, refl}
use mathlib.Core.Bool.{Bool, true, false}
use mathlib.Core.Option.{Option, none, some}
use mathlib.Core.List.{List, [], ◌∷◌}
use native.Mathlib.Omega.{arith}
use text.Mathlib.Text.{◌==◌}
use text.Mathlib.TextEquality.{eq_iff}
use wekango.Base.{if◌then◌else◌, Option-cases, inl, inr}
use wekango.Bson.{
  Value, null, bool, str, arr, obj, nil_arr, Fields, end, field, doc_d, doc_m, go_map, items,
  bson_a,
}

-- `value, ok := d[key]`
unfoldable pub find : String → Fields → Option Value
find k end = none
find k (field j v d) = if j == k then some v else find k d

abbrev pub or_null : Option Value → Value
or_null none = null
or_null (some v) = v

-- `d[key]`, nil for a missing key
unfoldable pub get : String → Fields → Value
unfolding find
get k d = or_null (find k d)

-- `d[key] = v`
unfoldable pub put : String → Value → Fields → Fields
put k v end = field k v end
put k v (field j w d) = if j == k then field k v d else field j w (put k v d)

-- `delete(d, key)`
unfoldable pub remove : String → Fields → Fields
remove k end = end
remove k (field j w d) = let rest = remove k d in if j == k then rest else field j w rest

unfoldable pub put_all : Fields → Fields → Fields
unfolding put
put_all acc end = acc
put_all acc (field k v d) = put_all (put k v acc) d

-- A `bson.D` copied entry by entry into a `bson.M`: a later entry of one key wins.
unfoldable pub to_map : Fields → Fields
unfolding put_all
to_map d = put_all end d

-- `summaryMap`, `fieldMap`, `fsMap`, `userReadMemberMap`: nil for what is no document.
unfoldable pub as_map : Value → Option Fields
unfolding to_map
as_map (obj doc_m d) = some d
as_map (obj go_map d) = some d
as_map (obj doc_d d) = some (to_map d)
as_map _ = none

abbrev or_empty : Option Fields → Fields
or_empty none = end
or_empty (some d) = d

-- The same where the code only reads from the map: a read of a nil map gives nil.
unfoldable pub map_of : Value → Fields
unfolding as_map
map_of v = or_empty (as_map v)

-- `v == s` for a string `s`
abbrev pub is_str : Value → String → Bool
is_str (str t) s = t == s
is_str _ s = false

-- `v == true`
abbrev pub is_true : Value → Bool
is_true (bool b) = b
is_true _ = false

-- `v.(bson.A)`
abbrev pub as_array : Value → Option (List Value)
as_array (arr bson_a vs) = some (items vs)
as_array (nil_arr bson_a) = some []
as_array _ = none

-- `fieldArray`: either kind of array, and no elements for what is none.
abbrev pub elements : Value → List Value
elements (arr k vs) = items vs
elements _ = []

-- `v.(string)`
abbrev pub as_str : Value → Option String
as_str (str s) = some s
as_str _ = none

abbrev keep_field : String → Option Value → Fields → Fields
keep_field k none rest = rest
keep_field k (some v) rest = put k v rest

-- `boardReadFields`: the named keys that the document has.
unfoldable pub board_read_fields : Fields → List String → Fields
board_read_fields d [] = end
board_read_fields d (k ∷ ks) = keep_field k (find k d) (board_read_fields d ks)

pub find-put :
    (k j : String) (v : Value) (d : Fields)
    → find j (put k v d) ≡ (if k == j then some v else find j d)
unfolding find put
find-put k j v end = refl
find-put k j v (field i w d) = ground (arith, eq_iff k j, eq_iff i k, eq_iff i j, find-put k j v d)

pub find-remove :
    (k j : String) (d : Fields) → find j (remove k d) ≡ (if k == j then none else find j d)
unfolding find remove
find-remove k j end = ground arith
find-remove k j (field i w d) =
    ground (arith, eq_iff k j, eq_iff i k, eq_iff i j, find-remove k j d)

abbrev pub listed : String → List String → Bool
listed j [] = false
listed j (k ∷ ks) = if k == j then true else listed j ks

-- A projection has exactly the named keys of the document, with their values.
pub find-board_read_fields :
    (j : String) (d : Fields) (ks : List String)
    → find j (board_read_fields d ks) ≡ (if listed j ks then find j d else none)
unfolding find board_read_fields
find-board_read_fields j d [] = refl
find-board_read_fields j d (k ∷ ks) = elim (Option-cases (find k d)) [
  | inl missing ↦ rw missing (ground (arith, eq_iff k j, find-board_read_fields j d ks))
  | inr (v, found) ↦ rw found (
      ground
        (arith, eq_iff k j, find-board_read_fields j d ks, find-put k j v (board_read_fields d ks)))
]
