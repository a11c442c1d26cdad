-- ===== src/Migrations/Structure.antt =====
-- internal/migrations/structure.go: the steps of the schema upgrade that repair swimlanes and lists. A
-- step that fails returns no counts here, and one whose rounds do not suffice for an identifier
-- fails with `out_of_rounds`, which no code gives.
pub mod Lanes
pub mod Merge
pub mod Sorted
pub mod Trace
use wekango.Base.{
  ℕ, String, Bool, true, false, not, ◌&&◌, List, [], ◌∷◌, ◌==◌, map, Option, none, some,
  if◌then◌else◌,
}
use wekango.Base.Text.{trim_space}
use wekango.Base.Int.{pos}
use wekango.Base.Exec.{Result, ok, err, Exec, pure, ◌>>=◌, ◌>>◌}
use wekango.Bson.{
  Value, null, bool, int, double, str, date, oid, Fields, end, fields, doc_of, arr_of,
}
use wekango.Bson.Fetch.{find}
use wekango.Env.{Env, Error, no_documents, failure}
use wekango.Random.{structural_id}

-- `fmt.Sprint`, and the rounds that an identifier may take.
pub record Tools : Type 1 where
  pub env : Env
  pub sprint : Value → String
  pub rounds : ℕ

-- `sort.SliceStable` as its insertion sort does it: each element moves left past those that it is
-- less than. The order of longer slices is the same where `less` is a strict weak order.
module _ {A : Type 0} (less : A → A → Bool) where
  -- The sorted part, from its end.
  unfoldable pub insert_back : A → List A → List A
  insert_back x [] = x ∷ []
  insert_back x (y ∷ ys) =
      let further = y ∷ insert_back x ys in if less x y then further else x ∷ y ∷ ys

  unfoldable pub sort_from : List A → List A → List A
  unfolding insert_back
  sort_from done [] = done
  sort_from done (x ∷ xs) = sort_from (insert_back x done) xs

  abbrev pub reverse_onto : List A → List A → List A
  reverse_onto acc [] = acc
  reverse_onto acc (x ∷ xs) = reverse_onto (x ∷ acc) xs

  unfoldable pub slice_stable : List A → List A
  unfolding sort_from
  slice_stable xs = reverse_onto [] (sort_from [] xs)

abbrev pub usable : String → Bool
usable id = not (id == "") && not (id == "null") && not (id == "undefined")

abbrev no_lane : Value
no_lane = arr_of (null ∷ str "" ∷ [])

-- `structuralMissing`, `structuralStamped` and `structuralMarkers`
abbrev pub structural_missing : Value
structural_missing = doc_of (("$in", no_lane) ∷ [])

abbrev pub structural_stamped : Fields
structural_stamped = fields (
    ("swimlaneId", doc_of (("$nin", no_lane) ∷ []))
    ∷ ("type", doc_of (("$ne", str "template-list") ∷ []))
    ∷ [])

abbrev pub structural_markers : Fields
structural_markers = fields (
    (
      "$or",
      arr_of (
          doc_of (("fixMissingListsCompleted", bool true) ∷ [])
          ∷ doc_of (("comprehensiveMigrationCompleted", bool true) ∷ [])
          ∷ []),
    )
    ∷ [])

-- A projection of the named fields.
abbrev pub only : List String → Fields
only [] = end
only (name ∷ names) = Fields.field name (int (pos 1)) (only names)

abbrev pub out_of_rounds : Error
out_of_rounds = failure "out of rounds"

abbrev found_or_not : Result Error Fields → Result Error Bool
found_or_not (ok d) = ok true
found_or_not (err no_documents) = ok false
found_or_not (err (failure message)) = err (failure message)

module _ {W E : Type 0} where
  -- The first check that answers, or that fails.
  infixr 30 ◌or_if◌
  abbrev pub ◌or_if◌ : Exec W E Bool → Exec W E Bool → Exec W E Bool
  first or_if second = do found ← first; if found then pure true else second

module _ (t : Tools) where
  abbrev pub W : Type 0
  W = t.env.World

  unfoldable pub structural_string : Value → String
  structural_string null = "null"
  structural_string (oid hex) = hex
  structural_string v = t.sprint v

  abbrev string_or : Option Value → String
  string_or none = "undefined"
  string_or (some v) = structural_string v

  unfoldable pub structural_field : Fields → String → String
  unfolding structural_string find
  structural_field d k = string_or (find k d)

  abbrev pub nan : ℕ
  nan = 0x7ff8000000000001

  abbrev pub or_nan : Option ℕ → ℕ
  or_nan none = nan
  or_nan (some x) = x

  unfoldable pub structural_number : Value → ℕ
  unfolding trim_space
  structural_number (double x) = x
  structural_number (int n) = t.env.of_int n
  structural_number (date ms) = t.env.of_int ms
  structural_number (bool b) = if b then t.env.of_int (pos 1) else 0
  structural_number (str s) = if trim_space s == "" then 0 else or_nan (t.env.parse (trim_space s))
  structural_number _ = 0

  unfoldable pub structural_find : String → Fields → List String → Exec W Error (List Fields)
  structural_find collection filter names =
      t.env.find collection filter (record { order = end; projection = only names })

  unfoldable pub structural_exists : String → Fields → Exec W Error Bool
  structural_exists collection filter w =
      let (r, v) = t.env.find_one collection filter (only ("_id" ∷ [])) w in (found_or_not r, v)

  unfoldable pub structural_distinct : String → String → Fields → Exec W Error (List String)
  unfolding structural_string
  structural_distinct collection key filter = do
    values ← t.env.distinct collection key filter
    pure (map structural_string values)

  abbrev pub drawn : Result Error (Option String) → Result Error String
  drawn (ok (some id)) = ok id
  drawn (ok none) = err out_of_rounds
  drawn (err e) = err e

  unfoldable pub new_id : Exec W Error String
  unfolding structural_id
  new_id w = let (r, v) = structural_id t.env t.rounds w in (drawn r, v)
