-- ===== src/Migrations/Fields/Flags.antt =====
-- internal/migrations/fields.go: the repair of the flag `isActive` of the members of boards.
use wekango.Base.{
  ℕ, ◌+◌, Bool, true, false, ◌&&◌, ◌||◌, List, [], ◌∷◌, map, Option, none, some, if◌then◌else◌,
}
use wekango.Base.Exec.{Result, ok, err, Exec, pure, fail, lift, attempt, ◌>>=◌}
use wekango.Base.Int.{pos}
use wekango.Bson.{
  Value, bool, int, arr, go_slice, obj, doc_m, Fields, end, fields, doc_of, of_items,
}
use wekango.Bson.Truth.{truthy}
use wekango.Bson.Fetch.{find, get, put, as_map, elements}
use wekango.Env.{Env, Error, FindOptions}
use wekango.Migrations.Runner.{Counts}
use wekango.Migrations.Fields.{missing, set_to, fixed_only, field_exists}

-- `memberNeedsDefault`
abbrev lacks : Option Value → Bool
lacks none = true
lacks (some v) = false

abbrev active_of : Option Fields → Option Value
active_of none = none
active_of (some d) = find "isActive" d

unfoldable pub member_needs_default : Value → Bool
unfolding truthy as_map find
member_needs_default member = truthy member && lacks (active_of (as_map member))

abbrev pub or_new : Option Fields → Fields
or_new none = end
or_new (some d) = d

-- The patch of one member, and of the array.
unfoldable pub patch_member : Value → Value
unfolding member_needs_default put as_map
patch_member m =
    if member_needs_default m then obj doc_m (put "isActive" (bool true) (or_new (as_map m))) else m

unfoldable pub patch_members : List Value → List Value
unfolding patch_member
patch_members members = map patch_member members

unfoldable pub any_needs_default : List Value → Bool
unfolding member_needs_default
any_needs_default [] = false
any_needs_default (m ∷ members) = member_needs_default m || any_needs_default members

module _ (env : Env) where
  abbrev W : Type 0
  W = env.World

  abbrev member_filter : Fields
  member_filter =
      fields (("members", doc_of (("$elemMatch", doc_of (("isActive", missing) ∷ [])) ∷ [])) ∷ [])

  abbrev with_members : Fields
  with_members = fields (("members.0", doc_of (("$exists", bool true) ∷ [])) ∷ [])

  abbrev members_only : FindOptions
  members_only = record { order = end; projection = fields (("members", int (pos 1)) ∷ []) }

  -- The scan of `CheckBoardMembersIsActive`.
  unfoldable pub scan_boards : List (Result Error Fields) → Result Error Bool
  unfolding any_needs_default get
  scan_boards [] = ok false
  scan_boards (err e ∷ rest) = err e
  scan_boards (ok doc ∷ rest) =
      if any_needs_default (elements (get "members" doc)) then ok true else scan_boards rest

  abbrev check_after : Result Error Bool → Exec W Error Bool
  check_after (ok found) = pure found
  check_after (err e) =
      env.cursor "boards" with_members members_only >>= λ boards. lift (scan_boards boards)

  unfoldable pub check_board_members_is_active : Exec W Error Bool
  unfolding field_exists scan_boards
  check_board_members_is_active = attempt (field_exists env "boards" member_filter) >>= check_after

  abbrev pub write_members : Fields → List Value → Fields → Exec W Error ℕ
  write_members doc members filter =
      env.update_one "boards" filter (set_to "members" (arr go_slice (of_items members))) false
      >>= λ r. pure 1

  -- One board of `RunBoardMembersIsActive`, with what it adds to `Fixed`.
  abbrev pub repair_board : Fields → Exec W Error ℕ
  repair_board doc =
      let members = elements (get "members" doc) in
      if any_needs_default members
      then write_members doc (patch_members members) (fields (("_id", get "_id" doc) ∷ []))
      else pure 0

  unfoldable pub repair_boards : ℕ → List (Result Error Fields) → Exec W Error Counts
  unfolding any_needs_default patch_members get
  repair_boards fixed [] = pure (fixed_only fixed)
  repair_boards fixed (err e ∷ rest) = fail e
  repair_boards fixed (ok doc ∷ rest) = repair_board doc >>= λ n. repair_boards (fixed + n) rest

  -- The second cursor is opened only if the first could not be.
  abbrev boards_after :
      Result Error (List (Result Error Fields)) → Exec W Error (List (Result Error Fields))
  boards_after (ok boards) = pure boards
  boards_after (err e) = env.cursor "boards" with_members members_only

  unfoldable pub run_board_members_is_active : Exec W Error Counts
  unfolding repair_boards
  run_board_members_is_active =
      attempt (env.cursor "boards" member_filter members_only) >>= boards_after >>= repair_boards 0
