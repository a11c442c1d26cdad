-- ===== src/Migrations/Structure/Lanes.antt =====
-- internal/migrations/structure.go: `structuralLanes` and `CheckSwimlaneStructure`.
pub mod Repair
pub mod Made
use wekango.Base.{
  String, Bool, true, false, not, ◌&&◌, List, [], ◌∷◌, ◌==◌, any, Option, none, some, if◌then◌else◌,
}
use wekango.Base.Map.{Map, lookup, insert}
use wekango.Base.Exec.{Exec, pure, ◌>>=◌, ◌>>◌}
use wekango.Bson.{bool, str, Fields, end, fields}
use wekango.Bson.Fetch.{get, is_str, is_true, listed}
use wekango.Env.{Error}
use wekango.Migrations.Structure.{
  Tools, W, slice_stable, usable, structural_missing, structural_field, structural_number,
  structural_find, structural_exists, structural_distinct, ◌or_if◌,
}

-- The first active lane of each board, and the board of each lane.
pub record Lanes : Type 0 where
  pub defaults : Map String
  pub owners : Map String

abbrev pub or_blank : Option String → String
or_blank none = ""
or_blank (some s) = s

abbrev pub first_only : String → String → Option String → Map String → Map String
first_only board id none defaults = insert board id defaults
first_only board id (some held) defaults = defaults

abbrev pub keep_first : String → Fields → Option Fields → Map Fields → Map Fields
keep_first board list none first = insert board list first
keep_first board list (some held) first = first

abbrev pub is_active : Fields → Bool
is_active lane =
    not (is_true (get "archived" lane)) && not (is_str (get "type" lane) "template-swimlane")

abbrev pub live : Fields
live = fields (("archived", bool false) ∷ [])

module _ (t : Tools) where
  -- One turn of the loop.
  abbrev pub note_lane : Fields → Lanes → Lanes
  note_lane lane lanes =
      let id = structural_field t lane "_id" in
      let board = structural_field t lane "boardId" in
      record {
        defaults =
            if is_active lane
            then first_only board id (lookup board lanes.defaults) lanes.defaults
            else lanes.defaults;
        owners = insert id board lanes.owners;
      }

  unfoldable pub scan_lanes : List Fields → Lanes → Lanes
  unfolding structural_field get lookup insert
  scan_lanes [] lanes = lanes
  scan_lanes (lane ∷ rest) lanes = scan_lanes rest (note_lane lane lanes)

  abbrev pub lower_sort : Fields → Fields → Bool
  lower_sort a b =
      t.env.less (structural_number t (get "sort" a)) (structural_number t (get "sort" b))

  abbrev pub no_lanes : Lanes
  no_lanes = record { defaults = []; owners = [] }

  -- `structuralLanes`
  unfoldable pub structural_lanes : Exec (W t) Error Lanes
  unfolding structural_find slice_stable scan_lanes structural_number
  structural_lanes = do
    all ← structural_find t "swimlanes" end ("_id" ∷ "boardId" ∷ "archived" ∷ "type" ∷ "sort" ∷ [])
    pure (scan_lanes (slice_stable lower_sort all) no_lanes)

  -- `CheckSwimlaneStructure`, its probes in order
  unfoldable pub boards_lack_lanes : Exec (W t) Error Bool
  unfolding structural_distinct
  boards_lack_lanes = do
    boards ← structural_distinct t "boards" "_id" end
    owned ← structural_distinct t "swimlanes" "boardId" end
    pure (any (λ b. not (listed b owned)) boards)

  unfoldable pub cards_lack_lists : Exec (W t) Error Bool
  unfolding structural_distinct
  cards_lack_lists = do
    lists ← structural_distinct t "lists" "_id" end
    used ← structural_distinct t "cards" "listId" end
    pure (any (λ id. usable id && not (listed id lists)) used)

  abbrev pub cards_of_lane : String → Fields
  cards_of_lane id = fields (("swimlaneId", str id) ∷ ("archived", bool false) ∷ [])

  abbrev pub strays : String → String → Exec (W t) Error Bool
  strays id owner =
      if owner == ""
      then pure true
      else structural_distinct t "cards" "boardId" (cards_of_lane id) >>= λ boards.
          pure (any (λ b. not (b == owner)) boards)

  unfoldable pub any_strays : Map String → List String → Exec (W t) Error Bool
  unfolding structural_distinct lookup
  any_strays owners [] = pure false
  any_strays owners (id ∷ used) =
      let later = any_strays owners used in
      if usable id then strays id (or_blank (lookup id owners)) or_if later else later

  unfoldable pub cards_stray : Exec (W t) Error Bool
  unfolding structural_lanes structural_distinct any_strays
  cards_stray = do
    lanes ← structural_lanes
    used ← structural_distinct t "cards" "swimlaneId" live
    any_strays lanes.owners used

  unfoldable pub check_swimlane_structure : Exec (W t) Error Bool
  unfolding structural_exists boards_lack_lanes cards_lack_lists cards_stray
  check_swimlane_structure =
      structural_exists t "cards" (fields (("swimlaneId", structural_missing) ∷ []))
      or_if boards_lack_lanes
      or_if cards_lack_lists
      or_if cards_stray
