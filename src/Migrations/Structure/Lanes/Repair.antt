-- ===== src/Migrations/Structure/Lanes/Repair.antt =====
-- internal/migrations/structure.go: the run of the swimlane structure, `RunSwimlaneStructure`. A loop
-- over a Go map goes through the entries in their order: each entry updates the cards of its own
-- board.
use wekango.Base.{
  ℕ, ◌+◌, String, Bool, false, not, ◌||◌, List, [], ◌∷◌, ◌==◌, map, Option, none, some,
  if◌then◌else◌,
}
use wekango.Base.Map.{Map, lookup, insert}
use wekango.Base.Int.{pos}
use wekango.Base.Exec.{ok, Exec, pure, ◌>>=◌, ◌>>◌}
use wekango.Bson.{Value, bool, int, str, time, Fields, end, fields, doc_of}
use wekango.Bson.Truth.{truthy}
use wekango.Bson.Fetch.{get, listed}
use wekango.Env.{Error}
use wekango.Migrations.Runner.{Counts}
use wekango.Migrations.Structure.{
  Tools, W, slice_stable, usable, structural_missing, structural_string, structural_field,
  structural_number, structural_find, structural_distinct, new_id,
}
use wekango.Migrations.Structure.Lanes.{
  Lanes, or_blank, keep_first, live, lower_sort, structural_lanes, cards_of_lane,
}

module _ (t : Tools) where
  -- `RunSwimlaneStructure`: a default lane for each board that has no active one.
  abbrev pub new_lane : String → String → ℕ → Fields
  new_lane id board now = fields (
      ("_id", str id)
      ∷ ("title", str "Default")
      ∷ ("boardId", str board)
      ∷ ("archived", bool false)
      ∷ ("sort", int (pos 0))
      ∷ ("type", str "swimlane")
      ∷ ("createdAt", time now)
      ∷ ("modifiedAt", time now)
      ∷ ("updatedAt", time now)
      ∷ [])

  -- The defaults, and how many were made.
  abbrev pub add_lane : ℕ → String → Map String → ℕ → Exec (W t) Error (Map String × ℕ)
  add_lane now board defaults fixed = do
    id ← new_id t
    t.env.insert_one "swimlanes" (new_lane id board now)
    pure (insert board id defaults, fixed + 1)

  abbrev pub lane_for :
      ℕ → String → Option String → Map String → ℕ → Exec (W t) Error (Map String × ℕ)
  lane_for now board (some held) defaults fixed = pure (defaults, fixed)
  lane_for now board none defaults fixed = add_lane now board defaults fixed

  unfoldable pub make_lanes : ℕ → List Fields → Map String → ℕ → Exec (W t) Error (Map String × ℕ)
  unfolding structural_field new_id lookup insert
  make_lanes now [] defaults fixed = pure (defaults, fixed)
  make_lanes now (board ∷ boards) defaults fixed =
      let id = structural_field t board "_id" in
      lane_for now id (lookup id defaults) defaults fixed >>= λ made.
      make_lanes now boards made.0 made.1

  abbrev pub set_fields : List (String × Value) → Fields
  set_fields changes = fields (("$set", doc_of changes) ∷ [])

  -- Cards without a lane get the default one of their board.
  unfoldable pub fill_lanes : Map String → ℕ → Exec (W t) Error ℕ
  fill_lanes [] fixed = pure fixed
  fill_lanes ((board, id) ∷ defaults) fixed =
      t.env.update_many "cards"
        (fields (("boardId", str board) ∷ ("swimlaneId", structural_missing) ∷ []))
        (set_fields (("swimlaneId", str id) ∷ []))
      >>= λ r. fill_lanes defaults (fixed + r.modified)

  -- The first list of each board, in the order of their sort.
  abbrev pub first_list : Fields → Map Fields → Map Fields
  first_list list first =
      keep_first (structural_field t list "boardId") list
        (lookup (structural_field t list "boardId") first) first

  unfoldable pub first_lists : List Fields → Map Fields → Map Fields
  unfolding structural_field lookup insert
  first_lists [] first = first
  first_lists (list ∷ lists) first = first_lists lists (first_list list first)

  abbrev rescue_list : String → String → String → ℕ → Fields
  rescue_list id board lane now = fields (
      ("_id", str id)
      ∷ ("title", str "Rescued Data")
      ∷ ("boardId", str board)
      ∷ ("swimlaneId", str lane)
      ∷ ("archived", bool false)
      ∷ ("sort", int (pos 0))
      ∷ ("type", str "list")
      ∷ ("createdAt", time now)
      ∷ ("modifiedAt", time now)
      ∷ ("updatedAt", time now)
      ∷ [])

  abbrev make_target : ℕ → String → String → Map Fields → Exec (W t) Error (Fields × Map Fields)
  make_target now board lane first = do
    id ← new_id t
    t.env.insert_one "lists" (rescue_list id board lane now)
    pure (rescue_list id board lane now, insert board (rescue_list id board lane now) first)

  abbrev target_for :
      ℕ → String → String → Option Fields → Map Fields → Exec (W t) Error (Fields × Map Fields)
  target_for now board lane (some target) first = pure (target, first)
  target_for now board lane none first = make_target now board lane first

  abbrev lane_of : Fields → String → String
  lane_of target lane =
      if truthy (get "swimlaneId" target)
      then structural_string t (get "swimlaneId" target)
      else lane

  abbrev move_cards : String → String → Fields → String → Exec (W t) Error ℕ
  move_cards board bad target lane = do
    r ← t.env.update_many "cards" (fields (("boardId", str board) ∷ ("listId", str bad) ∷ [])) (
        set_fields (
          ("listId", str (structural_field t target "_id"))
          ∷ ("swimlaneId", str (lane_of target lane))
          ∷ []))
    pure r.modified

  -- Cards of a list that is gone go to the first list of their board, or to a new one.
  unfoldable pub rescue_boards :
      ℕ → Map String → String → List String → Map Fields → ℕ → Exec (W t) Error (Map Fields × ℕ)
  unfolding structural_field structural_string new_id lookup insert get truthy
  rescue_boards now defaults bad [] first fixed = pure (first, fixed)
  rescue_boards now defaults bad (board ∷ boards) first fixed = do
    let lane = or_blank (lookup board defaults)
    target ← target_for now board lane (lookup board first) first
    moved ← move_cards board bad target.0 lane
    rescue_boards now defaults bad boards target.1 (fixed + moved)

  abbrev rescue_one : ℕ → Map String → String → Map Fields → ℕ → Exec (W t) Error (Map Fields × ℕ)
  rescue_one now defaults bad first fixed = do
    boards ← structural_distinct t "cards" "boardId" (fields (("listId", str bad) ∷ []))
    rescue_boards now defaults bad boards first fixed

  unfoldable pub rescue_cards :
      ℕ → Map String → List String → List String → Map Fields → ℕ → Exec (W t) Error ℕ
  unfolding rescue_boards structural_distinct
  rescue_cards now defaults ids [] first fixed = pure fixed
  rescue_cards now defaults ids (bad ∷ used) first fixed =
      let skipped = rescue_cards now defaults ids used first fixed in
      let rescued =
        (rescue_one now defaults bad first fixed >>= λ q.
        rescue_cards now defaults ids used q.0 q.1) in
      if not (usable bad) || listed bad ids then skipped else rescued

  -- Cards in a lane of another board go to the default lane of their own.
  abbrev return_cards : String → String → String → Exec (W t) Error ℕ
  return_cards board id target = do
    r ←
        t.env.update_many "cards"
          (fields (("boardId", str board) ∷ ("swimlaneId", str id) ∷ ("archived", bool false) ∷ []))
          (set_fields (("swimlaneId", str target) ∷ []))
    pure r.modified

  abbrev is_owner : Option String → String → Bool
  is_owner none board = board == ""
  is_owner (some owner) board = owner == board

  unfoldable pub return_boards : Lanes → String → List String → ℕ → Exec (W t) Error ℕ
  unfolding lookup
  return_boards lanes id [] fixed = pure fixed
  return_boards lanes id (board ∷ boards) fixed =
      let target = or_blank (lookup board lanes.defaults) in
      let skipped = return_boards lanes id boards fixed in
      let moved =
        (return_cards board id target >>= λ n. return_boards lanes id boards (fixed + n)) in
      if is_owner (lookup id lanes.owners) board || target == "" || target == id
      then skipped
      else moved

  abbrev return_one : Lanes → String → ℕ → Exec (W t) Error ℕ
  return_one lanes id fixed = do
    boards ← structural_distinct t "cards" "boardId" (cards_of_lane t id)
    return_boards lanes id boards fixed

  unfoldable pub return_strays : Lanes → List String → ℕ → Exec (W t) Error ℕ
  unfolding return_boards structural_distinct
  return_strays lanes [] fixed = pure fixed
  return_strays lanes (id ∷ used) fixed =
      let skipped = return_strays lanes used fixed in
      let returned = (return_one lanes id fixed >>= λ n. return_strays lanes used n) in
      if usable id then returned else skipped

  abbrev read_clock : Exec (W t) Error ℕ
  read_clock w = let (now, v) = t.env.now w in (ok now, v)

  -- `RunSwimlaneStructure`
  unfoldable pub run_swimlane_structure : Exec (W t) Error Counts
  unfolding structural_lanes structural_find structural_distinct structural_field structural_number
      make_lanes fill_lanes slice_stable first_lists rescue_cards return_strays
  run_swimlane_structure = do
    now ← read_clock
    boards ← structural_find t "boards" end ("_id" ∷ [])
    lanes ← structural_lanes t
    made ← make_lanes now boards lanes.defaults 0
    filled ← fill_lanes made.0 made.1
    lists ← structural_find t "lists" end ("_id" ∷ "boardId" ∷ "swimlaneId" ∷ "sort" ∷ [])
    used ← structural_distinct t "cards" "listId" end
    rescued ←
        rescue_cards now made.0 (map (λ l. structural_field t l "_id") lists) used
          (first_lists (slice_stable (lower_sort t) lists) []) filled
    lanes_used ← structural_distinct t "cards" "swimlaneId" live
    fixed ← return_strays (record { defaults = made.0; owners = lanes.owners }) lanes_used rescued
    pure (record { fixed = fixed; unresolved = 0 })
