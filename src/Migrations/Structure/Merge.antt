-- ===== src/Migrations/Structure/Merge.antt =====
-- internal/migrations/structure.go: the check and the run that merge lists which an earlier version had
-- split by swimlane. A failing update of activities is ignored, as in the code.
pub mod Grouping
pub mod Survivors
pub mod Written
use wekango.Base.{
  ℕ, ◌+◌, String, Bool, true, false, not, ◌&&◌, ◌||◌, List, [], ◌∷◌, ◌++◌, map, Option, none, some,
  if◌then◌else◌, keep,
}
use wekango.Base.Map.{Map, lookup, insert}
use wekango.Base.Int.{pos}
use wekango.Base.Exec.{Exec, pure, attempt, ◌>>=◌, ◌>>◌}
use wekango.Bson.{null, int, str, Fields, fields, doc_of, arr_of}
use wekango.Bson.Truth.{truthy, double_is_zero, double_is_nan}
use wekango.Bson.Fetch.{get, put, is_true, listed}
use wekango.Env.{Error}
use wekango.Migrations.Runner.{Counts}
use wekango.Migrations.Structure.{
  Tools, W, slice_stable, structural_stamped, structural_markers, structural_field,
  structural_number, structural_find, structural_exists, structural_distinct, ◌or_if◌,
}

abbrev pub is_open : Fields → Bool
is_open list = not (is_true (get "archived" list))

-- The lists of each title, the titles in their order.
abbrev pub Groups : Type 0
Groups = Map (List Fields)

abbrev pub with_list : Fields → Option (List Fields) → List Fields
with_list list none = list ∷ []
with_list list (some held) = held ++ list ∷ []

module _ (t : Tools) where
  -- `structuralMismatch`
  unfoldable pub structural_mismatch : Fields → Exec (W t) Error Bool
  unfolding structural_exists structural_field get truthy
  structural_mismatch list =
      if truthy (get "swimlaneId" list)
      then structural_exists t "cards" (
          fields (
            ("listId", str (structural_field t list "_id"))
            ∷ (
              "swimlaneId",
              doc_of (
                  ("$nin", arr_of (str (structural_field t list "swimlaneId") ∷ null ∷ str "" ∷ []))
                  ∷ []),
            )
            ∷ []))
      else pure false

  unfoldable pub duplicate_from : List String → List Fields → Bool
  unfolding structural_field get
  duplicate_from seen [] = false
  duplicate_from seen (list ∷ lists) =
      let title = structural_field t list "title" in
      let skipped = duplicate_from seen lists in
      let noted = duplicate_from (title ∷ seen) lists in
      if is_open list then listed title seen || noted else skipped

  -- `structuralDuplicate`
  abbrev pub structural_duplicate : List Fields → Bool
  structural_duplicate lists = duplicate_from [] lists

  unfoldable pub any_mismatch : List Fields → Exec (W t) Error Bool
  unfolding structural_mismatch
  any_mismatch [] = pure false
  any_mismatch (list ∷ lists) =
      let later = any_mismatch lists in structural_mismatch list or_if later

  abbrev lists_of : String → Fields
  lists_of board =
      fields (("boardId", str board) ∷ ("type", doc_of (("$ne", str "template-list") ∷ [])) ∷ [])

  abbrev check_board : String → Exec (W t) Error Bool
  check_board board =
      structural_find t "lists" (lists_of board) ("title" ∷ "swimlaneId" ∷ "archived" ∷ [])
      >>= λ lists. pure (structural_duplicate lists) or_if any_mismatch lists

  unfoldable pub check_boards : List String → Exec (W t) Error Bool
  unfolding structural_find duplicate_from any_mismatch
  check_boards [] = pure false
  check_boards (board ∷ boards) = let later = check_boards boards in check_board board or_if later

  abbrev check_stamped : Exec (W t) Error Bool
  check_stamped =
      structural_distinct t "lists" "boardId" structural_stamped >>= λ boards. check_boards boards

  -- `CheckMergePerSwimlaneLists`
  unfoldable pub check_merge_per_swimlane_lists : Exec (W t) Error Bool
  unfolding structural_exists structural_distinct check_boards
  check_merge_per_swimlane_lists =
      structural_exists t "boards" structural_markers or_if check_stamped

  -- One turn of the loop that groups by title.
  abbrev pub group_one : Fields → Groups → Groups
  group_one list groups =
      let title = structural_field t list "title" in
      insert title (with_list list (lookup title groups)) groups

  unfoldable pub group_from : List Fields → Groups → Groups
  unfolding structural_field insert lookup
  group_from [] groups = groups
  group_from (list ∷ lists) groups = group_from lists (group_one list groups)

  abbrev created : Fields → ℕ
  created list = structural_number t (get "createdAt" list)

  abbrev differ : ℕ → Bool
  differ delta = not (double_is_zero delta) && not (double_is_nan delta)

  -- The order in a group: shared lists first, then the older ones, then by sort.
  unfoldable pub comes_before : Fields → Fields → Bool
  unfolding structural_number get truthy
  comes_before a z =
      let a_laned = truthy (get "swimlaneId" a) in
      let z_laned = truthy (get "swimlaneId" z) in
      if a_laned && not z_laned || not a_laned && z_laned
      then not a_laned
      else if differ (t.env.sub (created a) (created z))
      then t.env.less (created a) (created z)
      else t.env.less (structural_number t (get "sort" a)) (structural_number t (get "sort" z))

  abbrev ordered : List Fields → List Fields
  ordered lists = slice_stable comes_before lists

  -- The first list of a group takes the cards of the others, which are deleted.
  abbrev relink : Fields → Fields
  relink target =
      fields (("$set", doc_of (("listId", str (structural_field t target "_id")) ∷ [])) ∷ [])

  abbrev of_list : Fields → Fields
  of_list list = fields (("listId", str (structural_field t list "_id")) ∷ [])

  unfoldable pub merge_into : Fields → List Fields → ℕ → Exec (W t) Error ℕ
  unfolding structural_field get
  merge_into target [] fixed = pure fixed
  merge_into target (list ∷ lists) fixed = do
    t.env.update_many "cards" (of_list list) (relink target)
    attempt (t.env.update_many "activities" (of_list list) (relink target))
    t.env.delete_one "lists" (fields (("_id", get "_id" list) ∷ []))
    merge_into target lists (fixed + 1)

  abbrev merge_ordered : List Fields → ℕ → Exec (W t) Error ℕ
  merge_ordered [] fixed = pure fixed
  merge_ordered (target ∷ lists) fixed = merge_into target lists fixed

  abbrev is_single : List Fields → Bool
  is_single [] = true
  is_single (list ∷ []) = true
  is_single (list ∷ other ∷ lists) = false

  abbrev pub merge_group : List Fields → ℕ → Exec (W t) Error ℕ
  merge_group lists fixed =
      if is_single lists then pure fixed else merge_ordered (ordered lists) fixed

  unfoldable pub merge_groups : Groups → ℕ → Exec (W t) Error ℕ
  unfolding merge_into slice_stable comes_before
  merge_groups [] fixed = pure fixed
  merge_groups ((title, lists) ∷ groups) fixed =
      merge_group lists fixed >>= λ n. merge_groups groups n

  abbrev unmarked : Fields
  unmarked = fields (
      (
        "$unset",
        doc_of (
            ("fixMissingListsCompleted", int (pos 1))
            ∷ ("fixMissingListsCompletedAt", int (pos 1))
            ∷ ("comprehensiveMigrationCompleted", int (pos 1))
            ∷ []),
      )
      ∷ [])

  unfoldable pub merge_board : String → List Fields → ℕ → Exec (W t) Error ℕ
  unfolding group_from merge_groups put
  merge_board board active fixed = do
    merged ← merge_groups (group_from active []) fixed
    r ←
        t.env.update_many "lists" (put "boardId" (str board) structural_stamped)
          (fields (("$set", doc_of (("swimlaneId", str "") ∷ [])) ∷ []))
    t.env.update_one "boards" (fields (("_id", str board) ∷ [])) unmarked false
    pure (merged + r.modified)

  -- Whether a board that has no marker shows the symptoms.
  abbrev is_split : Bool → List Fields → Exec (W t) Error Bool
  is_split marked active =
      if marked || structural_duplicate active then pure true else any_mismatch active

  abbrev lists_found : List Fields → List Fields
  lists_found lists = keep is_open lists

  abbrev merge_if : String → List Fields → ℕ → Bool → Exec (W t) Error ℕ
  merge_if board active fixed split = if split then merge_board board active fixed else pure fixed

  abbrev visit : String → Bool → ℕ → Exec (W t) Error ℕ
  visit board marked fixed = do
    lists ←
        structural_find t "lists" (lists_of board)
          ("title" ∷ "swimlaneId" ∷ "archived" ∷ "sort" ∷ "createdAt" ∷ [])
    split ← is_split marked (lists_found lists)
    merge_if board (lists_found lists) fixed split

  unfoldable pub merge_boards : List String → List String → ℕ → Exec (W t) Error ℕ
  unfolding structural_find duplicate_from any_mismatch merge_board get
  merge_boards markers [] fixed = pure fixed
  merge_boards markers (board ∷ boards) fixed =
      visit board (listed board markers) fixed >>= λ n. merge_boards markers boards n

  -- `RunMergePerSwimlaneLists`
  unfoldable pub run_merge_per_swimlane_lists : Exec (W t) Error Counts
  unfolding structural_find structural_distinct structural_field merge_boards
  run_merge_per_swimlane_lists = do
    found ← structural_find t "boards" structural_markers ("_id" ∷ [])
    let markers = map (λ b. structural_field t b "_id") found
    stamped ← structural_distinct t "lists" "boardId" structural_stamped
    fixed ← merge_boards markers (markers ++ keep (λ b. not (listed b markers)) stamped) 0
    pure (record { fixed = fixed; unresolved = 0 })
