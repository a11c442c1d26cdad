-- ===== src/Migrations/Fields.antt =====
-- internal/migrations/fields.go: the steps of the schema upgrade that repair single fields. A step
-- that fails returns no counts here: the runner drops those that the code returns with an error.
-- The counts of documents stay below the range of `int64`.
pub mod Flags
pub mod Members
use wekango.Base.{ℕ, ◌+◌, String, Bool, true, false, List, [], ◌∷◌, if◌then◌else◌}
use wekango.Base.Exec.{Result, ok, err, Exec, pure, ◌>>=◌}
use wekango.Base.Int.{pos}
use wekango.Bson.{Value, bool, int, double, str, Fields, fields, doc_of, arr_of}
use wekango.Env.{Env, Error, no_documents}
use wekango.Env.{failure as other_error}
use wekango.Migrations.Runner.{Counts}

abbrev board_allows_true_defaults : List String
board_allows_true_defaults =
    "allowsSubtasks" ∷ "allowsSubtasksOnMinicard" ∷ "allowsAttachments"
    ∷ "allowsAttachmentsOnMinicard" ∷ "allowsChecklists" ∷ "allowsChecklistsOnMinicard"
    ∷ "allowsComments" ∷ "allowsDescriptionTitle" ∷ "allowsDescriptionTitleOnMinicard"
    ∷ "allowsDescriptionText" ∷ "allowsCoverAttachmentOnMinicard" ∷ "allowsActivities"
    ∷ "allowsLabels" ∷ "allowsLabelsOnMinicard" ∷ "allowsCreator" ∷ "allowsCustomFields"
    ∷ "allowsAssignee" ∷ "allowsAssigneeOnMinicard" ∷ "allowsMembers" ∷ "allowsMembersOnMinicard"
    ∷ "allowsRequestedBy" ∷ "allowsRequestedByOnMinicard" ∷ "allowsCardSortingByNumber"
    ∷ "allowsShowLists" ∷ "allowsAssignedBy" ∷ "allowsAssignedByOnMinicard" ∷ "allowsReceivedDate"
    ∷ "allowsReceivedDateOnMinicard" ∷ "allowsStartDate" ∷ "allowsStartDateOnMinicard"
    ∷ "allowsEndDate" ∷ "allowsEndDateOnMinicard" ∷ "allowsDueDate" ∷ "allowsDueDateOnMinicard" ∷ []

abbrev pub archived_collections : List String
archived_collections = "boards" ∷ "swimlanes" ∷ "lists" ∷ "cards" ∷ []

abbrev pub sorted_collections : List String
sorted_collections = "cards" ∷ "lists" ∷ "swimlanes" ∷ "checklists" ∷ "checklistItems" ∷ []

abbrev pub missing : Value
missing = doc_of (("$exists", bool false) ∷ [])

abbrev pub only_id : Fields
only_id = fields (("_id", int (pos 1)) ∷ [])

abbrev pub set_to : String → Value → Fields
set_to key v = fields (("$set", doc_of ((key, v) ∷ [])) ∷ [])

abbrev exists_of : Result Error Fields → Result Error Bool
exists_of (ok d) = ok true
exists_of (err no_documents) = ok false
exists_of (err (other_error message)) = err (other_error message)

abbrev pub fixed_only : ℕ → Counts
fixed_only n = record { fixed = n; unresolved = 0 }

module _ (env : Env) where
  abbrev pub W : Type 0
  W = env.World

  unfoldable pub field_exists : String → Fields → Exec W Error Bool
  field_exists collection filter w =
      let (found, w) = env.find_one collection filter only_id w in (exists_of found, w)

  unfoldable pub field_check_collections : List String → Fields → Exec W Error Bool
  unfolding field_exists
  field_check_collections [] filter = pure false
  field_check_collections (name ∷ names) filter =
      let later = field_check_collections names filter in
      field_exists name filter >>= λ found. if found then pure true else later

  unfoldable pub update_from : ℕ → List String → Fields → Fields → Exec W Error Counts
  update_from fixed [] filter update = pure (fixed_only fixed)
  update_from fixed (name ∷ names) filter update = env.update_many name filter update >>= λ r.
      update_from (fixed + r.modified) names filter update

  unfoldable pub field_update_collections : List String → Fields → Fields → Exec W Error Counts
  unfolding update_from
  field_update_collections names filter update = update_from 0 names filter update

  abbrev pub not_archived : Fields
  not_archived = fields (("archived", missing) ∷ [])

  unfoldable pub check_archived_flag_backfill : Exec W Error Bool
  unfolding field_check_collections
  check_archived_flag_backfill = field_check_collections archived_collections not_archived

  unfoldable pub run_archived_flag_backfill : Exec W Error Counts
  unfolding field_update_collections
  run_archived_flag_backfill =
      field_update_collections archived_collections not_archived (set_to "archived" (bool false))

  abbrev unset_clauses : List String → List Value
  unset_clauses [] = []
  unset_clauses (name ∷ names) = doc_of ((name, missing) ∷ []) ∷ unset_clauses names

  unfoldable pub check_board_allows_defaults : Exec W Error Bool
  unfolding field_exists
  check_board_allows_defaults =
      field_exists "boards"
        (fields (("$or", arr_of (unset_clauses board_allows_true_defaults)) ∷ []))

  allow_from : ℕ → List String → Exec W Error Counts
  allow_from fixed [] = pure (fixed_only fixed)
  allow_from fixed (name ∷ names) =
      env.update_many "boards" (fields ((name, missing) ∷ [])) (set_to name (bool true)) >>= λ r.
      allow_from (fixed + r.modified) names

  unfoldable pub run_board_allows_defaults : Exec W Error Counts
  unfolding allow_from
  run_board_allows_defaults = allow_from 0 board_allows_true_defaults

  unfoldable pub check_board_permission_lowercase : Exec W Error Bool
  unfolding field_exists
  check_board_permission_lowercase = field_exists "boards" (
      fields (
        (
          "permission",
          doc_of (
              ("$in", arr_of (str "PUBLIC" ∷ str "PRIVATE" ∷ str "Public" ∷ str "Private" ∷ []))
              ∷ []),
        )
        ∷ []))

  -- The texts with what `strings.ToLower` makes of them.
  abbrev lowered : List (String × String)
  lowered =
      ("PUBLIC", "public")
      ∷ ("Public", "public")
      ∷ ("PRIVATE", "private")
      ∷ ("Private", "private")
      ∷ []

  lower_from : ℕ → List (String × String) → Exec W Error Counts
  lower_from fixed [] = pure (fixed_only fixed)
  lower_from fixed ((old, new) ∷ rest) =
      env.update_many "boards" (fields (("permission", str old) ∷ []))
        (set_to "permission" (str new))
      >>= λ r. lower_from (fixed + r.modified) rest

  unfoldable pub run_board_permission_lowercase : Exec W Error Counts
  unfolding lower_from
  run_board_permission_lowercase = lower_from 0 lowered

  -- The patterns of the two largest finite numbers.
  abbrev pub nonfinite_sort_filter : Fields
  nonfinite_sort_filter = fields (
      ("sort", doc_of (("$type", str "number") ∷ []))
      ∷ (
        "$nor",
        arr_of (
            doc_of (
              (
                "sort",
                doc_of (
                    ("$gte", double 0xffefffffffffffff) ∷ ("$lte", double 0x7fefffffffffffff) ∷ []),
              )
              ∷ [])
            ∷ []),
      )
      ∷ [])

  unfoldable pub check_nonfinite_sort_repair : Exec W Error Bool
  unfolding field_check_collections
  check_nonfinite_sort_repair = field_check_collections sorted_collections nonfinite_sort_filter

  unfoldable pub run_nonfinite_sort_repair : Exec W Error Counts
  unfolding field_update_collections
  run_nonfinite_sort_repair =
      field_update_collections sorted_collections nonfinite_sort_filter
        (set_to "sort" (int (pos 0)))

  unfoldable pub check_custom_fields_board_ids : Exec W Error Bool
  unfolding field_exists
  check_custom_fields_board_ids =
      field_exists "customFields" (fields (("boardId", doc_of (("$exists", bool true) ∷ [])) ∷ []))
