-- ===== src/Migrations/Checklist.antt =====
-- internal/migrations/checklist.go: the one-time removal of a default from checklists. A run that fails
-- returns no count here.
use wekango.Base.{ℕ, String, Bool, true, false, [], ◌∷◌}
use wekango.Base.Int.{pos}
use wekango.Base.Exec.{Result, ok, err, Exec, pure, or_else, ◌>>=◌, ◌>>◌}
use wekango.Bson.{bool, int, str, time, Fields, fields, doc_of}
use wekango.Env.{Env, Error, no_documents, failure, wrap}
use wekango.Migrations.Runner.{marker_collection}

abbrev checklist_marker : String
checklist_marker = "checklist-minicard-unset"

abbrev only_id : Fields
only_id = fields (("_id", int (pos 1)) ∷ [])

abbrev marker : Fields
marker = fields (("_id", str checklist_marker) ∷ [])

abbrev shown_not : Fields
shown_not = fields (("showChecklistAtMinicard", bool false) ∷ [])

abbrev was_found : Result Error Fields → Result Error Bool
was_found (ok d) = ok true
was_found (err no_documents) = ok false
was_found (err (failure message)) = err (failure message)

module _ (env : Env) where
  abbrev W : Type 0
  W = env.World

  abbrev pub is_there : String → Fields → Exec W Error Bool
  is_there collection filter w =
      let (found, v) = env.find_one collection filter only_id w in (was_found found, v)

  abbrev pub is_marked : Exec W Error Bool
  is_marked = is_there marker_collection marker

  abbrev pub has_defaults : Exec W Error Bool
  has_defaults = is_there "checklists" shown_not

  abbrev check_unmarked : Bool → Exec W Error Bool
  check_unmarked true = pure false
  check_unmarked false = has_defaults

  unfoldable pub check_checklist_minicard : Exec W Error Bool
  check_checklist_minicard = is_marked >>= check_unmarked

  abbrev read_clock : Exec W Error ℕ
  read_clock w = let (now, v) = env.now w in (ok now, v)

  abbrev unset_defaults : Exec W Error ℕ
  unset_defaults = do
    r ← or_else (wrap "unset checklist defaults: ") (
        env.update_many "checklists" shown_not
          (fields (("$unset", doc_of (("showChecklistAtMinicard", str "") ∷ [])) ∷ [])))
    now ← read_clock
    or_else (wrap "record checklist migration: ") (
        env.update_one marker_collection marker
          (fields (("$set", doc_of (("at", time now) ∷ [])) ∷ [])) true)
    pure r.modified

  abbrev run_found : Bool → Exec W Error ℕ
  run_found true = unset_defaults
  run_found false = pure 0

  abbrev run_unmarked : Bool → Exec W Error ℕ
  run_unmarked true = pure 0
  run_unmarked false = or_else (wrap "check checklist defaults: ") has_defaults >>= run_found

  unfoldable pub run_checklist_minicard : Exec W Error ℕ
  run_checklist_minicard =
      or_else (wrap "read checklist migration marker: ") is_marked >>= run_unmarked
