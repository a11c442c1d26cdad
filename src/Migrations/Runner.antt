-- ===== src/Migrations/Runner.antt =====
-- internal/migrations/upgrade.go: the runner. `runMu` makes a run one sequence of steps; what a
-- dashboard reads in between is `State`. A step's `Result` is `Counts` here. The log lines are kept in
-- the order in which they are written.
pub mod Run
pub mod Keeps
pub mod Settled
pub mod Gate
pub mod Account
use wekango.Base.{
  ℕ, String, Bool, true, false, not, ◌&&◌, ◌||◌, List, [], ◌∷◌, ◌++◌, ◌==◌, eqb, Option, none, some,
  if◌then◌else◌,
}
use wekango.Base.Exec.{Result, Exec}
use wekango.Base.Map.{Map, insert}
use wekango.Base.Text.{◌⊕◌}
use wekango.Base.Decimal.{decimal}
use wekango.Bson.{Fields}
use wekango.Env.{error_text, Env, Error, no_documents, failure}

abbrev pub marker_collection : String
marker_collection = "_wekan_migration"

abbrev pub marker_id : String
marker_id = "schema-upgrade"

-- `Result`
pub record Counts : Type 0 where
  pub fixed : ℕ
  pub unresolved : ℕ

pub record Step (W : Type 0) : Type 0 where
  pub name : String
  pub check : Exec W Error Bool
  pub run : Exec W Error Counts

-- The values of `StepState.Status`.
pub data Status : Type 0 where
  pending checking skipped running done error : Status

pub record StepState : Type 0 where
  pub status : Status
  pub counts : Counts
  pub message : String

pub record LastCheck : Type 0 where
  pub version : String
  pub at : ℕ

pub record State : Type 0 where
  pub is_running : Bool
  pub product : String
  pub app_version : String
  pub started_at : Option String
  pub finished_at : Option String
  pub current_step : String
  pub gated : Bool
  pub steps : Map StepState
  pub last_check : Option LastCheck

-- An entry of `UpgradeResult.Results`.
pub data Outcome : Type 0 where
  counted : Counts → Outcome
  failed : String → Outcome

pub record UpgradeResult : Type 0 where
  pub ran : List String
  pub skipped : List String
  pub results : Map Outcome
  pub gated : Bool

-- The variables of the loop of `Run`.
pub record Progress : Type 0 where
  pub out : UpgradeResult
  pub state : State
  pub clean : Bool
  pub log : List String

abbrev zeros : Counts
zeros = record { fixed = 0; unresolved = 0 }

abbrev pub of_status : Status → StepState
of_status status = record { status = status; counts = zeros; message = "" }

-- `newRunner`: none where the registry is refused by a panic. Its check for missing functions has
-- nothing to refuse here.
unfoldable pub has_name : String → List String → Bool
has_name name [] = false
has_name name (n ∷ names) = n == name || has_name name names

unfoldable pub valid_names : List String → List String → Bool
unfolding has_name
valid_names seen [] = true
valid_names seen (n ∷ names) =
    not (n == "") && not (has_name n seen) && valid_names (n ∷ seen) names

abbrev pub names : {W : Type 0} → List (Step W) → List String
names [] = []
names (step ∷ steps) = step.name ∷ names steps

abbrev pub set_step : String → StepState → Progress → Progress
set_step name entry p = record p {
  state = record p.state { current_step = name; steps = insert name entry p.state.steps };
}

abbrev pub say : String → Progress → Progress
say line p = record p { log = p.log ++ line ∷ [] }

-- The check found nothing to do.
unfoldable pub note_skipped : String → Progress → Progress
unfolding insert
note_skipped name p =
    let q = set_step name (of_status skipped) p in
    record q { out = record q.out { skipped = q.out.skipped ++ name ∷ [] } }

-- The run of the step returned.
unfoldable pub note_done : String → Counts → Progress → Progress
unfolding insert decimal
note_done name counts p =
    let q = set_step name (record { status = done; counts = counts; message = "" }) p in
    record q {
      out = record q.out {
        ran = q.out.ran ++ name ∷ [];
        results = insert name (counted counts) q.out.results;
      };
      clean = q.clean && eqb counts.unresolved 0;
      log =
          q.log
          ++ (name
              ⊕ ": fixed "
              ⊕ decimal counts.fixed
              ⊕ ", unresolved "
              ⊕ decimal counts.unresolved)
            ∷ [];
    }

-- The check or the run failed: the next steps still follow.
unfoldable pub note_failed : String → Error → Progress → Progress
unfolding insert
note_failed name e p =
    let q = set_step name (record { status = error; counts = zeros; message = error_text e }) p in
    record q {
      out = record q.out { results = insert name (failed (error_text e)) q.out.results };
      clean = false;
      log = q.log ++ (name ⊕ " FAILED (will retry next start): " ⊕ error_text e) ∷ [];
    }

-- What a run reads besides its steps: the database, `isoTime`, the decoding of the marker, and
-- `ctx.Err()`.
pub record Installation : Type 1 where
  pub env : Env
  pub iso_time : ℕ → String
  pub decode_marker : Fields → Result Error (Option LastCheck)
  pub context_error : env.World → Option Error

pub record UpgradeOptions : Type 0 where
  pub app_version : String
  pub force : Bool

-- The log is what `opts.Log` receives.
pub record Ended : Type 0 where
  pub result : UpgradeResult
  pub error : Option Error
  pub state : State
  pub log : List String

abbrev pub nothing_done : UpgradeResult
nothing_done = record { ran = []; skipped = []; results = []; gated = false }

abbrev pub pending_steps : List String → Map StepState
pending_steps [] = []
pending_steps (n ∷ names) = (n, of_status pending) ∷ pending_steps names

-- `v.Status = "skipped"` for every entry
abbrev pub skip_all : Map StepState → Map StepState
skip_all [] = []
skip_all ((n, entry) ∷ steps) = (n, record entry { status = skipped }) ∷ skip_all steps

-- `newRunner`
unfoldable pub new_runner : {W : Type 0} → List (Step W) → Option State
unfolding valid_names
new_runner steps =
    if valid_names [] (names steps)
    then some (record {
      is_running = false;
      product = "WeKan";
      app_version = "";
      started_at = none;
      finished_at = none;
      current_step = "";
      gated = false;
      steps = [];
      last_check = none;
    })
    else none
