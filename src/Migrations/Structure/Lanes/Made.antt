-- ===== src/Migrations/Structure/Lanes/Made.antt =====
-- internal/migrations/structure.go: every board has a default swimlane once `RunSwimlaneStructure` has
-- made the missing ones, and these are the swimlanes that it inserted.
use wekango.Base.{ℕ, ◌+◌, String, List, [], ◌∷◌, ◌++◌, ◌≡◌, none, some, length, All}
use wekango.Base.Map.{Map, lookup}
use wekango.Base.Exec.{Result, Exec}
use wekango.Bson.{Fields}
use wekango.Env.{Env, Error}
use wekango.Migrations.Structure.{Tools, W, structural_field}
use wekango.Migrations.Structure.Trace.{Call, insert_asked, recording, recorded}
use wekango.Migrations.Structure.Lanes.Repair.{new_lane}

-- Drawing an identifier writes nothing.
module _ (env : Env) (block : ℕ) where
  abbrev World : Type 0
  World = (recording env).World

module _ (base : Tools) (now : ℕ) where
  abbrev t : Tools
  t = recorded base

  -- A board and its new swimlane.
  abbrev inserts : List (String × String) → List Call
  inserts [] = []
  inserts ((board, id) ∷ made) =
      insert_asked "swimlanes" (new_lane t id board now ∷ []) ∷ inserts made

  abbrev pub HasLane : Map String → Fields → Type 0
  HasLane defaults board =
      (id : String) × (lookup (structural_field t board "_id") defaults ≡ some id)

  -- The defaults afterwards, with what was made: a board that had a default keeps it, each board has
  -- one, and a new one is a swimlane of its board that was inserted and counted.
  pub record IsCovered (boards : List Fields) (before : Map String) (fixed : ℕ) (log : List Call)
      (after : Map String × ℕ) (noted : List Call) : Type 0 where
    pub made : List (String × String)
    pub written : noted ≡ log ++ inserts made
    pub counted : after.1 ≡ fixed + length made
    pub kept : (b id : String) → lookup b before ≡ some id → lookup b after.0 ≡ some id
    pub fresh : All (λ m. lookup m.0 before ≡ none) made
    pub set : All (λ m. lookup m.0 after.0 ≡ some m.1) made
    pub covered : All (HasLane after.0) boards

  abbrev Covers :
      List Fields
      → Map String
      → ℕ
      → W t
      → Map String × ℕ
      → Result Error (Map String × ℕ) × W t
      → Type 0
  Covers boards before fixed w after q = IsCovered boards before fixed w.1 after q.1.1
