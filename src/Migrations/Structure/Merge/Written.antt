-- ===== src/Migrations/Structure/Merge/Written.antt =====
-- internal/migrations/structure.go: what a merge of lists writes, in which order, and what it counts.
use wekango.Base.{ℕ, ◌+◌, Bool, false, List, ◌++◌, ◌≡◌, length, tally, All}
use wekango.Bson.{Fields}
use wekango.Migrations.Structure.{Tools, W}
use wekango.Migrations.Structure.Merge.{structural_duplicate}
use wekango.Migrations.Structure.Trace.{Call, recorded}
use wekango.Migrations.Structure.Merge.Survivors.{Move, gone, writes, IsProper}

-- What a run over a recording database writes and counts.
module _ (base : Tools) where
  abbrev t : Tools
  t = recorded base

  -- It adds these writes, and counts the moves.
  abbrev Wrote : W t → ℕ → List Move → ℕ → W t → Type 0
  Wrote w fixed moves n v = (v.1 ≡ w.1 ++ writes t moves) × (n ≡ fixed + length moves)

-- The lists that a merge keeps and those that it moves into them.
pub record IsMerged (t : Tools) (active : List Fields) (n : ℕ) (before after : List Call)
    : Type 0 where
  pub kept : List Fields
  pub moves : List Move
  pub written : after ≡ before ++ writes t moves
  pub counted : n ≡ length moves
  pub divided : (p : Fields → Bool) → tally p kept + tally p (gone moves) ≡ tally p active
  pub proper : All (IsProper t kept) moves
  pub distinct : structural_duplicate t kept ≡ false
