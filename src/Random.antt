-- ===== src/Random.antt =====
-- The random identifiers of WeKan: `eventID` of internal/eventlog/writer.go, `fieldRandomID` of
-- internal/migrations/fields.go and `structuralID` of internal/migrations/structure.go, which
-- read 17 bytes, 32 bytes and one byte at a time. The code loops until it has its 17 letters; a
-- model runs so many rounds, and says when these did not suffice.
pub mod Rounds
use Prim.Native.String
use wekango.Base.{
  ℕ, zero, suc, ◌+◌, ◌%◌, String, List, [], ◌∷◌, ltb, eqb, length, Option, none, some,
  if◌then◌else◌, ◌++◌,
}
use wekango.Base.Exec.{Result, ok, err, Exec, or_else}
use wekango.Base.Text.{◌⊕◌}
use wekango.Env.{Env, Error, wrap}

abbrev alphabet : String
alphabet = "23456789ABCDEFGHJKLMNPQRSTWXYZabcdefghijkmnopqrstuvwxyz"

-- The letter at a position, as a text.
unfoldable pub letter_at : ℕ → String → String
letter_at n String.[] = ""
letter_at zero (String.◌∷◌ c s) = String.◌∷◌ c String.[]
letter_at (suc n) (String.◌∷◌ c s) = letter_at n s

-- `256 - 256 % len(alphabet)`: the bytes below it give each letter equally often.
abbrev pub byte_limit : ℕ
byte_limit = 220

abbrev pub letter_of : ℕ → String
letter_of b = letter_at (b % 55) alphabet

-- The inner loop, over one block.
unfoldable pub accept : List String → List ℕ → List String
unfolding letter_at
accept out [] = out
accept out (b ∷ bytes) =
    let longer = accept (out ++ letter_of b ∷ []) bytes in
    let same = accept out bytes in
    if eqb (length out) 17 then out else if ltb b byte_limit then longer else same

unfoldable pub concat : List String → String
concat [] = ""
concat (s ∷ letters) = s ⊕ concat letters

-- The outer loop: none where the rounds did not suffice.
module _ (env : Env) (block : ℕ) where
  abbrev pub next_round :
      (List String → Exec env.World Error (Option String))
      → List String
      → Result Error (List ℕ)
      → Exec env.World Error (Option String)
  next_round more out (err e) w = (err e, w)
  next_round more out (ok bytes) w = more (accept out bytes) w

  unfoldable pub id_from : ℕ → List String → Exec env.World Error (Option String)
  unfolding accept concat
  id_from zero out w = if eqb (length out) 17 then (ok (some (concat out)), w) else (ok none, w)
  id_from (suc rounds) out w =
      let round =
        (let (bytes, v) = env.random block w in next_round (id_from rounds) out bytes v) in
      if eqb (length out) 17 then (ok (some (concat out)), w) else round

-- `eventID`, `fieldRandomID` and `structuralID`
unfoldable pub event_id : (env : Env) → ℕ → Exec env.World Error (Option String)
unfolding id_from
event_id env rounds = or_else (wrap "eventlog id: ") (id_from env 17 rounds [])

unfoldable pub field_random_id : (env : Env) → ℕ → Exec env.World Error (Option String)
unfolding id_from
field_random_id env rounds = id_from env 32 rounds []

unfoldable pub structural_id : (env : Env) → ℕ → Exec env.World Error (Option String)
unfolding id_from
structural_id env rounds = id_from env 1 rounds []
