-- ===== src/Migrations/Runner/Account.antt =====
-- internal/migrations/upgrade.go, `Run`: what becomes of every registered step.
use wekango.Base.{
  ℕ, String, Bool, true, false, not, ◌&&◌, List, [], ◌∷◌, ◌++◌, ◌≡◌, refl, ◌∙◌, ap, ◌==◌, eqb,
  Option, none, some, arith, eq_iff, Bool-cases, inl, inr,
}
use mathlib.Core.Path.{subst}
use wekango.Base.Exec.{Result, ok, err}
use wekango.Base.Map.{lookup, insert, lookup-insert}
use wekango.Env.{Error}
use wekango.Migrations.Runner.{
  Counts, Step, StepState, Status, pending, checking, skipped, running, done, error, Outcome,
  counted, failed, UpgradeResult, Progress, Installation, has_name, names, note_skipped, note_done,
  note_failed, set_step, of_status,
}
use wekango.Migrations.Runner.Keeps.{Kept, has_name-append, run_steps-Kept}
use wekango.Migrations.Runner.Run.{run_once, run_steps, after_check, after_run}

abbrev is_counted : Option Outcome → Counts → Bool
is_counted (some (counted c)) d = eqb c.fixed d.fixed && eqb c.unresolved d.unresolved
is_counted _ d = false

abbrev is_failed : Option Outcome → String → Bool
is_failed (some (failed e)) message = e == message
is_failed _ message = false

abbrev agrees : Status → StepState → String → UpgradeResult → Bool
agrees skipped entry name out = has_name name out.skipped
agrees done entry name out =
    has_name name out.ran && is_counted (lookup name out.results) entry.counts
agrees error entry name out = is_failed (lookup name out.results) entry.message
agrees _ entry name out = false

abbrev reports : Option StepState → String → UpgradeResult → Bool
reports none name out = false
reports (some entry) name out = agrees entry.status entry name out

-- The entry of the step is final, and the result says the same of it.
unfoldable pub is_reported : String → Progress → Bool
unfolding lookup has_name
is_reported name p = reports (lookup name p.state.steps) name p.out

pub lookup-insert_same :
    {V : Type 0} → (k : String) (v : V) (m : List (String × V)) → lookup k (insert k v m) ≡ some v
lookup-insert_same k v m = ground (arith, lookup-insert k k v m, eq_iff k k)

eqb_refl : (n : ℕ) → eqb n n ≡ true
eqb_refl n = ground arith

has_name-append_same : (n : String) (l : List String) → has_name n (l ++ n ∷ []) ≡ true
has_name-append_same n l = ground (arith, has_name-append n n l, eq_iff n n)

name_refl : (n : String) → (n == n) ≡ true
name_refl n = ground (arith, eq_iff n n)

note_skipped-reports :
    (name : String) (p : Progress) → is_reported name (note_skipped name p) ≡ true
unfolding is_reported note_skipped
note_skipped-reports name p = simp (lookup-insert_same, has_name-append_same)

note_done-reports :
    (name : String) (c : Counts) (p : Progress) → is_reported name (note_done name c p) ≡ true
unfolding is_reported note_done
note_done-reports name c p = simp (lookup-insert_same, has_name-append_same, eqb_refl)

note_failed-reports :
    (name : String) (e : Error) (p : Progress) → is_reported name (note_failed name e p) ≡ true
unfolding is_reported note_failed
note_failed-reports name e p = simp (lookup-insert_same, name_refl)

after_run-reports :
    (inst : Installation) (name : String) (p : Progress) (r : Result Error Counts)
    (w : inst.env.World)
    → is_reported name (after_run inst name p r w).0 ≡ true
after_run-reports inst name p (ok c) w = note_done-reports name c p
after_run-reports inst name p (err e) w = note_failed-reports name e p

after_check-reports :
    (inst : Installation) (step : Step inst.env.World) (p : Progress) (r : Result Error Bool)
    (w : inst.env.World)
    → is_reported step.name (after_check inst step p r w).0 ≡ true
after_check-reports inst step p (ok false) w = note_skipped-reports step.name p
after_check-reports inst step p (ok true) w =
    after_run-reports inst step.name _ (step.run w).0 (step.run w).1
after_check-reports inst step p (err e) w = note_failed-reports step.name e p

agrees-cong :
    (s : Status) (entry : StepState) (name : String) (q p : Progress)
    → Kept name q p
    → agrees s entry name q.out ≡ agrees s entry name p.out
agrees-cong pending entry name q p k = refl
agrees-cong checking entry name q p k = refl
agrees-cong running entry name q p k = refl
agrees-cong skipped entry name q p k = k.was_skipped
agrees-cong done entry name q p k = rw (k.was_run, k.outcome) refl
agrees-cong error entry name q p k = ap (λ o. is_failed o entry.message) k.outcome

reports-cong :
    (entry : Option StepState) (name : String) (q p : Progress)
    → Kept name q p
    → reports entry name q.out ≡ reports entry name p.out
reports-cong none name q p k = refl
reports-cong (some entry) name q p k = agrees-cong entry.status entry name q p k

Kept-reported :
    (name : String) (q p : Progress) → Kept name q p → is_reported name q ≡ is_reported name p
unfolding is_reported
Kept-reported name q p k =
    ap (λ e. reports e name q.out) k.entry ∙ reports-cong (lookup name p.state.steps) name q p k

run_once-reports :
    (inst : Installation) (step : Step inst.env.World) (p : Progress) (w : inst.env.World)
    → is_reported step.name (run_once inst step p w).0 ≡ true
unfolding run_once
run_once-reports inst step p w =
    after_check-reports inst step (set_step step.name (of_status checking) p) (step.check w).0
      (step.check w).1

-- Whether no name comes twice.
unfoldable pub are_distinct : List String → Bool
unfolding has_name
are_distinct [] = true
are_distinct (n ∷ names) = not (has_name n names) && are_distinct names

-- Whatever the checks and the runs of the steps do, every registered step ends in one of the three
-- final states, and the result of the run says the same of it: a skipped step is in `skipped`, a
-- done one in `ran` and its counts in `results`, a failed one has its error in `results`. The names
-- of the steps are distinct.
pub run_steps-accounts :
    (inst : Installation) (steps : List (Step inst.env.World)) (p : Progress) (w : inst.env.World)
    (name : String)
    → are_distinct (names steps) ≡ true
    → has_name name (names steps) ≡ true
    → is_reported name (run_steps inst steps p w).0 ≡ true
unfolding run_steps are_distinct has_name
run_steps-accounts inst [] p w name d h = ground arith
run_steps-accounts inst (step ∷ steps) p w name d h = elim (Bool-cases (step.name == name)) [
  | inl same ↦
      let equal : step.name ≡ name = (eq_iff step.name name).0 same in
      let absent : has_name name (names steps) ≡ false =
        subst (λ n. has_name n (names steps) ≡ false) equal (ground arith) in
      Kept-reported name _ _ (run_steps-Kept inst name steps _ _ absent)
      ∙ subst (λ n. is_reported n (run_once inst step p w).0 ≡ true) equal
          (run_once-reports inst step p w)
  | inr apart ↦ run_steps-accounts inst steps _ _ name (ground arith) (ground arith)
]
