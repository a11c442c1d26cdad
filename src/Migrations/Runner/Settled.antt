-- ===== src/Migrations/Runner/Settled.antt =====
-- internal/migrations/upgrade.go: what a clean run has done with each step.
use wekango.Base.{
  String, Bool, true, false, List, [], ◌∷◌, ◌≡◌, ◌∙◌, ap, ◌==◌, eqb, Option, none, some, arith,
  eq_iff, Bool-cases, inl, inr,
}
use mathlib.Core.Path.{subst}
use wekango.Base.Exec.{Result, ok, err}
use wekango.Base.Text.{◌⊕◌}
use wekango.Base.Map.{lookup}
use wekango.Env.{Error}
use wekango.Migrations.Runner.{
  Counts, Step, StepState, Status, checking, skipped, running, done, Progress, Installation,
  has_name, names, note_skipped, note_done, note_failed, set_step, of_status, say,
}
use wekango.Migrations.Runner.Run.{run_once, run_steps, after_check, after_run, W}
use wekango.Migrations.Runner.Keeps.{Kept, run_steps-Kept}
use wekango.Migrations.Runner.Account.{are_distinct, lookup-insert_same}

abbrev settles : Status → Counts → Bool
settles skipped counts = true
settles done counts = eqb counts.unresolved 0
settles _ counts = false

abbrev pub has_settled : Option StepState → Bool
has_settled none = false
has_settled (some entry) = settles entry.status entry.counts

-- The step had nothing to do, or it ran and left nothing unresolved.
unfoldable pub is_settled : String → Progress → Bool
unfolding lookup
is_settled name p = has_settled (lookup name p.state.steps)

module _ (inst : Installation) where
  -- A turn that ends clean began clean, and settled its step.
  after_run-clean :
      (name : String) (p : Progress) (r : Result Error Counts) (w : W inst)
      → (after_run inst name p r w).0.clean ≡ true
      → (p.clean ≡ true) × (is_settled name (after_run inst name p r w).0 ≡ true)
  unfolding is_settled note_done note_failed
  after_run-clean name p (ok c) w h =
      (ground arith, ap has_settled (lookup-insert_same name _ p.state.steps) ∙ ground arith)
  after_run-clean name p (err e) w h = cc

  after_check-clean :
      (step : Step (W inst)) (p : Progress) (r : Result Error Bool) (w : W inst)
      → (after_check inst step p r w).0.clean ≡ true
      → (p.clean ≡ true) × (is_settled step.name (after_check inst step p r w).0 ≡ true)
  unfolding is_settled note_skipped note_failed
  after_check-clean step p (ok false) w h =
      (h, ap has_settled (lookup-insert_same step.name _ p.state.steps))
  after_check-clean step p (ok true) w h =
      after_run-clean step.name
        (set_step step.name (of_status running) (say ("running " ⊕ step.name ⊕ " ...") p))
        (step.run w).0 (step.run w).1 h
  after_check-clean step p (err e) w h = cc

  run_once-clean :
      (step : Step (W inst)) (p : Progress) (w : W inst)
      → (run_once inst step p w).0.clean ≡ true
      → (p.clean ≡ true) × (is_settled step.name (run_once inst step p w).0 ≡ true)
  unfolding run_once
  run_once-clean step p w h =
      after_check-clean step (set_step step.name (of_status checking) p) (step.check w).0
        (step.check w).1 h

  run_steps-was_clean :
      (steps : List (Step (W inst))) (p : Progress) (w : W inst)
      → (run_steps inst steps p w).0.clean ≡ true
      → p.clean ≡ true
  unfolding run_steps
  run_steps-was_clean [] p w h = h
  run_steps-was_clean (step ∷ steps) p w h =
      (run_once-clean step p w
        (run_steps-was_clean steps (run_once inst step p w).0 (run_once inst step p w).1 h)).0

Kept-settled :
    (name : String) (q p : Progress) → Kept name q p → is_settled name q ≡ is_settled name p
unfolding is_settled
Kept-settled name q p k = ap has_settled k.entry

pub run_steps-settled :
    (inst : Installation) (steps : List (Step (W inst))) (p : Progress) (w : W inst) (name : String)
    → are_distinct (names steps) ≡ true
    → has_name name (names steps) ≡ true
    → (run_steps inst steps p w).0.clean ≡ true
    → is_settled name (run_steps inst steps p w).0 ≡ true
unfolding run_steps are_distinct has_name
run_steps-settled inst [] p w name d h c = ground arith
run_steps-settled inst (step ∷ steps) p w name d h c =
    let q = (run_once inst step p w).0 in
    let v = (run_once inst step p w).1 in
    elim (Bool-cases (step.name == name)) [
      | inl same ↦
          let equal : step.name ≡ name = (eq_iff step.name name).0 same in
          let absent : has_name name (names steps) ≡ false =
            subst (λ n. has_name n (names steps) ≡ false) equal (ground arith) in
          let here : is_settled step.name q ≡ true =
            (run_once-clean inst step p w (run_steps-was_clean inst steps q v c)).1 in
          Kept-settled name _ q (run_steps-Kept inst name steps q v absent)
          ∙ subst (λ n. is_settled n q ≡ true) equal here
      | inr apart ↦ run_steps-settled inst steps q v name (ground arith) (ground arith) c
    ]
