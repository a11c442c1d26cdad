-- ===== src/Migrations/Runner/Keeps.antt =====
-- internal/migrations/upgrade.go, `Run`: what a step leaves of the entries of the others.
use wekango.Base.{String, Bool, true, false, ◌||◌, List, [], ◌∷◌, ◌++◌, ◌≡◌, refl, ◌∙◌, ◌==◌, arith}
use wekango.Base.Exec.{Result, ok, err}
use wekango.Base.Text.{◌⊕◌}
use wekango.Base.Map.{lookup, insert, lookup-insert}
use wekango.Env.{Error}
use wekango.Migrations.Runner.{
  Counts, Step, StepState, checking, running, Progress, Installation, has_name, names, note_skipped,
  note_done, note_failed, set_step, of_status, say,
}
use wekango.Migrations.Runner.Run.{run_once, run_steps, after_check, after_run}

pub has_name-append :
    (n x : String) (l : List String) → has_name n (l ++ x ∷ []) ≡ has_name n l || x == n
unfolding has_name
has_name-append n x [] = ground arith
has_name-append n x (y ∷ l) = ground (arith, has_name-append n x l)

-- What the other steps leave of a step: its entry and what the result says of it.
pub record Kept (name : String) (q p : Progress) : Type 0 where
  pub entry : lookup name q.state.steps ≡ lookup name p.state.steps
  pub outcome : lookup name q.out.results ≡ lookup name p.out.results
  pub was_skipped : has_name name q.out.skipped ≡ has_name name p.out.skipped
  pub was_run : has_name name q.out.ran ≡ has_name name p.out.ran

lookup-insert_other :
    {V : Type 0}
    → (k j : String) (v : V) (m : List (String × V)) → (k == j) ≡ false
    → lookup j (insert k v m) ≡ lookup j m
lookup-insert_other k j v m h = ground (arith, lookup-insert k j v m)

has_name-append_other :
    (n x : String) (l : List String) → (x == n) ≡ false → has_name n (l ++ x ∷ []) ≡ has_name n l
has_name-append_other n x l h = ground (arith, has_name-append n x l)

module _ (name other : String) (apart : (other == name) ≡ false) where
  pub note_skipped-Kept : (p : Progress) → Kept name (note_skipped other p) p
  unfolding note_skipped
  note_skipped-Kept p = record {
    entry = lookup-insert_other other name _ p.state.steps apart;
    outcome = refl;
    was_skipped = has_name-append_other name other p.out.skipped apart;
    was_run = refl;
  }

  pub note_done-Kept : (c : Counts) (p : Progress) → Kept name (note_done other c p) p
  unfolding note_done
  note_done-Kept c p = record {
    entry = lookup-insert_other other name _ p.state.steps apart;
    outcome = lookup-insert_other other name _ p.out.results apart;
    was_skipped = refl;
    was_run = has_name-append_other name other p.out.ran apart;
  }

  pub note_failed-Kept : (e : Error) (p : Progress) → Kept name (note_failed other e p) p
  unfolding note_failed
  note_failed-Kept e p = record {
    entry = lookup-insert_other other name _ p.state.steps apart;
    outcome = lookup-insert_other other name _ p.out.results apart;
    was_skipped = refl;
    was_run = refl;
  }

  pub set_step-Kept : (entry : StepState) (p : Progress) → Kept name (set_step other entry p) p
  set_step-Kept entry p = record {
    entry = lookup-insert_other other name entry p.state.steps apart;
    outcome = refl;
    was_skipped = refl;
    was_run = refl;
  }

Kept-trans : (name : String) (r q p : Progress) → Kept name r q → Kept name q p → Kept name r p
Kept-trans name r q p a b = record {
  entry = a.entry ∙ b.entry;
  outcome = a.outcome ∙ b.outcome;
  was_skipped = a.was_skipped ∙ b.was_skipped;
  was_run = a.was_run ∙ b.was_run;
}

module _ (inst : Installation) (name : String) (step : Step inst.env.World)
    (apart : (step.name == name) ≡ false) where
  after_run-Kept :
      (q p : Progress) (r : Result Error Counts) (w : inst.env.World)
      → Kept name q p
      → Kept name (after_run inst step.name q r w).0 p
  after_run-Kept q p (ok c) w k = Kept-trans name _ q p (note_done-Kept name step.name apart c q) k
  after_run-Kept q p (err e) w k =
      Kept-trans name _ q p (note_failed-Kept name step.name apart e q) k

  after_check-Kept :
      (q p : Progress) (r : Result Error Bool) (w : inst.env.World)
      → Kept name q p
      → Kept name (after_check inst step q r w).0 p
  after_check-Kept q p (ok false) w k =
      Kept-trans name _ q p (note_skipped-Kept name step.name apart q) k
  after_check-Kept q p (ok true) w k =
      let said = say ("running " ⊕ step.name ⊕ " ...") q in
      after_run-Kept _ p (step.run w).0 (step.run w).1 (
        Kept-trans name _ said p (set_step-Kept name step.name apart (of_status running) said)
          (record {
            entry = k.entry;
            outcome = k.outcome;
            was_skipped = k.was_skipped;
            was_run = k.was_run;
          }))
  after_check-Kept q p (err e) w k =
      Kept-trans name _ q p (note_failed-Kept name step.name apart e q) k

  pub run_once-Kept : (p : Progress) (w : inst.env.World) → Kept name (run_once inst step p w).0 p
  unfolding run_once
  run_once-Kept p w =
      after_check-Kept _ p (step.check w).0 (step.check w).1
        (set_step-Kept name step.name apart (of_status checking) p)

-- A later step has another name.
pub run_steps-Kept :
    (inst : Installation) (name : String) (steps : List (Step inst.env.World)) (p : Progress)
    (w : inst.env.World)
    → has_name name (names steps) ≡ false
    → Kept name (run_steps inst steps p w).0 p
unfolding run_steps has_name
run_steps-Kept inst name [] p w absent = record {
  entry = refl;
  outcome = refl;
  was_skipped = refl;
  was_run = refl;
}
run_steps-Kept inst name (step ∷ steps) p w absent =
    Kept-trans name _ (run_once inst step p w).0 p
      (run_steps-Kept inst name steps (run_once inst step p w).0 (run_once inst step p w).1
        (ground arith))
      (run_once-Kept inst name step (ground arith) p w)
