-- ===== src/Migrations/Runner/Run.antt =====
-- internal/migrations/upgrade.go: `Run` and the loop over the steps.
use wekango.Base.{
  String, Bool, true, false, not, ◌&&◌, List, [], ◌∷◌, ◌==◌, Option, none, some, if◌then◌else◌, ℕ,
}
use wekango.Base.Exec.{Result, ok, err}
use wekango.Base.Int.{pos}
use wekango.Base.Map.{insert}
use wekango.Base.Text.{◌⊕◌, trim_space}
use wekango.Bson.{bool, int, str, time, Fields, end, fields, doc_of}
use wekango.Bson.Fetch.{get, as_str}
use wekango.Env.{error_text, Error, no_documents, failure, Updated}
use wekango.Migrations.Runner.{
  Counts, Step, LastCheck, State, Progress, UpgradeOptions, Ended, Installation, marker_collection,
  marker_id, checking, running, of_status, names, set_step, say, note_skipped, note_done,
  note_failed, nothing_done, skip_all, pending_steps,
}

module _ (inst : Installation) where
  abbrev pub W : Type 0
  W = inst.env.World

  abbrev history : String → Counts → ℕ → Fields
  history name counts at = fields (
      (
        "$set",
        doc_of (
            (
              "steps." ⊕ name,
              doc_of (
                  ("doneAt", time at)
                  ∷ ("fixed", int (pos counts.fixed))
                  ∷ ("unresolved", int (pos counts.unresolved))
                  ∷ []),
            )
            ∷ []),
      )
      ∷ [])

  abbrev pub marker_filter : Fields
  marker_filter = fields (("_id", str marker_id) ∷ [])

  -- The history entry of a step: its failure is dropped.
  abbrev write_history : String → Counts → W → W
  write_history name counts w =
      let (at, w) = inst.env.now w in
      (inst.env.update_one marker_collection marker_filter (history name counts at) true w).1

  abbrev pub after_run : String → Progress → Result Error Counts → W → Progress × W
  after_run name p (ok counts) w = (note_done name counts p, write_history name counts w)
  after_run name p (err e) w = (note_failed name e p, w)

  abbrev pub after_check : Step W → Progress → Result Error Bool → W → Progress × W
  after_check step p (ok false) w = (note_skipped step.name p, w)
  after_check step p (ok true) w =
      let (ran, w) = step.run w in
      let q = set_step step.name (of_status running) (say ("running " ⊕ step.name ⊕ " ...") p) in
      after_run step.name q ran w
  after_check step p (err e) w = (note_failed step.name e p, w)

  -- One turn of the loop.
  unfoldable pub run_once : Step W → Progress → W → Progress × W
  unfolding note_skipped note_done note_failed insert
  run_once step p w =
      let (needed, w) = step.check w in
      after_check step (set_step step.name (of_status checking) p) needed w

  unfoldable pub run_steps : List (Step W) → Progress → W → Progress × W
  unfolding run_once
  run_steps [] p w = (p, w)
  run_steps (step ∷ steps) p w = let (q, w) = run_once step p w in run_steps steps q w

  abbrev pub update_failed : Result Error Updated → Progress → Progress
  update_failed (ok n) p = p
  update_failed (err e) p = say ("marker lastCheck update failed: " ⊕ error_text e) p

  abbrev stamp_document : LastCheck → Fields
  stamp_document last = fields (
      (
        "$set",
        doc_of (
            ("lastCheck", doc_of (("version", str last.version) ∷ ("at", time last.at) ∷ [])) ∷ []),
      )
      ∷ [])

  abbrev last_for : UpgradeOptions → W → LastCheck
  last_for opts w = record { version = opts.app_version; at = (inst.env.now w).0 }

  abbrev pub with_last : UpgradeOptions → Progress → W → Progress
  with_last opts p w = record p { state = record p.state { last_check = some (last_for opts w) } }

  abbrev pub write_last : UpgradeOptions → W → Result Error Updated × W
  write_last opts w =
      inst.env.update_one marker_collection marker_filter (stamp_document (last_for opts w)) true
        (inst.env.now w).1

  -- After a clean loop: the marker that closes the gate for this version.
  unfoldable pub stamp : UpgradeOptions → Progress → W → Progress × W
  stamp opts p w =
      let (updated, v) = write_last opts w in
      if p.clean then (update_failed updated (with_last opts p w), v) else (p, w)

  abbrev product_of : Option String → String
  product_of none = "WeKan"
  product_of (some name) = if trim_space name == "" then "WeKan" else trim_space name

  abbrev product_from : Result Error Fields → String
  product_from (ok d) = product_of (as_str (get "productName" d))
  product_from (err e) = "WeKan"

  -- The state at the start of the run, and the product name once it is read.
  abbrev opened : List (Step W) → UpgradeOptions → Option LastCheck → String → String → State
  opened steps opts last start product = record {
    is_running = true;
    product = product;
    app_version = opts.app_version;
    started_at = some start;
    finished_at = none;
    current_step = "";
    gated = false;
    steps = pending_steps (names steps);
    last_check = last;
  }

  -- The deferred change.
  unfoldable pub closed : Progress × W → Ended × W
  closed (p, w) =
      let (at, w) = inst.env.now w in
      (
        record {
          result = p.out;
          error = none;
          state = record p.state {
            is_running = false;
            current_step = "";
            finished_at = some (inst.iso_time at);
          };
          log = p.log;
        },
        w,
      )

  -- The version gate.
  unfoldable pub is_gated : UpgradeOptions → Option LastCheck → Bool
  is_gated opts none = false
  is_gated opts (some last) = not opts.force && last.version == opts.app_version

  abbrev gate : List (Step W) → Progress → Progress
  gate steps p = record p {
    out = record p.out { gated = true; skipped = names steps };
    state = record p.state { gated = true; steps = skip_all p.state.steps };
  }

  abbrev pub loop : List (Step W) → UpgradeOptions → Option LastCheck → State → W → Progress × W
  loop steps opts last state w =
      let p : Progress = record { out = nothing_done; state = state; clean = true; log = [] } in
      if is_gated opts last
      then (gate steps p, w)
      else (let (q, v) = run_steps steps p w in stamp opts q v)

  abbrev pub begin_run : List (Step W) → UpgradeOptions → Option LastCheck → W → Ended × W
  begin_run steps opts last w =
      let (started, w) = inst.env.now w in
      let filter = fields (("productName", doc_of (("$exists", bool true) ∷ [])) ∷ []) in
      let (setting, w) =
        inst.env.find_one "settings" filter (fields (("productName", int (pos 1)) ∷ [])) w in
      closed (
        loop steps opts last (opened steps opts last (inst.iso_time started) (product_from setting))
          w)

  -- The marker as it is read: a missing one is no error.
  abbrev pub marker_of : Result Error Fields → Result Error (Option LastCheck)
  marker_of (ok d) = inst.decode_marker d
  marker_of (err no_documents) = ok none
  marker_of (err (failure message)) = err (failure message)

  abbrev refused : State → Error → Ended
  refused state e = record { result = nothing_done; error = some e; state = state; log = [] }

  abbrev pub after_marker :
      List (Step W) → UpgradeOptions → State → Result Error (Option LastCheck) → W → Ended × W
  after_marker steps opts state (ok last) w = begin_run steps opts last w
  after_marker steps opts state (err e) w = (refused state e, w)

  abbrev pub run_alive : List (Step W) → UpgradeOptions → State → Option Error → W → Ended × W
  run_alive steps opts state (some e) w = (refused state e, w)
  run_alive steps opts state none w =
      let (found, w) = inst.env.find_one marker_collection marker_filter end w in
      after_marker steps opts state (marker_of found) w

  -- `Run`
  unfoldable pub run : List (Step W) → UpgradeOptions → State → W → Ended × W
  unfolding run_steps stamp closed is_gated trim_space get
  run steps opts state w = run_alive steps opts state (inst.context_error w) w
