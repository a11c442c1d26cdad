-- ===== src/Tests/Runner.antt =====
-- The runner of the schema upgrade: one step that runs and one whose check fails.
use wekango.Base.{ℕ, true, false, none, some, List, [], ◌∷◌, ◌≡◌, refl}
use wekango.Base.Map.{lookup}
use wekango.Base.Exec.{ok, err}
use wekango.Bson.{end}
use wekango.Env.{Env, failure}
use wekango.Migrations.Runner.{
  Step, Installation, UpgradeOptions, LastCheck, State, Progress, UpgradeResult, names,
  nothing_done, has_name, of_status, skipped,
}
use wekango.Migrations.Runner.Run.{run, run_steps}
use wekango.Migrations.Runner.Account.{are_distinct, is_reported, run_steps-accounts}
use wekango.Migrations.Runner.Gate.{after_reads, run-gated}
use wekango.Tests.Fixture.{database}

abbrev last : LastCheck
last = record { version = "v1"; at = 900 }

abbrev marked : Env
marked = record {
  World = ℕ;
  find_one = λ c f p w. (ok end, w);
  find = database.find;
  cursor = database.cursor;
  count_documents = database.count_documents;
  distinct = database.distinct;
  update_one = database.update_one;
  update_many = database.update_many;
  insert_one = database.insert_one;
  insert_many = database.insert_many;
  delete_one = database.delete_one;
  now = database.now;
  random = database.random;
  sha256 = database.sha256;
  base64_std = database.base64_std;
  base64_raw_url = database.base64_raw_url;
  hex = database.hex;
  bcrypt_matches = database.bcrypt_matches;
  floats = database.floats;
  unix_milli = database.unix_milli;
  parse_date = database.parse_date;
}

abbrev installed : Installation
installed = record {
  env = marked;
  iso_time = λ t. "time";
  decode_marker = λ d. ok (some last);
  context_error = λ w. none;
}

abbrev repair : Step ℕ
repair = record {
  name = "repair";
  check = λ w. (ok true, w);
  run = λ w. (ok (record { fixed = 2; unresolved = 0 }), w);
}

abbrev broken : Step ℕ
broken = record {
  name = "broken";
  check = λ w. (err (failure "offline"), w);
  run = λ w. (ok (record { fixed = 0; unresolved = 0 }), w);
}

abbrev steps : List (Step ℕ)
steps = broken ∷ repair ∷ []

abbrev idle : State
idle = record {
  is_running = false;
  product = "WeKan";
  app_version = "";
  started_at = none;
  finished_at = none;
  current_step = "";
  gated = false;
  steps = [];
  last_check = some last;
}

abbrev begun : Progress
begun = record { out = nothing_done; state = idle; clean = true; log = [] }

steps_distinct : are_distinct (names steps) ≡ true
unfolding are_distinct has_name
steps_distinct = refl

repair_known : has_name "repair" (names steps) ≡ true
unfolding has_name
repair_known = refl

run_steps-accounts_example : is_reported "repair" (run_steps installed steps begun 0).0 ≡ true
run_steps-accounts_example =
    run_steps-accounts installed steps begun 0 "repair" steps_distinct repair_known

abbrev upgrade : UpgradeOptions
upgrade = record { app_version = "v2"; force = false }

abbrev again : UpgradeOptions
again = record { app_version = "v1"; force = false }

abbrev gated_run : UpgradeResult × State
gated_run = let e = (run installed steps again idle 0).0 in (e.result, e.state)

run-gated_example :
    (gated_run.0 ≡ record { ran = []; skipped = names steps; results = []; gated = true })
    × (gated_run.1.is_running ≡ false)
    × (gated_run.1.gated ≡ true)
    × (lookup "repair" gated_run.1.steps ≡ some (of_status skipped))
    × ((run installed steps again idle 0).1 ≡ after_reads installed 0)
run-gated_example =
    run-gated installed steps again idle 0 end last "repair" refl refl refl refl refl repair_known
