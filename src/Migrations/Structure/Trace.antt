-- ===== src/Migrations/Structure/Trace.antt =====
-- A database that keeps a record of the writes that it is asked for, and otherwise is the given one:
-- with it a run of internal/migrations/structure.go tells which documents it wrote, and in which order.
use wekango.Base.{String, List, [], ◌∷◌, ◌++◌}
use wekango.Base.Exec.{Exec}
use wekango.Bson.{Fields}
use wekango.Env.{Env}
use wekango.Migrations.Structure.{Tools}

-- collection and filter, and the update
pub data Call : Type 0 where
  update_asked : String → Fields → Fields → Call
  insert_asked : String → List Fields → Call
  delete_asked : String → Fields → Call

module _ {V : Type 0} where
  -- A call that writes nothing, and one that is noted after the earlier ones.
  abbrev pub silently : {E A : Type 0} → Exec V E A → Exec (V × List Call) E A
  silently m w = let (r, v) = m w.0 in (r, (v, w.1))

  abbrev pub noting : {E A : Type 0} → Call → Exec V E A → Exec (V × List Call) E A
  noting call m w = let (r, v) = m w.0 in (r, (v, w.1 ++ call ∷ []))

abbrev pub recording : Env → Env
recording env = record {
  World = env.World × List Call;
  find_one = λ c f p. silently (env.find_one c f p);
  find = λ c f o. silently (env.find c f o);
  cursor = λ c f o. silently (env.cursor c f o);
  count_documents = λ c f. silently (env.count_documents c f);
  distinct = λ c k f. silently (env.distinct c k f);
  update_one = λ c f u b. noting (update_asked c f u) (env.update_one c f u b);
  update_many = λ c f u. noting (update_asked c f u) (env.update_many c f u);
  insert_one = λ c d. noting (insert_asked c (d ∷ [])) (env.insert_one c d);
  insert_many = λ c ds. noting (insert_asked c ds) (env.insert_many c ds);
  delete_one = λ c f. noting (delete_asked c f) (env.delete_one c f);
  now = λ w. let (at, v) = env.now w.0 in (at, (v, w.1));
  random = λ n. silently (env.random n);
  sha256 = env.sha256;
  base64_std = env.base64_std;
  base64_raw_url = env.base64_raw_url;
  hex = env.hex;
  bcrypt_matches = env.bcrypt_matches;
  floats = env.floats;
  unix_milli = env.unix_milli;
  parse_date = env.parse_date;
}

abbrev pub recorded : Tools → Tools
recorded t = record { env = recording t.env; sprint = t.sprint; rounds = t.rounds }
