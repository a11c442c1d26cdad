-- ===== src/Tests/Writer.antt =====
-- The event log writer on one event.
use Prim.Native.String
use wekango.Base.{ℕ, ◌≤◌, String, [], ◌≡◌, refl, some, none, arith, length, max, if◌then◌else◌, eqb}
use wekango.Base.Units.{take_units}
use wekango.Base.Exec.{ok}
use wekango.Bson.{double}
use wekango.Bson.Fetch.{find}
use wekango.Eventlog.Summary.{max_actors}
use wekango.Eventlog.Summary.Updates.{actor_update, actor_path}
use wekango.Eventlog.Writer.{WriterEnv, State, new_writer, fold, once, mark, actor_of, row_update}
use wekango.Eventlog.Writer.Cap.{actor_of-actor_path, length-mark-actor_update}
use wekango.Eventlog.Writer.Cache.{IsBounded, fold-IsBounded}
use wekango.Eventlog.Writer.Once.{increments, count-row_update}
use wekango.Tests.Fixture.{database, clock}
use wekango.Tests.Summary.{formats, event}

abbrev writer_env : WriterEnv
writer_env = record {
  env = database;
  formats = formats;
  context_error = λ w. none;
  of_unix_milli = λ ms. 0;
  marshal = λ identity. ok "row";
  decode_username = λ user. ok "ada";
  rounds = 17;
}

abbrev fresh_state : State ℕ
fresh_state = record { writer = new_writer; world = clock }

fold-IsBounded_example : IsBounded (fold writer_env event fresh_state).1.writer
fold-IsBounded_example = fold-IsBounded writer_env event fresh_state (omega arith, omega arith)

abbrev key : String
key = "0123456789abcdef"

actor_of-actor_path_example :
    actor_of (actor_path key ".count") ≡ (if eqb (String.len key) 16 then some key else none)
actor_of-actor_path_example = actor_of-actor_path key

length-mark-actor_update_example :
    length (mark [] (actor_update formats 7 once [] event).inc) ≤ max max_actors 0
length-mark-actor_update_example = length-mark-actor_update formats 7 once [] event

count-row_update_example :
    find "count"
      (increments (row_update writer_env event 7 (actor_update formats 7 once [] event) "id"))
    ≡ some (double once)
count-row_update_example = count-row_update writer_env event 7 [] "id"

-- A pair of surrogates that is cut in two leaves a replacement character.
cut : take_units 2 "a😀" ≡ "a�"
unfolding take_units
cut = refl
