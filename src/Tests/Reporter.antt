-- ===== src/Tests/Reporter.antt =====
-- The usage reporter on one call.
use wekango.Base.{◌≤◌, true, false, [], ◌∷◌, ◌≡◌, refl}
use wekango.Base.Int.{pos}
use wekango.Bson.{str, Fields, fields}
use wekango.Eventlog.Values.{Printer}
use wekango.Eventlog.Reporter.{
  Reporter, new_reporter, add_event, added, works, WorkerStep, wake_received, Reach, start, next,
  waiting, measuring,
}
use wekango.Eventlog.Reporter.Waking.{IsSound, Reach-IsSound}
use wekango.Eventlog.Reporter.Ledger.{Turn, book, Step-Turn}
use wekango.Eventlog.Reporter.Quiet.{here, onward, Alone-le, IsSettling, Reach-IsSettling}
use wekango.Tests.Fixture.{database}

abbrev printer : Printer
printer = record { sprint = λ v. "?"; floats = database.floats; unix_milli = λ t. pos t }

abbrev call : Fields
call = fields (("name", str "GET /api/boards") ∷ ("userId", str "ada") ∷ [])

abbrev busy : Reporter
busy = add_event printer call new_reporter

abbrev to_busy : Reach printer busy
to_busy = next start (added call new_reporter)

abbrev woken : Reporter
woken = record busy { wake = false; worker = measuring }

busy_waiting : busy.worker ≡ waiting
unfolding add_event new_reporter
busy_waiting = refl

busy_token : busy.wake ≡ true
unfolding add_event new_reporter
busy_token = refl

abbrev to_woken : WorkerStep busy woken
to_woken = wake_received busy busy_waiting busy_token

Reach-IsSound_example : IsSound woken
Reach-IsSound_example = Reach-IsSound printer woken (next to_busy (works to_woken))

Step-Turn_example : Turn (book new_reporter) (book busy)
Step-Turn_example = Step-Turn printer new_reporter busy start (added call new_reporter)

Alone-le_example : 1 ≤ 15
Alone-le_example = Alone-le 1 busy woken (onward to_woken (here woken))

Reach-IsSettling_example : IsSettling busy
Reach-IsSettling_example = Reach-IsSettling printer busy to_busy
