-- ===== src/Tests/Throttle.antt =====
-- The login throttle.
use wekango.Base.{◌≤◌, ◌<◌, true, false, [], arith, ◌≡◌, refl, length, Option}
use wekango.Base.Map.{lookup, insert}
use wekango.Api.Throttle.{Attempt, Limits, max_attempts, begin, expire}
use wekango.Api.Throttle.Bounds.{begin-le-max}
use wekango.Api.Throttle.Exclusion.{
  Load, idle_load, Reach, here, next, starts, enter, leave, IsExclusive, Reach-IsExclusive, flights,
}
use wekango.Api.Throttle.Attempts.{lockout_holds, fail_times, begin-fail_times}
use wekango.Tests.Fixture.{limits}

abbrev strict : Limits
strict = record { expiration = 500; max_failures = 1; window = 60; lockout = 100 }

begin-le-max_example : length (begin limits "a" 5 []).0 ≤ max_attempts
begin-le-max_example = begin-le-max limits "a" 5 [] (omega arith)

abbrev entered : Load
entered = enter strict "a" 5 idle_load

abbrev to_entered : Reach strict 6 idle_load entered
to_entered = next here (starts "a" 5 idle_load (omega arith))

Reach-IsExclusive_example : IsExclusive entered
Reach-IsExclusive_example = Reach-IsExclusive strict 6 entered to_entered

abbrev first_try : Attempt
first_try = record { failures = 0; since = 5; until = 0; busy = true }

entered_flying : 0 < flights "a" entered.flying
unfolding begin expire lookup
entered_flying = omega arith

entered_found : lookup "a" entered.attempts ≡ Option.some first_try
unfolding begin expire lookup insert
entered_found = refl

lockout_holds_example :
    (begin strict "a" 109 (leave strict "a" false 10 entered).attempts).1 ≡ false
lockout_holds_example =
    lockout_holds strict "a" 10 6 109 first_try entered (leave strict "a" false 10 entered)
      to_entered entered_flying entered_found (omega arith) here (omega arith)

begin-fail_times_example : (begin limits "a" 7 (fail_times limits "a" 7 2)).1 ≡ false
begin-fail_times_example = begin-fail_times limits "a" 7 2 (omega arith) (omega arith)
