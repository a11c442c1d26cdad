-- ===== src/Tests/Random.antt =====
-- The random identifiers at a concrete source.
use wekango.Base.{[], ◌≡◌, refl, some}
use wekango.Base.Exec.{ok}
use wekango.Random.{id_from, event_id, accept, concat, letter_at}
use wekango.Random.Rounds.{Ended, usable_in, fails_in, id_from-Ended}
use wekango.Tests.Fixture.{database, clock}

run : (event_id database 17 clock).0 ≡ ok (some "99999999999999999")
unfolding event_id id_from accept concat letter_at
run = refl

id_from-Ended_example :
    Ended
      (fails_in database 17 17 clock)
      (usable_in database 17 17 clock)
      (id_from database 17 17 [] clock).0
id_from-Ended_example = id_from-Ended database 17 17 clock
