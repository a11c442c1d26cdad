-- ===== src/Tests/Security.antt =====
-- Security events: one that blocks an account.
use wekango.Base.{false, ◌≡◌, ◌⊎◌, [], ◌∷◌}
use wekango.Base.Exec.{ok}
use wekango.Bson.{str, Fields, fields}
use wekango.Bson.Fetch.{get}
use wekango.Eventlog.Security.{block_security_account}
use wekango.Eventlog.Security.Blocks.{IsBlocking, IsBlocked, block_security_account-IsBlocking}
use wekango.Tests.Fixture.{database}
use wekango.Tests.Summary.{formats}

abbrev attack : Fields
attack =
    fields (("userId", str "eve") ∷ ("action", str "blocked") ∷ ("key", str "injection.sql") ∷ [])

block_security_account-IsBlocking_example :
    (block_security_account formats database attack 7 0 ≡ (ok false, 0))
    ⊎ IsBlocking formats attack
      × IsBlocked database
          (get "userId" attack)
          0
          (block_security_account formats database attack 7 0).1
block_security_account-IsBlocking_example =
    block_security_account-IsBlocking formats database attack 7 0
