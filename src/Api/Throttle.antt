-- ===== src/Api/Throttle.antt =====
-- The login throttle of internal/api/api.go: `attempt`, `begin`, `finish`, and the defaults that
-- `New` gives its limits. The mutex makes each call one step; `time.Now()` is an argument.
-- Times are nanoseconds since Go's zero time, so `IsZero` is a test for 0.
pub mod Bounds
pub mod Exclusion
pub mod Lockout
pub mod Attempts
use wekango.Base.{
  ℕ, ◌+◌, ◌-◌, ◌*◌, ◌^◌, min, String, Bool, true, false, not, ◌&&◌, ◌||◌, Option, none, some, [],
  ◌∷◌, ltb, leb, eqb, if◌then◌else◌, length,
}
use wekango.Base.Int.{ℤ, pos, negsuc}
use wekango.Base.Map.{Map, lookup, insert, delete}

pub record Attempt : Type 0 where
  pub failures : ℕ
  pub since : ℕ
  pub until : ℕ
  pub busy : Bool

pub record Limits : Type 0 where
  pub expiration : ℕ
  pub max_failures : ℕ
  pub window : ℕ
  pub lockout : ℕ

abbrev second : ℕ
second = 1_000_000_000

-- `if v <= 0 { v = fallback }`
abbrev positive_or : ℕ → ℤ → ℕ
positive_or fallback (pos n) = if eqb n 0 then fallback else n
positive_or fallback (negsuc n) = fallback

-- The head of `New`: expiration, failures, window and lockout as configured.
unfoldable pub new_limits : ℤ → ℤ → ℤ → ℤ → Limits
new_limits expiration max_failures window lockout = record {
  expiration = positive_or (90 * 24 * 3600 * second) expiration;
  max_failures = positive_or 10 max_failures;
  window = positive_or (60 * second) window;
  lockout = positive_or (60 * second) lockout;
}

abbrev pub max_attempts : ℕ
max_attempts = 10000

-- `now.Sub(t)` saturates at the largest duration; before `t` it is negative, so no window passes.
abbrev pub elapsed : ℕ → ℕ → ℕ
elapsed now t = min (now - t) (2 ^ 63 - 1)

-- What the loop at the head of `begin` deletes.
abbrev pub is_stale : Limits → ℕ → Attempt → Bool
is_stale limits now a = not a.busy && ltb a.until now && ltb limits.window (elapsed now a.since)

unfoldable pub expire : Limits → ℕ → Map Attempt → Map Attempt
expire limits now [] = []
expire limits now ((k, a) ∷ rest) =
    let kept = expire limits now rest in if is_stale limits now a then kept else (k, a) ∷ kept

abbrev pub fresh : ℕ → Attempt
fresh now = record { failures = 0; since = now; until = 0; busy = false }

-- A lockout that is over is forgotten.
abbrev pub renew : ℕ → Attempt → Attempt
renew now a =
    if not (eqb a.until 0) && not (ltb now a.until)
    then record a { failures = 0; since = now; until = 0 }
    else a

abbrev pub claim : String → ℕ → Attempt → Map Attempt → Map Attempt × Bool
claim key now a attempts =
    if a.busy || ltb now a.until
    then (insert key a attempts, false)
    else (insert key (record a { busy = true }) attempts, true)

abbrev pub begin_found : String → ℕ → Option Attempt → Map Attempt → Map Attempt × Bool
begin_found key now (some a) attempts = claim key now (renew now a) attempts
begin_found key now none attempts =
    if leb max_attempts (length attempts)
    then (attempts, false)
    else claim key now (renew now (fresh now)) attempts

unfoldable pub begin : Limits → String → ℕ → Map Attempt → Map Attempt × Bool
begin limits key now attempts =
    let live = expire limits now attempts in begin_found key now (lookup key live) live

abbrev pub after_failure : Limits → ℕ → Attempt → Attempt
after_failure limits now a =
    if leb limits.max_failures (a.failures + 1)
    then record a { busy = false; failures = a.failures + 1; until = now + limits.lockout }
    else record a { busy = false; failures = a.failures + 1 }

abbrev pub finish_found : Limits → String → Bool → ℕ → Option Attempt → Map Attempt → Map Attempt
finish_found limits key success now none attempts = attempts
finish_found limits key true now (some a) attempts = delete key attempts
finish_found limits key false now (some a) attempts =
    insert key (after_failure limits now a) attempts

unfoldable pub finish : Limits → String → Bool → ℕ → Map Attempt → Map Attempt
finish limits key success now attempts =
    finish_found limits key success now (lookup key attempts) attempts
