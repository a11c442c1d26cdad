-- ===== src/Api/Throttle/Attempts.antt =====
-- How many failures lock an address, and that the lockout lasts under any interleaving.
use wekango.Base.{
  ℕ, suc, zero, ◌+◌, ◌<◌, ◌≤◌, String, true, false, [], ◌∷◌, arith, ◌≡◌, sym, if◌then◌else◌, lt→ltb,
  ge→ltb, ◌≢◌, ◌∙◌, inl, inr, eq_iff, eq_refl, ltb, some, Bool-cases, ◌==◌,
}
use mathlib.Core.Path.{subst}
use native.Mathlib.Decide.{dec_le}
use wekango.Base.Map.{Map, lookup, insert}
use wekango.Api.Throttle.{Attempt, Limits, expire, begin, finish}
use wekango.Api.Throttle.Lockout.{
  IsLocked, begin_locked, begin-IsLocked, finish-IsLocked, finish-locks,
}
use wekango.Api.Throttle.Exclusion.{
  Load, flights, enter, leave, Step, starts, ends, Reach, here, next, Reach-IsExclusive,
  flights-drop_one_self, flights-drop_one_other, idle_load, IsSingle,
}

-- The address is locked until `t`, and none of its logins is in flight.
record IsShut (key : String) (t : ℕ) (s : Load) : Type 0 where
  locked : IsLocked key t s.attempts
  grounded : flights key s.flying ≡ 0

enter-grounded :
    (limits : Limits) (key other : String) (now t : ℕ) (s : Load)
    → IsShut key t s
    → now < t
    → flights key (enter limits other now s).flying ≡ 0
enter-grounded limits key other now t s h early = elim (Bool-cases (other == key)) [
  | inl same ↦
      rw ((eq_iff other key).0 same, begin_locked limits key now t s.attempts h.locked early)
        h.grounded
  | inr differ ↦ ground (arith, h.grounded)
]

Step-IsShut :
    {limits : Limits} {t : ℕ} {s u : Load} (key : String)
    → Step limits t s u
    → IsShut key t s
    → IsShut key t u
Step-IsShut {limits} {t} key (starts other now s early) h = record {
  locked = begin-IsLocked limits key other now t s.attempts h.locked early;
  grounded = enter-grounded limits key other now t s h early;
}
Step-IsShut {limits} {t} key (ends other success now s early flying) h =
    let ne : other ≢ key =
      λ e. absurd (omega (arith, h.grounded, subst (λ k. 0 < flights k s.flying) e flying)) in
    record {
      locked = finish-IsLocked limits key other success now t s.attempts ne h.locked;
      grounded = flights-drop_one_other key other s.flying ne ∙ h.grounded;
    }

Reach-IsShut :
    {limits : Limits} {t : ℕ} {s : Load} (key : String) (u : Load)
    → Reach limits t s u
    → IsShut key t s
    → IsShut key t u
Reach-IsShut key u here h = h
Reach-IsShut key u (next r st) h = Step-IsShut key st (Reach-IsShut key _ r h)

flights-flying_one :
    (key : String) (s : Load) → IsSingle key s → 0 < flights key s.flying → flights key s.flying ≡ 1
flights-flying_one key s (inl none_left) h = absurd (omega arith)
flights-flying_one key s (inr (one, b)) h = one

-- In any interleaving from the empty throttle, when a login in flight fails and its address has
-- reached the limit of failures, every later request of that address is refused until the lockout
-- time has passed, whatever the requests of all addresses do in between.
pub lockout_holds :
    (limits : Limits) (key : String) (now t later : ℕ) (a : Attempt) (s u : Load)
    → Reach limits t idle_load s
    → 0 < flights key s.flying
    → lookup key s.attempts ≡ some a
    → limits.max_failures ≤ a.failures + 1
    → Reach limits (now + limits.lockout) (leave limits key false now s) u
    → later < now + limits.lockout
    → (begin limits key later u.attempts).1 ≡ false
lockout_holds limits key now t later a s u past flying found many after early =
    let single = (Reach-IsExclusive limits t s past).single key in
    let shut : IsShut key (now + limits.lockout) (leave limits key false now s) = record {
      locked = finish-locks limits key now a s.attempts found many;
      grounded = flights-drop_one_self key s.flying (flights-flying_one key s single flying);
    } in
    begin_locked limits key later (now + limits.lockout) u.attempts
      (Reach-IsShut key u after shut).locked early

-- A login that fails, if it is let in.
abbrev pub fail_once : Limits → String → ℕ → Map Attempt → Map Attempt
fail_once limits key now s =
    let (attempts, accepted) = begin limits key now s in
    if accepted then finish limits key false now attempts else attempts

pub fail_times : Limits → String → ℕ → ℕ → Map Attempt
fail_times limits key now zero = []
fail_times limits key now (suc n) = fail_once limits key now (fail_times limits key now n)

abbrev counted : ℕ → ℕ → Attempt
counted now n = record { failures = n; since = now; until = 0; busy = false }

-- After `suc n` failures below the limit the entry counts them.
fail_times-below :
    (limits : Limits) (key : String) (now n : ℕ)
    → suc n < limits.max_failures
    → fail_times limits key now (suc n) ≡ (key, counted now (suc n)) ∷ []
unfolding fail_times begin finish expire lookup insert
fail_times-below limits key now zero h = ground (arith, eq_refl key)
fail_times-below limits key now (suc n) h =
    rw (fail_times-below limits key now n (omega arith)) (ground (arith, eq_refl key))

last_failure :
    (limits : Limits) (key : String) (now n : ℕ)
    → limits.max_failures ≡ suc n
    → IsLocked key (now + limits.lockout) (fail_times limits key now (suc n))
unfolding fail_times begin finish expire lookup insert
last_failure limits key now zero h = record {
  entry = record { failures = 1; since = now; until = now + limits.lockout; busy = false };
  present = ground (arith, eq_refl key);
  closed = omega arith;
}
last_failure limits key now (suc n) h = record {
  entry = record { failures = suc n + 1; since = now; until = now + limits.lockout; busy = false };
  present = rw (fail_times-below limits key now n (omega arith)) (ground (arith, eq_refl key));
  closed = omega arith;
}

fail_once-IsLocked :
    (limits : Limits) (key : String) (now t : ℕ) (s : Map Attempt)
    → IsLocked key t s
    → now < t
    → IsLocked key t (fail_once limits key now s)
fail_once-IsLocked limits key now t s lock early =
    rw (begin_locked limits key now t s lock early)
      (begin-IsLocked limits key key now t s lock early)

fail_times-IsLocked :
    (limits : Limits) (key : String) (now n : ℕ)
    → 0 < limits.max_failures
    → 0 < limits.lockout
    → limits.max_failures ≤ n
    → IsLocked key (now + limits.lockout) (fail_times limits key now n)
unfolding fail_times
fail_times-IsLocked limits key now zero pos lockout h = absurd (omega arith)
fail_times-IsLocked limits key now (suc n) pos lockout h = elim (dec_le limits.max_failures n) [
  | yes past ↦
      fail_once-IsLocked limits key now (now + limits.lockout) (fail_times limits key now n)
        (fail_times-IsLocked limits key now n pos lockout past) (omega arith)
  | no reached ↦ last_failure limits key now n (omega arith)
]

begin_below :
    (limits : Limits) (key : String) (now n : ℕ)
    → n < limits.max_failures
    → (begin limits key now (fail_times limits key now n)).1 ≡ true
unfolding fail_times begin expire lookup
begin_below limits key now zero h = ground arith
begin_below limits key now (suc n) h =
    rw (fail_times-below limits key now n h) (ground (arith, eq_refl key))

-- An address gets exactly `max_failures` tries: after `n` failed logins at one time the next
-- request is let in if and only if `n` is below the limit.
pub begin-fail_times :
    (limits : Limits) (key : String) (now n : ℕ)
    → 0 < limits.max_failures
    → 0 < limits.lockout
    → (begin limits key now (fail_times limits key now n)).1 ≡ ltb n limits.max_failures
begin-fail_times limits key now n pos lockout = elim (dec_le limits.max_failures n) [
  | yes past ↦
      begin_locked limits key now (now + limits.lockout) (fail_times limits key now n)
        (fail_times-IsLocked limits key now n pos lockout past) (omega arith)
      ∙ sym (ge→ltb n limits.max_failures past)
  | no below ↦
      begin_below limits key now n (omega arith) ∙ sym (lt→ltb n limits.max_failures (omega arith))
]
