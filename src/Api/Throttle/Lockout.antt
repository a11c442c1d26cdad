-- ===== src/Api/Throttle/Lockout.antt =====
-- A locked address stays locked until its time, whatever other addresses do.
use wekango.Base.{
  ℕ, ◌+◌, ◌≤◌, ◌<◌, String, Bool, true, false, Option, none, some, [], ◌∷◌, arith, ◌≡◌, ◌∙◌, ◌≢◌,
  refl, leb, Bool-cases, length, inl, inr, eq_iff, eq_refl, ◌==◌,
}
use wekango.Base.Map.{Map, lookup, lookup-insert, lookup-delete}
use wekango.Api.Throttle.{
  Attempt, Limits, is_stale, expire, begin, finish, begin_found, claim, renew, fresh, max_attempts,
  finish_found, after_failure,
}

-- What is not stale survives the clean-up.
pub lookup-expire :
    (limits : Limits) (key : String) (now : ℕ) (a : Attempt) (s : Map Attempt)
    → lookup key s ≡ some a
    → is_stale limits now a ≡ false
    → lookup key (expire limits now s) ≡ some a
unfolding lookup expire
lookup-expire limits key now a [] found live = found
lookup-expire limits key now a ((k, b) ∷ s) found live =
    ground (arith, lookup-expire limits key now a s)

-- The address is locked until the time `t`.
pub record IsLocked (key : String) (t : ℕ) (s : Map Attempt) : Type 0 where
  pub entry : Attempt
  pub present : lookup key s ≡ some entry
  pub closed : t ≤ entry.until

claim_other :
    (key other : String) (now : ℕ) (a : Attempt) (s : Map Attempt)
    → other ≢ key
    → lookup key (claim other now a s).0 ≡ lookup key s
claim_other key other now a s ne = ground (
  arith,
  lookup-insert other key a s,
  lookup-insert other key (record a { busy = true }) s,
  eq_iff other key,
)

pub begin_found_other :
    (key other : String) (now : ℕ) (o : Option Attempt) (s : Map Attempt)
    → other ≢ key
    → lookup key (begin_found other now o s).0 ≡ lookup key s
begin_found_other key other now (some a) s ne = claim_other key other now _ s ne
begin_found_other key other now none s ne = elim (Bool-cases (leb max_attempts (length s))) [
  | inl full ↦ rw full
  | inr room ↦ rw room (claim_other key other now (renew now (fresh now)) s ne)
]

-- At a time before the end of its lockout a request of the locked address is refused.
pub begin_locked :
    (limits : Limits) (key : String) (now t : ℕ) (s : Map Attempt)
    → IsLocked key t s
    → now < t
    → (begin limits key now s).1 ≡ false
unfolding begin
begin_locked limits key now t s lock early =
    rw (lookup-expire limits key now lock.entry s lock.present (ground arith)) (ground arith)

pub begin-IsLocked :
    (limits : Limits) (key other : String) (now t : ℕ) (s : Map Attempt)
    → IsLocked key t s
    → now < t
    → IsLocked key t (begin limits other now s).0
unfolding begin
begin-IsLocked limits key other now t s lock early =
    let kept = lookup-expire limits key now lock.entry s lock.present (ground arith) in
    elim (Bool-cases (other == key)) [
      | inl same ↦ record {
        entry = lock.entry;
        present =
            rw ((eq_iff other key).0 same, kept)
              (ground (arith, eq_refl key, lookup-insert key key lock.entry (expire limits now s)));
        closed = lock.closed;
      }
      | inr differ ↦ record {
        entry = lock.entry;
        present =
            begin_found_other key other now (lookup other (expire limits now s))
              (expire limits now s) (λ e. cc (differ, (eq_iff other key).1 e))
            ∙ kept;
        closed = lock.closed;
      }
    ]

pub finish_found_other :
    (limits : Limits) (key other : String) (success : Bool) (now : ℕ) (o : Option Attempt)
    (s : Map Attempt)
    → other ≢ key
    → lookup key (finish_found limits other success now o s) ≡ lookup key s
finish_found_other limits key other success now none s ne = refl
finish_found_other limits key other true now (some a) s ne =
    ground (arith, lookup-delete other key s, eq_iff other key)
finish_found_other limits key other false now (some a) s ne =
    ground (arith, lookup-insert other key (after_failure limits now a) s, eq_iff other key)

pub finish-IsLocked :
    (limits : Limits) (key other : String) (success : Bool) (now t : ℕ) (s : Map Attempt)
    → other ≢ key
    → IsLocked key t s
    → IsLocked key t (finish limits other success now s)
unfolding finish
finish-IsLocked limits key other success now t s ne lock = record {
  entry = lock.entry;
  present = finish_found_other limits key other success now (lookup other s) s ne ∙ lock.present;
  closed = lock.closed;
}

-- The failure that reaches the limit locks the address for the lockout time.
pub finish-locks :
    (limits : Limits) (key : String) (now : ℕ) (a : Attempt) (s : Map Attempt)
    → lookup key s ≡ some a
    → limits.max_failures ≤ a.failures + 1
    → IsLocked key (now + limits.lockout) (finish limits key false now s)
unfolding finish
finish-locks limits key now a s found many = record {
  entry = after_failure limits now a;
  present =
      rw found (ground (arith, eq_refl key, lookup-insert key key (after_failure limits now a) s));
  closed = ground arith;
}
