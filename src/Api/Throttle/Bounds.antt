-- ===== src/Api/Throttle/Bounds.antt =====
-- The throttle keeps at most `max_attempts` addresses.
use wekango.Base.{
  ℕ, ◌+◌, ◌≤◌, String, Bool, true, false, Option, none, some, [], ◌∷◌, arith, length, Bool-cases,
  leb, ◌≡◌, refl, inl, inr,
}
use wekango.Base.Map.{Map, lookup, length-insert, length-insert-some, length-delete}
use wekango.Api.Throttle.{
  Attempt, Limits, max_attempts, expire, begin, finish, begin_found, claim, renew, fresh,
  finish_found, after_failure,
}

pub length-expire :
    (limits : Limits) (now : ℕ) (s : Map Attempt) → length (expire limits now s) ≤ length s
unfolding expire
length-expire limits now [] = omega arith
length-expire limits now ((k, a) ∷ s) = ground (arith, length-expire limits now s)

length-claim :
    (key : String) (now : ℕ) (a : Attempt) (s : Map Attempt)
    → length (claim key now a s).0 ≤ length s + 1
length-claim key now a s =
    ground (arith, length-insert key a s, length-insert key (record a { busy = true }) s)

length-claim-some :
    (key : String) (now : ℕ) (a b : Attempt) (s : Map Attempt)
    → lookup key s ≡ some b
    → length (claim key now a s).0 ≡ length s
length-claim-some key now a b s found = ground (
  arith,
  length-insert-some key a b s found,
  length-insert-some key (record a { busy = true }) b s found,
)

begin_found-le-max :
    (key : String) (now : ℕ) (o : Option Attempt) (s : Map Attempt)
    → lookup key s ≡ o
    → length s ≤ max_attempts
    → length (begin_found key now o s).0 ≤ max_attempts
begin_found-le-max key now (some a) s found h =
    rw (length-claim-some key now (renew now a) a s found) h
begin_found-le-max key now none s found h = elim (Bool-cases (leb max_attempts (length s))) [
  | inl full ↦ rw full h
  | inr room ↦ rw room (ground (arith, length-claim key now (renew now (fresh now)) s))
]

-- The number of remembered addresses never passes the limit, whether or not the call is accepted.
pub begin-le-max :
    (limits : Limits) (key : String) (now : ℕ) (s : Map Attempt)
    → length s ≤ max_attempts
    → length (begin limits key now s).0 ≤ max_attempts
unfolding begin
begin-le-max limits key now s h =
    begin_found-le-max key now _ (expire limits now s) refl
      (omega (arith, length-expire limits now s))

finish_found-le :
    (limits : Limits) (key : String) (success : Bool) (now : ℕ) (o : Option Attempt)
    (s : Map Attempt)
    → lookup key s ≡ o
    → length (finish_found limits key success now o s) ≤ length s
finish_found-le limits key success now none s found = omega arith
finish_found-le limits key true now (some a) s found = length-delete key s
finish_found-le limits key false now (some a) s found =
    omega (arith, length-insert-some key (after_failure limits now a) a s found)

pub finish-le :
    (limits : Limits) (key : String) (success : Bool) (now : ℕ) (s : Map Attempt)
    → length (finish limits key success now s) ≤ length s
unfolding finish
finish-le limits key success now s = finish_found-le limits key success now _ s refl
