-- ===== src/Api/Throttle/Exclusion.antt =====
-- Logins as interleaved steps: a request calls `begin`, and one that was accepted later calls
-- `finish`. At most one login of an address is in flight.
use wekango.Base.{
  ℕ, ◌<◌, suc, String, Bool, true, false, Option, none, some, List, [], ◌∷◌, arith, ◌≡◌, ◌∙◌, ◌≢◌,
  ◌⊎◌, refl, inl, inr, eq_iff, eq_refl, ◌==◌, if◌then◌else◌, Bool-cases, leb, length,
}
use mathlib.Core.Path.{subst}
use wekango.Base.Map.{Map, lookup, lookup-insert}
use wekango.Api.Throttle.{
  Attempt, Limits, expire, begin, finish, begin_found, claim, renew, fresh, max_attempts,
}
use wekango.Api.Throttle.Lockout.{lookup-expire, begin_found_other, finish_found_other}

-- The throttle, and the addresses of the logins in flight.
pub record Load : Type 0 where
  pub attempts : Map Attempt
  pub flying : List String

abbrev pub flights : String → List String → ℕ
flights k [] = 0
flights k (j ∷ js) = if j == k then suc (flights k js) else flights k js

abbrev pub drop_one : String → List String → List String
drop_one k [] = []
drop_one k (j ∷ js) = if j == k then js else j ∷ drop_one k js

abbrev pub enter : Limits → String → ℕ → Load → Load
enter limits key now s =
    let (attempts, accepted) = begin limits key now s.attempts in
    record { attempts = attempts; flying = if accepted then key ∷ s.flying else s.flying }

abbrev pub leave : Limits → String → Bool → ℕ → Load → Load
leave limits key success now s = record {
  attempts = finish limits key success now s.attempts;
  flying = drop_one key s.flying;
}

-- A step at a time before `t`. Only a login in flight finishes.
pub data Step (limits : Limits) (t : ℕ) : Load → Load → Type 0 where
  starts : (key : String) (now : ℕ) (s : Load) → now < t → Step limits t s (enter limits key now s)
  ends :
      (key : String) (success : Bool) (now : ℕ) (s : Load)
      → now < t
      → 0 < flights key s.flying
      → Step limits t s (leave limits key success now s)

pub data Reach (limits : Limits) (t : ℕ) (s : Load) : Load → Type 0 where
  here : Reach limits t s s
  next : {u v : Load} → Reach limits t s u → Step limits t u v → Reach limits t s v

pub record IsBusy (key : String) (s : Map Attempt) : Type 0 where
  pub entry : Attempt
  pub present : lookup key s ≡ some entry
  pub busy : entry.busy ≡ true

-- A busy address is refused, and stays busy.
begin-IsBusy :
    (limits : Limits) (key : String) (now : ℕ) (s : Map Attempt)
    → IsBusy key s
    → ((begin limits key now s).1 ≡ false) × IsBusy key (begin limits key now s).0
unfolding begin
begin-IsBusy limits key now s b =
    let kept = lookup-expire limits key now b.entry s b.present (ground arith) in
    let e = renew now b.entry in
    rw kept (
      ground arith,
      record {
        entry = e;
        present = ground (arith, eq_refl key, lookup-insert key key e (expire limits now s));
        busy = ground arith;
      },
    )

claim_accepted :
    (key : String) (now : ℕ) (a : Attempt) (s : Map Attempt)
    → (claim key now a s).1 ≡ true
    → IsBusy key (claim key now a s).0
claim_accepted key now a s h = record {
  entry = record a { busy = true };
  present = ground (arith, eq_refl key, lookup-insert key key (record a { busy = true }) s);
  busy = refl;
}

begin_found_accepted :
    (key : String) (now : ℕ) (o : Option Attempt) (s : Map Attempt)
    → (begin_found key now o s).1 ≡ true
    → IsBusy key (begin_found key now o s).0
begin_found_accepted key now (some a) s h = claim_accepted key now (renew now a) s h
begin_found_accepted key now none s h = elim (Bool-cases (leb max_attempts (length s))) [
  | inl full ↦ cc (rw full at h)
  | inr room ↦ rw room (claim_accepted key now (renew now (fresh now)) s (rw room at h))
]

begin_accepted :
    (limits : Limits) (key : String) (now : ℕ) (s : Map Attempt)
    → (begin limits key now s).1 ≡ true
    → IsBusy key (begin limits key now s).0
unfolding begin
begin_accepted limits key now s h =
    let live = expire limits now s in begin_found_accepted key now (lookup key live) live h

begin-IsBusy_other :
    (limits : Limits) (key other : String) (now : ℕ) (s : Map Attempt)
    → other ≢ key
    → IsBusy key s
    → IsBusy key (begin limits other now s).0
unfolding begin
begin-IsBusy_other limits key other now s ne b = record {
  entry = b.entry;
  present =
      begin_found_other key other now (lookup other (expire limits now s)) (expire limits now s) ne
      ∙ lookup-expire limits key now b.entry s b.present (ground arith);
  busy = b.busy;
}

finish-IsBusy_other :
    (limits : Limits) (key other : String) (success : Bool) (now : ℕ) (s : Map Attempt)
    → other ≢ key
    → IsBusy key s
    → IsBusy key (finish limits other success now s)
unfolding finish
finish-IsBusy_other limits key other success now s ne b = record {
  entry = b.entry;
  present = finish_found_other limits key other success now (lookup other s) s ne ∙ b.present;
  busy = b.busy;
}

pub flights-drop_one_self :
    (k : String) (xs : List String) → flights k xs ≡ 1 → flights k (drop_one k xs) ≡ 0
flights-drop_one_self k [] h = ground arith
flights-drop_one_self k (x ∷ xs) h = ground (arith, flights-drop_one_self k xs)

pub flights-drop_one_other :
    (k j : String) (xs : List String) → j ≢ k → flights k (drop_one j xs) ≡ flights k xs
flights-drop_one_other k j [] ne = refl
flights-drop_one_other k j (x ∷ xs) ne =
    ground (arith, flights-drop_one_other k j xs ne, eq_iff x k, eq_iff x j)

-- No login of the address is in flight, or one is and its entry is busy.
abbrev pub IsSingle : String → Load → Type 0
IsSingle k s = (flights k s.flying ≡ 0) ⊎ ((flights k s.flying ≡ 1) × IsBusy k s.attempts)

pub record IsExclusive (s : Load) : Type 0 where
  pub single : (k : String) → IsSingle k s

enter-IsSingle_self :
    (limits : Limits) (key : String) (now : ℕ) (s : Load)
    → IsSingle key s
    → IsSingle key (enter limits key now s)
enter-IsSingle_self limits key now s (inr (one, b)) =
    let (refused, still) = begin-IsBusy limits key now s.attempts b in inr (rw refused one, still)
enter-IsSingle_self limits key now s (inl idle) =
    elim (Bool-cases (begin limits key now s.attempts).1) [
      | inl accepted ↦
          inr (ground (arith, eq_refl key), begin_accepted limits key now s.attempts accepted)
      | inr refused ↦ inl (rw refused idle)
    ]

enter-IsSingle_other :
    (limits : Limits) (k key : String) (now : ℕ) (s : Load)
    → key ≢ k
    → IsSingle k s
    → IsSingle k (enter limits key now s)
enter-IsSingle_other limits k key now s ne (inl idle) = inl (ground (arith, eq_iff key k))
enter-IsSingle_other limits k key now s ne (inr (one, b)) =
    inr (ground (arith, eq_iff key k), begin-IsBusy_other limits k key now s.attempts ne b)

leave-IsSingle_self :
    (limits : Limits) (key : String) (success : Bool) (now : ℕ) (s : Load)
    → 0 < flights key s.flying
    → IsSingle key s
    → IsSingle key (leave limits key success now s)
leave-IsSingle_self limits key success now s flying (inl idle) = absurd (omega arith)
leave-IsSingle_self limits key success now s flying (inr (one, b)) =
    inl (flights-drop_one_self key s.flying one)

leave-IsSingle_other :
    (limits : Limits) (k key : String) (success : Bool) (now : ℕ) (s : Load)
    → key ≢ k
    → IsSingle k s
    → IsSingle k (leave limits key success now s)
leave-IsSingle_other limits k key success now s ne (inl idle) =
    inl (flights-drop_one_other k key s.flying ne ∙ idle)
leave-IsSingle_other limits k key success now s ne (inr (one, b)) = inr (
  flights-drop_one_other k key s.flying ne ∙ one,
  finish-IsBusy_other limits k key success now s.attempts ne b,
)

Step-IsExclusive :
    {limits : Limits} {t : ℕ} {s u : Load} → Step limits t s u → IsExclusive s → IsExclusive u
Step-IsExclusive {limits} (starts key now s early) e = record {
  single = λ k. elim (Bool-cases (key == k)) [
    | inl same ↦
        subst (λ j. IsSingle j (enter limits key now s)) ((eq_iff key k).0 same)
          (enter-IsSingle_self limits key now s (e.single key))
    | inr differ ↦
        enter-IsSingle_other limits k key now s (λ p. cc (differ, (eq_iff key k).1 p)) (e.single k)
  ];
}
Step-IsExclusive {limits} (ends key success now s early flying) e = record {
  single = λ k. elim (Bool-cases (key == k)) [
    | inl same ↦
        subst (λ j. IsSingle j (leave limits key success now s)) ((eq_iff key k).0 same)
          (leave-IsSingle_self limits key success now s flying (e.single key))
    | inr differ ↦
        leave-IsSingle_other limits k key success now s (λ p. cc (differ, (eq_iff key k).1 p))
          (e.single k)
  ];
}

abbrev pub idle_load : Load
idle_load = record { attempts = []; flying = [] }

-- From the empty throttle, whatever the interleaving of requests and their times, at most one
-- login of each address is in flight, and while one is, the address is marked busy.
pub Reach-IsExclusive :
    (limits : Limits) (t : ℕ) (s : Load) → Reach limits t idle_load s → IsExclusive s
Reach-IsExclusive limits t s here = record { single = λ k. inl refl }
Reach-IsExclusive limits t s (next r st) = Step-IsExclusive st (Reach-IsExclusive limits t _ r)
