-- ===== src/Api/Login/Laws.antt =====
-- What a successful login shows, and what a refused one does not touch.
use wekango.Base.{
  ℕ, ◌-◌, String, Bool, eqb, sym, [], ◌∷◌, true, false, Option, none, some, arith, ◌≡◌, ◌⊎◌, ap,
  refl, eq_iff, Bool-cases, inl, inr,
}
use wekango.Base.Exec.{Result, ok, err, Exec, or_else, ◌>>=◌, >>=_ends, or_else-err_inv}
use mathlib.Core.Path.{subst}
use wekango.Base.Map.{Map}
use wekango.Bson.{Fields, end, field}
use wekango.Env.{Error, Updated}
use wekango.Api.Service.{Service, Request, Response, User, answer}
use wekango.Api.Throttle.{Attempt, begin}
use wekango.Api.Auth.{login_disabled}
use wekango.Api.Credentials.{Credentials, credentials, decode_body}
use wekango.Api.Login.{
  is_local, find_login_user, verify, compare_meteor_password, issue_if, login_with, login_body,
  login_attempt, login, client_key, is_none, is_end, internal, issued, issue, issue_at,
  issue_selector, token_entry, clock, millisecond,
}
use wekango.Base.Decimal.{decimal}
use Prim.Native.Nat.{◌/◌, ◌%◌, max}

-- An account that may sign in with this password here.
pub record MaySignIn (s : Service) (c : Credentials) (u : User) : Type 0 where
  pub enabled : login_disabled u.disabled ≡ false
  pub method : (u.method ≡ "") ⊎ (u.method ≡ "password")
  pub single_factor : u.two_factor ≡ none
  pub no_other_service : u.other ≡ end
  pub no_argon2 : u.argon2 ≡ ""
  pub password : s.bcrypt_matches u.bcrypt (s.hex (s.sha256 c.password)) ≡ true

is_none-eq : (o : Option Fields) → is_none o ≡ true → o ≡ none
is_none-eq none h = refl
is_none-eq (some d) h = cc

is_end-eq : (d : Fields) → is_end d ≡ true → d ≡ end
is_end-eq end h = refl
is_end-eq (field k v d) h = cc

is_local-MaySignIn :
    (s : Service) (c : Credentials) (u : User)
    → is_local u ≡ true
    → compare_meteor_password s u.bcrypt c.password ≡ true
    → MaySignIn s c u
unfolding is_local compare_meteor_password
is_local-MaySignIn s c u h matched = record {
  enabled = ground arith;
  method = ground (arith, eq_iff u.method "", eq_iff u.method "password");
  single_factor = is_none-eq u.two_factor (ground arith);
  no_other_service = is_end-eq u.other (ground arith);
  no_argon2 = (eq_iff u.argon2 "").0 (ground arith);
  password = matched;
}

verify-eq-some :
    (s : Service) (c : Credentials) (found : Result Error User) (u : User)
    → verify s c found ≡ some u
    → (found ≡ ok u) × MaySignIn s c u
unfolding verify
verify-eq-some s c (err e) u h = ground arith
verify-eq-some s c (ok v) u h = elim (Bool-cases (is_local v)) [
  | inl local ↦ elim (Bool-cases (compare_meteor_password s v.bcrypt c.password)) [
    | inl matched ↦
        let same : v ≡ u = ground arith in
        (ap ok same, subst (MaySignIn s c) same (is_local-MaySignIn s c v local matched))
    | inr wrong ↦ absurd (ground arith)
  ]
  | inr foreign ↦ absurd (ground arith)
]

-- What a login that answers with a token has seen: a body with credentials, the account that the
-- database found for them, and that it may sign in with the password.
pub record SignedIn (s : Service) (r : Request) (w : s.World) : Type 0 where
  pub body : Fields
  pub decoded : decode_body r ≡ ok body
  pub given : Credentials
  pub complete : credentials body ≡ some given
  pub user : User
  pub found : (find_login_user s given w).0 ≡ ok user
  pub entitled : MaySignIn s given user

login_with-SignedIn :
    (s : Service) (r : Request) (body : Fields) (o : Option Credentials) (resp : Response)
    (w : s.World)
    → decode_body r ≡ ok body
    → credentials body ≡ o
    → (login_with s o w).0 ≡ ok resp
    → SignedIn s r w
login_with-SignedIn s r body none resp w decoded given h = cc
login_with-SignedIn s r body (some c) resp w decoded given h =
    issue_if-SignedIn (verify s c (find_login_user s c w).0) refl h
  where
    issue_if-SignedIn :
        (o : Option User)
        → verify s c (find_login_user s c w).0 ≡ o
        → (issue_if s o (find_login_user s c w).1).0 ≡ ok resp
        → SignedIn s r w
    issue_if-SignedIn none e g = cc
    issue_if-SignedIn (some u) e g =
        let (found, entitled) = verify-eq-some s c (find_login_user s c w).0 u e in
        record {
          body = body;
          decoded = decoded;
          given = c;
          complete = given;
          user = u;
          found = found;
          entitled = entitled;
        }

login_body-SignedIn :
    (s : Service) (r : Request) (d : Result Unit Fields) (resp : Response) (w : s.World)
    → decode_body r ≡ d
    → (login_body s d w).0 ≡ ok resp
    → SignedIn s r w
login_body-SignedIn s r (err e) resp w decoded h = cc
login_body-SignedIn s r (ok body) resp w decoded h =
    login_with-SignedIn s r body (credentials body) resp w decoded refl h

-- A login that was let in succeeds only if the body decodes to credentials, the database finds and
-- decodes an account for them, and that account is enabled, signs in by password, has no second
-- factor, no other service and no argon2 hash, and its stored bcrypt hash matches the SHA-256 hex
-- digest of the given password.
pub login_attempt-SignedIn :
    (s : Service) (r : Request) (resp : Response) (w : s.World)
    → (login_attempt s r w).0 ≡ ok resp
    → SignedIn s r w
unfolding login_attempt
login_attempt-SignedIn s r resp w h = login_body-SignedIn s r (decode_body r) resp w refl h

-- An answer that does not speak of too many attempts.
abbrev IsOther : Result Response Response → Type 0
IsOther r = eqb (answer r).status 429 ≡ false

internal-IsOther :
    {W E A : Type 0} (m : Exec W E A) (w : W) (e : Response)
    → (or_else (λ d. internal) m w).0 ≡ err e
    → IsOther (err e)
internal-IsOther m w e h =
    let (d, same) = or_else-err_inv (λ d. internal) m w h in
    subst (λ x. eqb x.status 429 ≡ false) (sym same) refl

module _ (s : Service) where
  issued-IsOther :
      (u : User) (token : String) (now : ℕ) (result : Updated) (w : s.World)
      → IsOther (issued s u token now result w).0
  issued-IsOther u token now result w = elim (Bool-cases (eqb result.matched 1)) [
    | inl stored ↦ rw stored refl
    | inr lost ↦ rw lost refl
  ]

  issue-IsOther : (u : User) (w : s.World) → IsOther (issue s u w).0
  unfolding issue
  issue-IsOther u w =
      >>=_ends IsOther (or_else (λ e. internal) (s.random 32))
        (λ raw. clock s >>= λ now. issue_at s u (s.base64_raw_url raw) now) w
        (internal-IsOther (s.random 32) w)
        (λ raw v.
          let at = (s.now v).0 - (s.now v).0 % millisecond s in
          >>=_ends IsOther
            (or_else (λ e. internal)
              (s.update_one "users" (issue_selector u) (token_entry s (s.base64_raw_url raw) at)
                false))
            (issued s u (s.base64_raw_url raw) at) (s.now v).1
            (internal-IsOther
              (s.update_one "users" (issue_selector u) (token_entry s (s.base64_raw_url raw) at)
                false)
              (s.now v).1)
            (λ result u'. issued-IsOther u (s.base64_raw_url raw) at result u'))

  issue_if-IsOther : (o : Option User) (w : s.World) → IsOther (issue_if s o w).0
  issue_if-IsOther none w = refl
  issue_if-IsOther (some u) w = issue-IsOther u w

  login_with-IsOther : (o : Option Credentials) (w : s.World) → IsOther (login_with s o w).0
  login_with-IsOther none w = refl
  login_with-IsOther (some c) w =
      issue_if-IsOther (verify s c (find_login_user s c w).0) (find_login_user s c w).1

  login_body-IsOther : (d : Result Unit Fields) (w : s.World) → IsOther (login_body s d w).0
  login_body-IsOther (err e) w = refl
  login_body-IsOther (ok body) w = login_with-IsOther (credentials body) w

  login_attempt-IsOther : (r : Request) (w : s.World) → IsOther (login_attempt s r w).0
  unfolding login_attempt
  login_attempt-IsOther r w = login_body-IsOther (decode_body r) w

-- What the throttle says of a request at the time of the clock.
abbrev pub throttled : (s : Service) → Request → Map Attempt → s.World → Map Attempt × Bool
throttled s r attempts w = begin s.limits (client_key s r) (s.now w).0 attempts

-- An answer 429 that says when to try again, after nothing but the clock was read.
pub record IsRefused (s : Service) (attempts : Map Attempt) (w : s.World)
    (out : Response × Map Attempt × s.World) : Type 0 where
  pub status : out.0.status ≡ 429
  pub later :
      out.0.headers ≡ ("Retry-After", decimal (max 1 (s.limits.lockout / 1_000_000_000))) ∷ []
  pub kept : out.1 ≡ attempts
  pub unread : out.2 ≡ (s.now w).1

-- A login is answered 429 exactly where the throttle does not accept it: what is let in is never
-- answered so, however it ends. A refusal says when to try again, in whole seconds and at least one;
-- the attempts stay as the throttle then has them, and beyond the clock neither the database nor the
-- random source is asked.
pub login-IsRefused :
    (s : Service) (r : Request) (attempts : Map Attempt) (w : s.World)
    → ((throttled s r attempts w).1 ≡ true) × (eqb (login s r attempts w).0.status 429 ≡ false)
      ⊎ ((throttled s r attempts w).1 ≡ false)
        × IsRefused s (throttled s r attempts w).0 w (login s r attempts w)
unfolding login
login-IsRefused s r attempts w = elim (Bool-cases (throttled s r attempts w).1) [
  | inl accepted ↦ inl (accepted, rw accepted (login_attempt-IsOther s r (s.now w).1))
  | inr refused ↦
      inr (refused, rw refused (record { status = refl; later = refl; kept = refl; unread = refl }))
]
