-- ===== src/Api/Login.antt =====
-- `clientKey` and `login` of internal/api/api.go, with `findLoginUser` and
-- `compareMeteorPassword` of internal/api/login_security.go.
pub mod Laws
use Prim.Native.Nat.{◌/◌, ◌%◌, max}
use wekango.Base.{
  ℕ, ◌+◌, ◌-◌, String, Bool, true, false, not, ◌&&◌, ◌||◌, Option, none, some, [], ◌∷◌, ◌==◌, eqb,
  if◌then◌else◌,
}
use wekango.Base.Exec.{Result, ok, err, Exec, fail, pure, lift, or_else, ◌>>=◌, ◌>>◌}
use wekango.Base.Int.{pos}
use wekango.Base.Map.{Map}
use wekango.Base.Decimal.{decimal}
use wekango.Bson.{Value, bool, str, time, Fields, end, field, fields, doc_of, arr_of}
use wekango.Env.{Error, Updated}
use wekango.Clientip.{resolve}
use wekango.Api.Throttle.{Attempt, begin, finish}
use wekango.Api.Service.{Service, Request, Response, User, reply, failure, answer}
use wekango.Api.Auth.{login_disabled, token_hash}
use wekango.Api.Credentials.{decode_body, Credentials, credentials}

abbrev pub is_end : Fields → Bool
is_end end = true
is_end (field k v d) = false

abbrev pub is_none : Option Fields → Bool
is_none none = true
is_none (some d) = false

-- `local`: an enabled account with a bcrypt password and no other way to sign in.
unfoldable pub is_local : User → Bool
unfolding login_disabled
is_local u =
    not (login_disabled u.disabled)
    && (u.method == "" || u.method == "password")
    && is_none u.two_factor
    && is_end u.other
    && not (u.bcrypt == "")
    && u.argon2 == ""

abbrev pub rejected : Response
rejected = failure 401 "login-failed" "Incorrect username, email address or password."

abbrev pub internal : Response
internal = failure 500 "InternalServerError" "Internal server error"

abbrev absent : Value
absent = doc_of (("$exists", bool false) ∷ [])

-- The selector of the update that issues the token: the account as it was checked.
unfoldable pub issue_selector : User → Fields
issue_selector u =
    let same =
      ("_id", str u.id)
      ∷ ("loginDisabled", u.disabled)
      ∷ ("services.password.bcrypt", str u.bcrypt)
      ∷ ("services.password.argon2", absent)
      ∷ ("services.twoFactorAuthentication", absent)
      ∷ [] in
    if u.method == ""
    then fields (
        (
          "$or",
          arr_of (
              doc_of (("authenticationMethod", str "") ∷ [])
              ∷ doc_of (("authenticationMethod", absent) ∷ [])
              ∷ []),
        )
        ∷ same)
    else fields (("authenticationMethod", str u.method) ∷ same)

module _ (s : Service) where
  unfoldable pub client_key : Request → String
  client_key r =
      if s.trusted_header && not (r.ingress_ip == "")
      then r.ingress_ip
      else resolve r.forwarded_for r.remote (pos s.forwarded_count)

  unfoldable pub compare_meteor_password : String → String → Bool
  compare_meteor_password stored password = s.bcrypt_matches stored (s.hex (s.sha256 password))

  abbrev pub login_selector : Credentials → Fields
  login_selector c =
      if c.by_email
      then fields (("emails.address", str c.email) ∷ [])
      else fields (("username", str c.username) ∷ [])

  unfoldable pub find_login_user : Credentials → Exec s.World Error User
  find_login_user c = do
    found ← s.find_one "users" (login_selector c) end
    lift (s.decode_user found)

  -- The account and hash to compare with: the dummy hash unless the account is local, so that a
  -- missing account takes as long as a wrong password.
  abbrev pub local_account : Result Error User → Option User
  local_account (err e) = none
  local_account (ok u) = if is_local u then some u else none

  abbrev hash_of : Option User → String
  hash_of none = s.dummy
  hash_of (some u) = u.bcrypt

  unfoldable pub verify : Credentials → Result Error User → Option User
  unfolding compare_meteor_password is_local
  verify c found =
      let account = local_account found in
      if compare_meteor_password (hash_of account) c.password then account else none

  abbrev pub millisecond : ℕ
  millisecond = 1_000_000

  abbrev token_entry : String → ℕ → Fields
  token_entry token now = fields (
      (
        "$addToSet",
        doc_of (
            (
              "services.resume.loginTokens",
              doc_of (("hashedToken", str (token_hash s token)) ∷ ("when", time now) ∷ []),
            )
            ∷ []),
      )
      ∷ [])

  abbrev issued : User → String → ℕ → Updated → Exec s.World Response Response
  issued u token now result =
      if eqb result.matched 1
      then pure (
          reply 200 (
            doc_of (
              ("id", str u.id)
              ∷ ("token", str token)
              ∷ ("tokenExpires", str (s.format.of_time (now + s.limits.expiration)))
              ∷ [])))
      else fail rejected

  -- The token is stored under the selector that repeats the checks on the account.
  abbrev pub issue_at : User → String → ℕ → Exec s.World Response Response
  issue_at u token now = do
    result ←
        or_else (λ e. internal)
          (s.update_one "users" (issue_selector u) (token_entry token now) false)
    issued u token now result

  abbrev clock : Exec s.World Response ℕ
  clock w = let (now, w') = s.now w in (ok (now - now % millisecond), w')

  unfoldable pub issue : User → Exec s.World Response Response
  unfolding issue_selector token_hash
  issue u = do
    raw ← or_else (λ e. internal) (s.random 32)
    now ← clock
    issue_at u (s.base64_raw_url raw) now

  abbrev pub issue_if : Option User → Exec s.World Response Response
  issue_if none = fail rejected
  issue_if (some u) = issue u

  abbrev look_up : Credentials → Exec s.World Response (Result Error User)
  look_up c w = let (found, w') = find_login_user c w in (ok found, w')

  abbrev pub login_with : Option Credentials → Exec s.World Response Response
  login_with none = fail rejected
  login_with (some c) = do found ← look_up c; issue_if (verify c found)

  abbrev pub login_body : Result Unit Fields → Exec s.World Response Response
  login_body (err e) = fail (failure 400 "bad-request" "Invalid request body")
  login_body (ok body) = login_with (credentials body)

  -- What `login` does once `begin` has let it in. A value is a success, an error any refusal.
  unfoldable pub login_attempt : Request → Exec s.World Response Response
  unfolding decode_body credentials find_login_user verify issue
  login_attempt r = login_body (decode_body r)

  abbrev succeeded : Result Response Response → Bool
  succeeded (ok r) = true
  succeeded (err r) = false

  abbrev pub too_many : Response
  too_many =
      record (failure 429 "too-many-requests" "Too many failed login attempts. Try again later.") {
        headers = ("Retry-After", decimal (max 1 (s.limits.lockout / 1_000_000_000))) ∷ [];
      }

  -- The deferred `finish` comes after the answer.
  abbrev pub admitted : String → Request → Map Attempt → s.World → Response × Map Attempt × s.World
  admitted key r attempts w =
      let (result, w₁) = login_attempt r w in
      let (now, w₂) = s.now w₁ in
      (answer result, finish s.limits key (succeeded result) now attempts, w₂)

  -- `login`, over the throttle and the world. The clock is read for `begin`, and for `finish`
  -- whether or not the failure locks the address.
  unfoldable pub login : Request → Map Attempt → s.World → Response × Map Attempt × s.World
  unfolding client_key begin finish login_attempt decimal
  login r attempts w =
      let (now, w₁) = s.now w in
      let (attempts₁, accepted) = begin s.limits (client_key r) now attempts in
      if accepted then admitted (client_key r) r attempts₁ w₁ else (too_many, attempts₁, w₁)
