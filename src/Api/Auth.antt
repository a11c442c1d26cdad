-- ===== src/Api/Auth.antt =====
-- Who sends a request: `tokenHash` and `authenticate` of internal/api/api.go, `loginDisabled` of
-- internal/api/login_security.go and `boardReadUser` of internal/api/board_reads.go.
pub mod Laws
use Prim.Native.String.{len}
use wekango.Base.{
  ℕ, ◌+◌, String, Bool, false, not, ◌&&◌, ◌||◌, List, [], ◌∷◌, ◌==◌, ltb, eqb, if◌then◌else◌, any,
}
use wekango.Base.Exec.{ok, err, Exec, fail, lift, ◌>>=◌}
use wekango.Base.Text.{words, equal_fold}
use wekango.Bson.{Value, undef, str, Fields, end, fields}
use wekango.Bson.Truth.{truthy}
use wekango.Env.{Error, failure as other_error}
use wekango.Api.Service.{Service, Request, User, LoginToken}

unfoldable pub login_disabled : Value → Bool
unfolding truthy
login_disabled undef = false
login_disabled v = truthy v

-- The token of the `Authorization: Bearer` header.
abbrev bearer : List String → String
bearer (scheme ∷ token ∷ []) = if equal_fold scheme "Bearer" then token else ""
bearer _ = ""

abbrev pub request_token : Request → String
request_token r =
    let token = bearer (words r.authorization) in if token == "" then r.access_token else token

abbrev pub unauthorized : Error
unauthorized = other_error "unauthorized"

abbrev pub by_token : String → Fields
by_token hash = fields (("services.resume.loginTokens.hashedToken", str hash) ∷ [])

module _ (s : Service) where
  unfoldable pub token_hash : String → String
  token_hash token = s.base64_std (s.sha256 token)

  -- The test of the loop over `u.Services.Resume.Tokens`.
  abbrev pub is_live : String → ℕ → LoginToken → Bool
  is_live hash now t =
      t.hash == hash
      && not (eqb t.when 0)
      && not (ltb now t.when)
      && ltb now (t.when + s.limits.expiration)

  abbrev pub check_tokens : User → String → Exec s.World Error (User × String)
  check_tokens u hash w =
      let (now, w') = s.now w in
      if any (is_live hash now) u.tokens then (ok (u, hash), w') else (err unauthorized, w')

  abbrev pub check_account : User → String → Exec s.World Error (User × String)
  check_account u hash =
      if login_disabled u.disabled || u.id == "" then fail unauthorized else check_tokens u hash

  abbrev pub check_load : String → Exec s.World Error (User × String)
  check_load hash = do
    found ← s.find_one "users" (by_token hash) end
    u ← lift (s.decode_user found)
    check_account u hash

  unfoldable pub authenticate : Request → Exec s.World Error (User × String)
  unfolding token_hash
  authenticate r =
      let token = request_token r in
      if token == "" || ltb 4096 (len token)
      then fail unauthorized
      else check_load (token_hash token)
