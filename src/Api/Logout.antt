-- ===== src/Api/Logout.antt =====
-- `logout` of internal/api/api.go.
use wekango.Base.{ℕ, String, Bool, true, false, ◌||◌, [], ◌∷◌, ◌==◌, eqb}
use wekango.Base.Exec.{Result, ok, err, Exec, fail, pure, or_else, ◌>>=◌, ◌>>◌}
use wekango.Base.Text.{trim_space, equal_fold}
use wekango.Bson.{Value, bool, double, str, Fields, fields, doc_of, arr_of}
use wekango.Bson.Fetch.{get}
use wekango.Env.{Error}
use wekango.Api.Service.{Service, Request, Response, Handler, reply, failure}
use wekango.Api.Auth.{authenticate}
use wekango.Api.Access.{by_id}
use wekango.Api.Credentials.{decode_body}
use wekango.Api.Login.{internal}

-- The pattern of `float64(1)`.
abbrev one : ℕ
one = 0x3ff0000000000000

-- The value of `all`: on these three words lower-casing is ASCII's.
unfoldable pub wants_all : Value → Bool
unfolding trim_space equal_fold
wants_all (bool b) = b
wants_all (double x) = eqb x one
wants_all (str t) =
    let word = trim_space t in equal_fold word "true" || word == "1" || equal_fold word "yes"
wants_all _ = false

unfoldable pub logout_modifier : Bool → String → Fields
logout_modifier true hash =
    fields (("$set", doc_of (("services.resume.loginTokens", arr_of []) ∷ [])) ∷ [])
logout_modifier false hash = fields (
    (
      "$pull",
      doc_of (("services.resume.loginTokens", doc_of (("hashedToken", str hash) ∷ [])) ∷ []),
    )
    ∷ [])

abbrev logout_message : Bool → String
logout_message true = "All login tokens have been invalidated."
logout_message false = "You've been logged out!"

module _ (s : Service) where
  abbrev unauthorized : Error → Response
  unauthorized e =
      failure 401 "unauthorized"
        "You must be logged in to log out. Send your token as an Authorization: Bearer header."

  abbrev body_or_bad : Result Unit Fields → Exec s.World Response Fields
  body_or_bad (ok body) = pure body
  body_or_bad (err e) = fail (failure 400 "bad-request" "Invalid request body")

  unfoldable pub logout : Request → Handler s Response
  unfolding wants_all logout_modifier decode_body get
  logout r = do
    found ← or_else unauthorized (authenticate s r)
    body ← body_or_bad (decode_body r)
    let every = wants_all (get "all" body)
    or_else (λ e. internal)
        (s.update_one "users" (by_id (found.0).id) (logout_modifier every found.1) false)
    pure (reply 200 (doc_of (("message", str (logout_message every)) ∷ [])))
