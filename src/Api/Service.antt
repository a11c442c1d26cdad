-- ===== src/Api/Service.antt =====
-- The types of internal/api/api.go: the service, requests, responses and accounts, and the helpers
-- that answer a request.
use wekango.Base.{ℕ, String, Bool, Option, List, [], ◌∷◌}
use wekango.Base.Exec.{Result, ok, err, Exec}
use wekango.Bson.{Value, str, Fields, doc_of}
use wekango.Bson.Json.{Format}
use wekango.Env.{Env, Error}
use wekango.Api.Throttle.{Limits}

-- `loginToken`
pub record LoginToken : Type 0 where
  pub hash : String
  pub when : ℕ

-- `user`. The inline map of the services it does not name is `other`.
pub record User : Type 0 where
  pub id : String
  pub is_admin : Bool
  pub disabled : Value
  pub method : String
  pub bcrypt : String
  pub argon2 : String
  pub tokens : List LoginToken
  pub security_block : Value
  pub email : Option Fields
  pub two_factor : Option Fields
  pub other : Fields

-- One `decoder.Decode` of a JSON body: the end of the input, an error, `null`, or an object.
pub data Decoded : Type 0 where
  eof bad null_object : Decoded
  object : Fields → Decoded

-- What the handlers read of a request. `net/http` has parsed it: `form` is what `ParseForm` gives,
-- and `first` and `second` are the first two calls of `Decode`, under the limit of 16 KiB.
pub record Request : Type 0 where
  pub method : String
  pub path : String
  pub uri : String
  pub pattern : String
  pub authorization : String
  pub access_token : String
  pub content_type : String
  pub path_value : String → String
  pub form : Option (List (String × List String))
  pub first : Decoded
  pub second : Decoded
  pub ingress_ip : String
  pub forwarded_for : List String
  pub remote : String
  pub headers : List (String × List String)

pub data Body : Type 0 where
  json : Value → Body
  html : String → Body
  text : String → Body
  empty : Body

pub record Response : Type 0 where
  pub status : ℕ
  pub headers : List (String × String)
  pub body : Body

-- `service`, with the options and what the driver and the library do for it. `decode_user` is
-- the driver's decoding of a document into `user`.
pub record Service : Type 1 where
  pub env : Env
  pub open env use *
  pub format : Format
  pub decode_user : Fields → Result Error User
  pub limits : Limits
  pub with_api : Bool
  pub trusted_header : Bool
  pub forwarded_count : ℕ
  pub dummy : String

-- A handler runs to a response, or stops early with one.
abbrev pub Handler : Service → Type 0 → Type 0
Handler s A = Exec s.World Response A

abbrev pub answer : Result Response Response → Response
answer (ok r) = r
answer (err r) = r

abbrev pub respond : (s : Service) → Handler s Response → s.World → Response × s.World
respond s h w = let (r, w') = h w in (answer r, w')

abbrev pub reply : ℕ → Value → Response
reply status value = record { status = status; headers = []; body = json value }

abbrev pub failure : ℕ → String → String → Response
failure status name reason =
    reply status (doc_of (("error", str name) ∷ ("reason", str reason) ∷ []))
