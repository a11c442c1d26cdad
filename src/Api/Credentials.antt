-- ===== src/Api/Credentials.antt =====
-- `decodeBody` of internal/api/api.go, and the checks on the body of a login.
use Prim.Native.String.{len}
use text.Mathlib.Text.{starts_with}
use wekango.Base.{
  String, Bool, true, false, not, ◌&&◌, ◌||◌, Option, none, some, List, [], ◌∷◌, ◌==◌, ltb,
  if◌then◌else◌,
}
use wekango.Base.Exec.{Result, ok, err, ◌then_on◌}
use wekango.Bson.{str, Fields, end, field}
use wekango.Bson.Fetch.{find, get, as_str}
use wekango.Api.Service.{Request, Decoded, eof, bad, null_object, object}

-- The loop over `r.PostForm`: each field has one value.
form_values : List (String × List String) → Result Unit Fields
form_values [] = ok end
form_values ((k, v ∷ []) ∷ rest) = form_values rest then_on λ d. ok (field k (str v) d)
form_values (_ ∷ rest) = err tt

abbrev form_body : Option (List (String × List String)) → Result Unit Fields
form_body none = err tt
form_body (some form) = form_values form

abbrev after_object : Decoded → Fields → Result Unit Fields
after_object eof d = ok d
after_object _ d = err tt

abbrev json_body : Decoded → Decoded → Result Unit Fields
json_body eof second = ok end
json_body bad second = err tt
json_body null_object second = err tt
json_body (object d) second = after_object second d

unfoldable pub decode_body : Request → Result Unit Fields
unfolding form_values
decode_body r =
    if starts_with r.content_type "application/x-www-form-urlencoded"
    then form_body r.form
    else json_body r.first r.second

abbrev has : Option String → Bool
has none = false
has (some t) = true

abbrev text_or_empty : Option String → String
text_or_empty none = ""
text_or_empty (some t) = t

-- The credentials of a body: `password`, `username`, `email` and which of the two names was given.
pub record Credentials : Type 0 where
  pub password : String
  pub username : String
  pub email : String
  pub by_email : Bool

abbrev known_key : String → Bool
known_key k = k == "username" || k == "email" || k == "password" || k == "code"

abbrev known_keys : Fields → Bool
known_keys end = true
known_keys (field k v d) = known_key k && known_keys d

-- The checks on the body, up to the loop over its keys; none for a rejected one.
unfoldable pub credentials : Fields → Option Credentials
unfolding get find
credentials body =
    let password = as_str (get "password" body) in
    let username = as_str (get "username" body) in
    let email = as_str (get "email" body) in
    if not (has password)
      || ltb 4096 (len (text_or_empty password))
      || (not (has username) && not (has email))
      || (has username && has email)
      || ltb 1024 (len (text_or_empty username))
      || ltb 1024 (len (text_or_empty email))
      || not (known_keys body)
    then none
    else some (record {
      password = text_or_empty password;
      username = text_or_empty username;
      email = text_or_empty email;
      by_email = has email;
    })
