-- ===== src/Api/Usage.antt =====
-- internal/api/usage.go: which calls are counted, under which name and account; with `APIName` and
-- `IsAPIRequest` of internal/eventlog/usage.go.
use Prim.Native.Char.{Char, code}
use Prim.Native.String
use wekango.Base.{
  ℕ, zero, suc, ◌-◌, String, Bool, false, ◌&&◌, ◌||◌, List, [], ◌∷◌, ◌==◌, Option, none, some, ltb,
  eqb, if◌then◌else◌,
}
use wekango.Base.Text.{◌⊕◌, trim_left, equal_fold, join}
use wekango.Base.Affix.{strip_prefix, strip_suffix, is_cut, trim_suffix}
use wekango.Base.Exec.{Result, ok, err}
use wekango.Bson.{str, time, obj, doc_m, int, Fields, end, fields}
use wekango.Base.Int.{pos}
use wekango.Bson.Fetch.{get, put, as_str}
use wekango.Env.{Error}
use wekango.Eventlog.Usage.{unmatched}
use wekango.Eventlog.Geo.{Places, location_from_headers}
use wekango.Api.Service.{Service, Request}
use wekango.Api.Auth.{token_hash, by_token}
use wekango.Api.Login.{client_key}

-- `strings.ToUpper` and `strings.ToLower`, and the functions of a location.
pub record Words : Type 0 where
  pub to_upper : String → String
  pub to_lower : String → String
  pub places : Places

abbrev or_get : String → String
or_get method = if method == "" then "GET" else method

abbrev or_unmatched : String → String
or_unmatched route = if route == "" then unmatched else route

-- `APIName`
abbrev pub api_name : Words → String → String → String
api_name ws method route = ws.to_upper (or_get method) ⊕ " " ⊕ or_unmatched route

-- `strings.SplitN(s, sep, 2)[0]` for one character
unfoldable pub before : ℕ → String → String
before sep String.[] = ""
before sep (String.◌∷◌ c s) =
    let rest = String.◌∷◌ c (before sep s) in if eqb (code c) sep then "" else rest

-- `IsAPIRequest`
unfoldable pub is_api_request : String → Bool
unfolding before strip_prefix
is_api_request url =
    let path = before b'?' url in path == "/api" || is_cut (strip_prefix "/api/" path)

-- `strings.ReplaceAll` of a text by another. The first number counts what is left of a match.
unfoldable pub replace_from : ℕ → String → String → String → String
unfolding strip_prefix
replace_from skip old new String.[] = ""
replace_from (suc skip) old new (String.◌∷◌ c s) = replace_from skip old new s
replace_from zero old new (String.◌∷◌ c s) =
    let matched = replace_from (String.count old - 1) old new s in
    let moved = replace_from zero old new s in
    if is_cut (strip_prefix old (String.◌∷◌ c s)) then new ⊕ matched else String.◌∷◌ c moved

abbrev replace_all : String → String → String → String
replace_all old new s = replace_from 0 old new s

-- The text after the first blank, none where there is no blank.
unfoldable pub after_blank : String → Option String
after_blank String.[] = none
after_blank (String.◌∷◌ c s) =
    let later = after_blank s in if eqb (code c) b' ' then some s else later

abbrev or_pattern : String → Option String → String
or_pattern pattern none = pattern
or_pattern pattern (some route) = route

unfoldable pub public_names : List String → String → String
unfolding replace_from
public_names [] route = route
public_names (name ∷ names) route =
    public_names names (replace_all (":" ⊕ name ⊕ "ID") (":" ⊕ name ⊕ "Id") route)

-- `usageRoute`
unfoldable pub usage_route : String → String
unfolding after_blank replace_from public_names strip_suffix
usage_route pattern =
    let route = trim_suffix "/{$}" (or_pattern pattern (after_blank pattern)) in
    public_names ("board" ∷ "list" ∷ "swimlane" ∷ "card" ∷ "user" ∷ [])
      (replace_all "}" "" (replace_all "{" ":" route))

-- The first so many characters, and the rest.
abbrev with_char : Char → String × String → String × String
with_char c (s, rest) = (String.◌∷◌ c s, rest)

unfoldable pub split_at : ℕ → String → String × String
split_at zero s = ("", s)
split_at (suc n) String.[] = ("", "")
split_at (suc n) (String.◌∷◌ c s) = with_char c (split_at n s)

abbrev is_blank : ℕ → Bool
is_blank c = eqb c b' ' || eqb c b'\t'

abbrev starts_blank : String → Bool
starts_blank String.[] = false
starts_blank (String.◌∷◌ c s) = is_blank (code c)

-- The token of the header: a text that folds to `Bearer` is six bytes long.
abbrev usage_bearer : String → String × String → String
usage_bearer authorization (scheme, rest) =
    if ltb 7 (String.len authorization) && equal_fold scheme "Bearer" && starts_blank rest
    then trim_left is_blank rest
    else ""

unfoldable pub usage_token : Request → String
unfolding split_at equal_fold trim_left
usage_token r =
    let token = usage_bearer r.authorization (split_at 6 r.authorization) in
    if token == "" then r.access_token else token

abbrev pub lowered : Words → List (String × List String) → Fields
lowered ws [] = end
lowered ws ((name, values) ∷ more) =
    put (ws.to_lower name) (str (join ", " values)) (lowered ws more)

abbrev pub put_location : Option Fields → Fields → Fields
put_location none event = event
put_location (some location) event = put "location" (obj doc_m location) event

module _ (s : Service) where
  abbrev or_no_id : Option String → String
  or_no_id none = ""
  or_no_id (some id) = id

  -- A document whose `_id` is no string fails to decode.
  abbrev found_id : Result Error Fields → String
  found_id (err e) = ""
  found_id (ok d) = or_no_id (as_str (get "_id" d))

  abbrev look_up : String → s.World → String × s.World
  look_up token w =
      let (r, v) =
        s.find_one "users" (by_token (token_hash s token)) (fields (("_id", int (pos 1)) ∷ [])) w in
      (found_id r, v)

  -- `usageUserID`
  unfoldable pub usage_user_id : Request → s.World → String × s.World
  unfolding usage_token token_hash get
  usage_user_id r w = if usage_token r == "" then ("", w) else look_up (usage_token r) w

  -- The event of `recordUsage`
  unfoldable pub usage_event : Words → Request → String → ℕ → Fields
  unfolding usage_route client_key location_from_headers put join
  usage_event ws r user_id now =
      put_location (location_from_headers ws.places (lowered ws r.headers)) (
        fields (
          ("name", str (api_name ws r.method (usage_route r.pattern)))
          ∷ ("userId", str user_id)
          ∷ ("ip", str (client_key s r))
          ∷ ("at", time now)
          ∷ []))
