-- ===== src/Eventlog/Summary.antt =====
-- internal/eventlog/summary.go: the identity of an event, its actors, and the updates that a summary
-- row gets for it.
pub mod Updates
pub mod Cap
pub mod Identity
use wekango.Base.{
  ℕ, ◌+◌, ◌-◌, ◌*◌, ◌%◌, ◌^◌, String, Bool, true, false, not, ◌&&◌, ◌||◌, List, [], ◌∷◌, ◌==◌,
  Option, none, some, if◌then◌else◌, length, ltb, leb, eqb, all,
}
use Prim.Native.Char.{code}
use Prim.Native.String
use wekango.Base.Text.{◌⊕◌, within, join, split, trim_left, trim_js, contains_code}
use wekango.Bson.{
  Value, null, double, str, oid, nil_obj, nil_arr, arr, obj, Items, nil, cons, Fields, fields,
}
use wekango.Bson.Truth.{summary_truthy, double_is_zero, double_is_nan}
use wekango.Bson.Fetch.{find, get}
use wekango.Env.{Floats}

-- What the standard library prints and computes: `fmt.Sprint`, the two forms of `FormatFloat`,
-- float arithmetic and the first eight bytes of SHA-256 in hexadecimal.
pub record Formats : Type 0 where
  pub sprint : Value → String
  pub format_f : ℕ → String
  pub format_e : ℕ → String
  pub floats : Floats
  pub hash8 : String → String

abbrev pub max_actors : ℕ
max_actors = 50

abbrev pub identity_fields : List String
identity_fields =
    "stream" ∷ "bleed" ∷ "category" ∷ "action" ∷ "source" ∷ "severity" ∷ "cwe" ∷ "type" ∷ "db"
    ∷ "kind" ∷ "api" ∷ "apiUserId" ∷ []

abbrev pub latest_fields : List String
latest_fields =
    "userId" ∷ "username" ∷ "ip" ∷ "ipv4" ∷ "ipv6" ∷ "location" ∷ "detail" ∷ "message" ∷ []

-- The sign of an exponent, and its digits without leading zeros.
abbrev short_exponent : String → String
short_exponent String.[] = ""
short_exponent (String.◌∷◌ c s) =
    if eqb (code c) b'+' || eqb (code c) b'-'
    then String.◌∷◌ c (trim_left (eqb b'0') s)
    else trim_left (eqb b'0') (String.◌∷◌ c s)

abbrev with_exponent : String → List String → String
with_exponent whole (mantissa ∷ exponent ∷ []) = mantissa ⊕ "e" ⊕ short_exponent exponent
with_exponent whole _ = whole

-- The case of `float64`. Patterns of positive numbers are ordered as the numbers are: these are 1e21,
-- 1e-6 and the infinity.
unfoldable pub double_string : Formats → ℕ → String
unfolding split trim_left
double_string f x =
    let size = x % 2 ^ 63 in
    if double_is_zero x
    then "0"
    else if eqb x 0x7ff0000000000000
    then "Infinity"
    else if eqb x 0xfff0000000000000
    then "-Infinity"
    else if not (double_is_nan x) && (leb 0x444b1ae4d6e2ef50 size || ltb size 0x3eb0c6f7a0b5ed8d)
    then with_exponent (f.format_e x) (split b'e' (f.format_e x))
    else f.format_f x

module _ (f : Formats) where
  unfoldable mutual
    unfolding join double_string

    pub summary_string : Value → String
    summary_string null = "null"
    summary_string (nil_obj k) = "null"
    summary_string (nil_arr k) = "null"
    summary_string (str s) = s
    summary_string (obj k d) = "[object Object]"
    summary_string (arr k vs) = join "," (summary_parts vs)
    summary_string (oid hex) = hex
    summary_string (double x) = double_string f x
    summary_string v = f.sprint v

    pub summary_parts : Items → List String
    summary_parts nil = []
    summary_parts (cons null vs) = "" ∷ summary_parts vs
    summary_parts (cons v vs) = summary_string v ∷ summary_parts vs

-- The pattern `\d{1,3}`.
abbrev is_digit : ℕ → Bool
is_digit = within b'0' b'9'

unfoldable pub all_codes : (ℕ → Bool) → String → Bool
all_codes p String.[] = true
all_codes p (String.◌∷◌ c s) = p (code c) && all_codes p s

abbrev is_group : String → Bool
is_group s = leb 1 (String.len s) && leb (String.len s) 3 && all_codes is_digit s

-- `summaryIPv4`: four groups between dots.
unfoldable pub is_dotted : String → Bool
unfolding split all_codes
is_dotted v = let parts = split b'.' v in eqb (length parts) 4 && all is_group parts

-- `strconv.Atoi` of digits.
unfoldable pub decimal_value : ℕ → String → ℕ
decimal_value n String.[] = n
decimal_value n (String.◌∷◌ c s) = decimal_value (n * 10 + (code c - b'0')) s

abbrev leads_with_zero : String → Bool
leads_with_zero String.[] = false
leads_with_zero (String.◌∷◌ c s) = eqb (code c) b'0' && ltb 0 (String.len s)

abbrev pub is_byte : String → Bool
is_byte part = not (leads_with_zero part) && leb (decimal_value 0 part) 255

-- `summaryIsIPv4`
unfoldable pub summary_is_ipv4 : String → Bool
unfolding is_dotted decimal_value split
summary_is_ipv4 v = is_dotted v && all is_byte (split b'.' v)

-- The rest after a prefix, its letters of either case: the code points of the prefix are given.
strip_codes : List ℕ → String → Option String
strip_codes [] s = some s
strip_codes (p ∷ ps) String.[] = none
strip_codes (p ∷ ps) (String.◌∷◌ c s) =
    let rest = strip_codes ps s in
    if eqb (code c) p || eqb (code c + 32) p && within b'A' b'Z' (code c) then rest else none

abbrev or_whole : String → Option String → String
or_whole s none = s
or_whole s (some t) = t

-- `summaryMapped`: the group that it captures.
abbrev captured : Option String → Option String
captured none = none
captured (some t) =
    let address = or_whole t (strip_codes (b'f' ∷ b'f' ∷ b'f' ∷ b'f' ∷ b':' ∷ []) t) in
    if is_dotted address then some address else none

unfoldable pub summary_mapped : String → Option String
unfolding strip_codes is_dotted
summary_mapped v = captured (strip_codes (b':' ∷ b':' ∷ []) v)

abbrev pub is_ipv6_code : ℕ → Bool
is_ipv6_code c =
    within b'0' b'9' c || within b'a' b'f' c || within b'A' b'F' c || eqb c b':' || eqb c b'.'

abbrev pub first_part : List String → String
first_part [] = ""
first_part (s ∷ more) = s

abbrev pub classify_rest : String → String × String
classify_rest v =
    let bare = first_part (split b'%' v) in
    if summary_is_ipv4 v
    then (v, "")
    else if contains_code b':' bare && all_codes is_ipv6_code bare
    then ("", v)
    else ("", "")

abbrev pub classify_mapped : String → Option String → String × String
classify_mapped v none = classify_rest v
classify_mapped v (some address) =
    if summary_is_ipv4 address then (address, "") else classify_rest v

-- `ClassifyAddress` of the trimmed text
unfoldable pub classify_text : String → String × String
unfolding summary_is_ipv4 summary_mapped split contains_code all_codes
classify_text v =
    if v == "" || v == "unknown" then ("", "") else classify_mapped v (summary_mapped v)

module _ (f : Formats) where
  -- `ClassifyAddress`
  unfoldable pub classify_address : Value → String × String
  unfolding classify_text summary_string trim_js
  classify_address null = classify_text ""
  classify_address v = classify_text (trim_js (summary_string f v))

  abbrev user_actor : Fields → List Fields
  user_actor evt =
      if summary_truthy (get "username" evt)
      then fields
          (("kind", str "user") ∷ ("value", str (summary_string f (get "username" evt))) ∷ [])
        ∷ []
      else []

  abbrev ip_actor : String × String → List Fields
  ip_actor (v4, v6) =
      if not (v4 == "")
      then fields (("kind", str "ip") ∷ ("value", str v4) ∷ ("family", str "ipv4") ∷ []) ∷ []
      else if not (v6 == "")
      then fields (("kind", str "ip") ∷ ("value", str v6) ∷ ("family", str "ipv6") ∷ []) ∷ []
      else []

  abbrev address_actor : Fields → List Fields
  address_actor evt =
      if summary_truthy (get "ip" evt) then ip_actor (classify_address (get "ip" evt)) else []

  abbrev append_all : List Fields → List Fields → List Fields
  append_all [] ys = ys
  append_all (x ∷ xs) ys = x ∷ append_all xs ys

  -- `ActorsOf`
  unfoldable pub actors_of : Fields → List Fields
  unfolding summary_string classify_address summary_truthy get
  actors_of evt = append_all (user_actor evt) (address_actor evt)

  abbrev kind_of : Option Value → String
  kind_of none = "undefined"
  kind_of (some v) = summary_string f v

  -- `ActorKeyFor`
  unfoldable pub actor_key_for : Fields → String
  unfolding summary_string summary_truthy get find
  actor_key_for actor =
      if summary_truthy (get "value" actor)
      then f.hash8 (kind_of (find "kind" actor) ⊕ ":" ⊕ summary_string f (get "value" actor))
      else ""
