-- ===== src/Clientip.antt =====
-- internal/clientip/clientip.go: the address that the throttle counts by.
-- The header values are the `X-Forwarded-For` lines of the request, and `int64` is unbounded but for
-- the largest value, which an oversized count becomes.
pub mod Laws
use Prim.Native.Char.{Char, code}
use Prim.Native.String.{[], ◌∷◌}
use wekango.Base.{
  ℕ, ◌+◌, ◌-◌, ◌*◌, ◌^◌, String, Bool, not, ◌&&◌, ◌||◌, Option, none, some, List, map, ◌==◌, ltb,
  leb, eqb, if◌then◌else◌, length, get_elem?, keep,
}
use wekango.Base.Int.{ℤ, pos, negsuc}
use wekango.Base.Text.{within, trim_js, split, join, contains_code}
use mathlib.Core.List

abbrev pub max_int64 : ℕ
max_int64 = 2 ^ 63 - 1

abbrev is_digit : ℕ → Bool
is_digit c = within b'0' b'9' c

-- The loop of `Count` with the value of the digits before it: `strconv.ParseInt` of the digit prefix.
abbrev pub digits_value : ℕ → String → ℕ
digits_value n [] = n
digits_value n (c ∷ s) =
    let more = digits_value (n * 10 + (code c - b'0')) s in if is_digit (code c) then more else n

-- `ParseInt` fails past the largest value.
abbrev capped : ℕ → ℕ
capped n = if ltb max_int64 n then max_int64 else n

abbrev count_digits : String → ℕ
count_digits s = capped (digits_value 0 s)

abbrev count_sign : String → ℕ
count_sign [] = 0
count_sign (c ∷ s) =
    if eqb (code c) b'-'
    then 0
    else if eqb (code c) b'+'
    then count_digits s
    else count_digits (c ∷ s)

unfoldable pub count : String → ℕ
unfolding trim_js
count value = count_sign (trim_js value)

-- The text before and after the first `sep`.
abbrev before_first : Char → Option (String × String) → Option (String × String)
before_first c none = none
before_first c (some (before, after)) = some (c ∷ before, after)

abbrev cut_first : ℕ → String → Option (String × String)
cut_first sep [] = none
cut_first sep (c ∷ s) =
    let later = cut_first sep s in if eqb (code c) sep then some ("", s) else before_first c later

-- The text before the last `sep`.
abbrev before_last : Char → Option String → Option String
before_last c none = none
before_last c (some before) = some (c ∷ before)

abbrev cut_last : ℕ → String → Option String
cut_last sep [] = none
cut_last sep (c ∷ s) =
    let later = cut_last sep s in
    if eqb (code c) sep && not (contains_code sep s) then some "" else before_last c later

-- `net.SplitHostPort`, the host alone: none for an error. `[host]:port`, or `host:port` with one colon.
abbrev plain_host : String → Option String → Option String
plain_host whole none = none
plain_host whole (some host) =
    if contains_code b':' host || contains_code b'[' whole || contains_code b']' whole
    then none
    else some host

abbrev bracket_host : Option (String × String) → Option String
bracket_host none = none
bracket_host (some (host, [])) = none
bracket_host (some (host, c ∷ port)) =
    if eqb (code c) b':'
      && not (contains_code b':' port)
      && not (contains_code b'[' host)
      && not (contains_code b'[' port)
      && not (contains_code b']' port)
    then some host
    else none

unfoldable pub split_host : String → Option String
unfolding contains_code
split_host [] = none
split_host (c ∷ s) =
    if eqb (code c) b'['
    then bracket_host (cut_first b']' s)
    else plain_host (c ∷ s) (cut_last b':' (c ∷ s))

abbrev non_empty : String → Bool
non_empty s = not (s == "")

-- The addresses of the chain, left to right.
unfoldable pub chain : List String → List String
unfolding split join trim_js
chain values = keep non_empty (map trim_js (split b',' (join ", " values)))

abbrev or_remote : String → Option String → String
or_remote remote none = remote
or_remote remote (some host) = host

abbrev or_unknown : String → String
or_unknown remote = if remote == "" then "unknown" else remote

unfoldable pub socket : String → String
unfolding split_host
socket remote = or_unknown (or_remote remote (split_host remote))

abbrev pub or_socket : String → Option String → String
or_socket remote none = socket remote
or_socket remote (some address) = address

-- `Resolve`. A count that is not positive, or longer than the chain, selects the socket's address.
unfoldable pub resolve : List String → String → ℤ → String
unfolding chain socket
resolve values remote (negsuc n) = socket remote
resolve values remote (pos n) =
    let parts = chain values in
    if not (eqb n 0) && leb n (length parts)
    then or_socket remote (get_elem? parts (length parts - n))
    else socket remote
