-- ===== src/Base/Text.antt =====
-- Texts that the program walks: the functions of Go's `strings` that it calls, over code points.
use Prim.Native.Nat.{ℕ, ◌+◌}
use Prim.Native.Char.{Char, code}
use Prim.Native.String
use Prim.Native.String.{String, [], ◌∷◌}
use mathlib.Core.Bool.{Bool, true, false, ◌&&◌, ◌||◌}
use mathlib.Core.List.{List}
use text.Mathlib.Text.{◌==◌}
use wekango.Base.Tests.{leb, eqb, if◌then◌else◌}

infixr 65 ◌⊕◌
abbrev pub ◌⊕◌ : String → String → String
s ⊕ t = String.◌++◌ s t

abbrev pub within : ℕ → ℕ → ℕ → Bool
within lo hi c = leb lo c && leb c hi

-- The white space of ECMAScript: the function that `clientip.trim`, `geoTrim` and
-- `boardReadTrimTitle` spell alike.
unfoldable pub is_js_space : ℕ → Bool
is_js_space r =
    within 9 13 r
    || eqb r 32
    || eqb r 0xa0
    || eqb r 0x1680
    || within 0x2000 0x200a r
    || eqb r 0x2028
    || eqb r 0x2029
    || eqb r 0x202f
    || eqb r 0x205f
    || eqb r 0x3000
    || eqb r 0xfeff

-- `unicode.IsSpace`, which has NEL and lacks BOM.
unfoldable pub is_space : ℕ → Bool
is_space r =
    within 9 13 r
    || eqb r 32
    || eqb r 0x85
    || eqb r 0xa0
    || eqb r 0x1680
    || within 0x2000 0x200a r
    || eqb r 0x2028
    || eqb r 0x2029
    || eqb r 0x202f
    || eqb r 0x205f
    || eqb r 0x3000

-- `strings.TrimLeftFunc` and `strings.TrimRightFunc`
unfoldable pub trim_left : (ℕ → Bool) → String → String
trim_left p [] = []
trim_left p (c ∷ s) = let rest = trim_left p s in if p (code c) then rest else c ∷ s

unfoldable pub trim_right : (ℕ → Bool) → String → String
trim_right p [] = []
trim_right p (c ∷ s) =
    let rest = trim_right p s in if p (code c) && rest == "" then "" else c ∷ rest

-- `strings.TrimFunc`
unfoldable pub trim : (ℕ → Bool) → String → String
unfolding trim_left trim_right
trim p s = trim_right p (trim_left p s)

unfoldable pub trim_js : String → String
unfolding trim is_js_space
trim_js s = trim is_js_space s

unfoldable pub trim_space : String → String
unfolding trim is_space
trim_space s = trim is_space s

abbrev push : String → Char → String
push s c = s ⊕ (c ∷ [])

abbrev flush : String → List String → List String
flush word rest = if word == "" then rest else List.◌∷◌ word rest

words_from : String → String → List String
words_from word [] = flush word List.[]
words_from word (c ∷ s) =
    let ended = flush word (words_from "" s) in
    let longer = words_from (push word c) s in if is_space (code c) then ended else longer

-- `strings.Fields`
unfoldable pub words : String → List String
unfolding words_from is_space
words s = words_from "" s

unfoldable pub split_from : ℕ → String → String → List String
split_from sep part [] = List.◌∷◌ part List.[]
split_from sep part (c ∷ s) =
    let ended = List.◌∷◌ part (split_from sep "" s) in
    let longer = split_from sep (push part c) s in if eqb (code c) sep then ended else longer

-- `strings.Split` at one character
unfoldable pub split : ℕ → String → List String
unfolding split_from
split sep s = split_from sep "" s

unfoldable pub join_rest : String → String → List String → String
join_rest sep acc List.[] = acc
join_rest sep acc (List.◌∷◌ t more) = join_rest sep (acc ⊕ sep ⊕ t) more

-- `strings.Join`
unfoldable pub join : String → List String → String
unfolding join_rest
join sep List.[] = ""
join sep (List.◌∷◌ s rest) = join_rest sep s rest

abbrev lower_code : ℕ → ℕ
lower_code c = if within b'A' b'Z' c then c + 32 else c

-- `strings.EqualFold(s, t)` for a `t` of ASCII letters other than k and s, the letters that
-- case folding also reaches from outside ASCII.
unfoldable pub equal_fold : String → String → Bool
equal_fold [] [] = true
equal_fold (c ∷ s) (d ∷ t) = eqb (lower_code (code c)) (lower_code (code d)) && equal_fold s t
equal_fold _ _ = false

-- `strings.ContainsRune`
unfoldable pub contains_code : ℕ → String → Bool
contains_code k [] = false
contains_code k (c ∷ s) = eqb (code c) k || contains_code k s
