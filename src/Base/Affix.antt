-- ===== src/Base/Affix.antt =====
-- Prefixes and suffixes, as Go's `strings` cuts them off.
use Prim.Native.Char.{Char, code}
use Prim.Native.String.{String, [], ◌∷◌}
use mathlib.Core.Path.{◌≡◌, refl, ap, sym, ◌∙◌}
use mathlib.Core.Bool.{Bool, true, false}
use mathlib.Core.Option.{Option, none, some}
use native.Mathlib.Omega.{arith}
use text.Mathlib.Text.{◌==◌}
use text.Mathlib.TextEquality.{eq_iff}
use text.Mathlib.TextPositions.{eq_refl}
use text.Mathlib.TextLemmas.{nil-append, cons-append, append_cancel_right, cons-ne-nil}
use wekango.Base.Tests.{eqb, if◌then◌else◌, Bool-cases}
use wekango.Base.Text.{◌⊕◌}
use mathlib.Core.Logic.{inl, inr}

-- `strings.CutPrefix`
unfoldable pub strip_prefix : String → String → Option String
strip_prefix [] s = some s
strip_prefix (p ∷ ps) [] = none
strip_prefix (p ∷ ps) (c ∷ s) =
    let rest = strip_prefix ps s in if eqb (code p) (code c) then rest else none

abbrev before : Char → Option String → Option String
before c none = none
before c (some s) = some (c ∷ s)

-- `strings.CutSuffix`
unfoldable pub strip_suffix : String → String → Option String
strip_suffix end [] = if end == "" then some "" else none
strip_suffix end (c ∷ s) =
    let rest = strip_suffix end s in if (c ∷ s) == end then some "" else before c rest

abbrev pub or_whole : String → Option String → String
or_whole s none = s
or_whole s (some t) = t

-- `strings.TrimPrefix` and `strings.TrimSuffix`
abbrev pub trim_prefix : String → String → String
trim_prefix p s = or_whole s (strip_prefix p s)

abbrev pub trim_suffix : String → String → String
trim_suffix end s = or_whole s (strip_suffix end s)

abbrev pub is_cut : Option String → Bool
is_cut none = false
is_cut (some s) = true

-- What was put in front of a text, or behind it, comes off again.
pub strip_prefix-append : (p s : String) → strip_prefix p (p ⊕ s) ≡ some s
unfolding strip_prefix
strip_prefix-append [] s = ap some (nil-append s)
strip_prefix-append (c ∷ p) s = rw (cons-append c p s) (ground (arith, strip_prefix-append p s))

strip_suffix_self : (end : String) → strip_suffix end end ≡ some ""
unfolding strip_suffix
strip_suffix_self [] = refl
strip_suffix_self (c ∷ s) = rw (eq_refl (c ∷ s)) refl

longer : (c : Char) (s end : String) → ((c ∷ (s ⊕ end)) == end) ≡ false
longer c s end = elim (Bool-cases ((c ∷ (s ⊕ end)) == end)) [
  | inl same ↦ absurd (
      cons-ne-nil c s (
        append_cancel_right (c ∷ s) "" end
          (cons-append c s end ∙ (eq_iff (c ∷ (s ⊕ end)) end).0 same ∙ sym (nil-append end))))
  | inr differ ↦ differ
]

pub strip_suffix-append : (s end : String) → strip_suffix end (s ⊕ end) ≡ some s
unfolding strip_suffix
strip_suffix-append [] end = rw (nil-append end) (strip_suffix_self end)
strip_suffix-append (c ∷ s) end =
    rw (cons-append c s end) (rw (longer c s end, strip_suffix-append s end) refl)
