-- ===== src/Base/Units.antt =====
-- Texts measured in UTF-16 code units, as `utf16.Encode` and `utf16.Decode` cut them.
use mathlib.Core.Path.{◌≡◌}
use Prim.Native.Nat.{ℕ, zero, suc, ◌+◌, ◌≤◌}
use Prim.Native.Char.{code}
use Prim.Native.String.{String, [], ◌∷◌}
use mathlib.Core.Logic.{inl, inr}
use native.Mathlib.Omega.{arith}
use text.Mathlib.TextLemmas.{nil-append, cons-append}
use wekango.Base.Text.{◌⊕◌}
use wekango.Base.Tests.{ltb, if◌then◌else◌, Bool-cases}

-- `len(utf16.Encode([]rune(s)))`
unfoldable pub units : String → ℕ
units [] = 0
units (c ∷ s) = if ltb (code c) 0x10000 then 1 + units s else 2 + units s

-- `string(utf16.Decode(units[:n]))` for the units of `s`: half of a surrogate pair becomes U+FFFD.
unfoldable pub take_units : ℕ → String → String
take_units zero s = ""
take_units (suc n) [] = ""
take_units (suc zero) (c ∷ s) = if ltb (code c) 0x10000 then c ∷ [] else "�"
take_units (suc (suc n)) (c ∷ s) =
    let narrow = take_units (suc n) s in
    let wide = take_units n s in if ltb (code c) 0x10000 then c ∷ narrow else c ∷ wide

pub units-take_units : (n : ℕ) (s : String) → units (take_units n s) ≤ n
unfolding units take_units
units-take_units zero s = omega arith
units-take_units (suc n) [] = omega arith
units-take_units (suc zero) (c ∷ s) = elim (Bool-cases (ltb (code c) 0x10000)) [
  | inl narrow ↦ rw (narrow, narrow) (omega arith)
  | inr wide ↦ rw wide (omega arith)
]
units-take_units (suc (suc n)) (c ∷ s) =
    ground (arith, units-take_units (suc n) s, units-take_units n s)

pub units-append : (s t : String) → units (s ⊕ t) ≡ units s + units t
unfolding units
units-append [] t = rw (nil-append t) (omega arith)
units-append (c ∷ s) t = rw (cons-append c s t) (ground (arith, units-append s t))
