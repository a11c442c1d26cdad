-- ===== src/Base/Map.antt =====
-- Go maps with string keys as association lists, first match first.
use Prim.Native.Nat.{ℕ, ◌+◌, ◌≤◌}
use Prim.Native.String.{String}
use mathlib.Core.Path.{◌≡◌, refl, sym, ap, subst}
use mathlib.Core.Bool.{false}
use mathlib.Core.Option.{Option, none, some, some-injective}
use mathlib.Core.List.{List, [], ◌∷◌, ◌++◌}
use mathlib.Core.Logic.{inl, inr}
use native.Mathlib.Omega.{arith}
use text.Mathlib.Text.{◌==◌}
use text.Mathlib.TextEquality.{eq_iff}
use wekango.Base.Tests.{if◌then◌else◌, Bool-cases}
use wekango.Base.Lists.{length, All}

abbrev pub Map {ℓ} : Type ℓ → Type ℓ
Map V = List (String × V)

module _ {ℓ} {V : Type ℓ} where
  -- `value, ok := m[key]`
  unfoldable pub lookup : String → Map V → Option V
  lookup key [] = none
  lookup key ((held, value) ∷ rest) = if held == key then some value else lookup key rest

  -- `m[key] = value`
  unfoldable pub insert : String → V → Map V → Map V
  insert key new [] = (key, new) ∷ []
  insert key new ((held, old) ∷ rest) =
      if held == key then (key, new) ∷ rest else (held, old) ∷ insert key new rest

  unfoldable pub delete : String → Map V → Map V
  delete k [] = []
  delete k ((j, w) ∷ m) = let rest = delete k m in if j == k then rest else (j, w) ∷ rest

  pub lookup-insert :
      (key asked : String) (new : V) (entries : Map V)
      → lookup asked (insert key new entries)
        ≡ (if key == asked then some new else lookup asked entries)
  unfolding lookup insert
  lookup-insert key asked new [] = refl
  lookup-insert key asked new ((held, old) ∷ rest) =
      let later = lookup-insert key asked new rest in
      ground (arith, later, eq_iff held key, eq_iff key asked, eq_iff held asked)

  pub lookup-delete :
      (k j : String) (m : Map V) → lookup j (delete k m) ≡ (if k == j then none else lookup j m)
  unfolding lookup delete
  lookup-delete k j [] = ground arith
  lookup-delete k j ((i, w) ∷ m) =
      ground (arith, eq_iff k j, eq_iff i k, eq_iff i j, lookup-delete k j m)

  pub length-delete : (k : String) (m : Map V) → length (delete k m) ≤ length m
  unfolding delete
  length-delete k [] = omega arith
  length-delete k ((j, w) ∷ m) = ground (arith, length-delete k m)

  pub length-insert : (k : String) (v : V) (m : Map V) → length (insert k v m) ≤ length m + 1
  unfolding insert
  length-insert k v [] = omega arith
  length-insert k v ((j, w) ∷ m) = ground (arith, length-insert k v m)

  -- A write to a key that is there keeps the number of keys.
  pub length-insert-some :
      (k : String) (v w : V) (m : Map V) → lookup k m ≡ some w → length (insert k v m) ≡ length m
  unfolding lookup insert
  length-insert-some k v w [] h = cc
  length-insert-some k v w ((j, u) ∷ m) h = ground (arith, length-insert-some k v w m)

  pub length-insert-none :
      (k : String) (v : V) (m : Map V) → lookup k m ≡ none → length (insert k v m) ≡ length m + 1
  unfolding lookup insert
  length-insert-none k v [] h = omega arith
  length-insert-none k v ((j, u) ∷ m) h = ground (arith, length-insert-none k v m)

  abbrev pub keys : Map V → List String
  keys [] = []
  keys ((k, v) ∷ m) = k ∷ keys m

  -- No key stands twice.
  abbrev pub IsDistinct : Map V → Type ℓ
  IsDistinct [] = Unit
  IsDistinct ((k, v) ∷ m) = (lookup k m ≡ none) × IsDistinct m

  pub keys-insert-none :
      (k : String) (v : V) (m : Map V) → lookup k m ≡ none → keys (insert k v m) ≡ keys m ++ k ∷ []
  unfolding lookup insert
  keys-insert-none k v [] h = refl
  keys-insert-none k v ((j, w) ∷ m) h = elim (Bool-cases (j == k)) [
    | inl same ↦ cc (rw same at h)
    | inr differ ↦ rw differ (ap (λ r. j ∷ r) (keys-insert-none k v m (rw differ at h)))
  ]

  pub keys-insert-some :
      (k : String) (v w : V) (m : Map V) → lookup k m ≡ some w → keys (insert k v m) ≡ keys m
  unfolding lookup insert
  keys-insert-some k v w [] h = cc
  keys-insert-some k v w ((j, u) ∷ m) h = elim (Bool-cases (j == k)) [
    | inl same ↦ rw same (ap (λ r. r ∷ keys m) (sym ((eq_iff j k).0 same)))
    | inr differ ↦ rw differ (ap (λ r. j ∷ r) (keys-insert-some k v w m (rw differ at h)))
  ]

  pub IsDistinct-insert :
      (k : String) (v : V) (m : Map V) → IsDistinct m → IsDistinct (insert k v m)
  unfolding lookup insert
  IsDistinct-insert k v [] h = (refl, tt)
  IsDistinct-insert k v ((j, w) ∷ m) h = elim (Bool-cases (j == k)) [
    | inl same ↦ rw (same, ← (eq_iff j k).0 same) h
    | inr differ ↦ rw differ (
      ground (arith, lookup-insert k j v m, eq_iff j k, eq_iff k j, h.0),
      IsDistinct-insert k v m h.1,
    )
  ]

module _ {ℓ κ} {V : Type ℓ} (P : V → Type κ) where
  -- Every value has the property.
  abbrev pub AllValues : Map V → Type κ
  AllValues [] = Unit
  AllValues ((k, v) ∷ m) = P v × AllValues m

  pub lookup-AllValues : (k : String) (m : Map V) {v : V} → AllValues m → lookup k m ≡ some v → P v
  unfolding lookup
  lookup-AllValues k [] h found = cc
  lookup-AllValues k ((j, w) ∷ m) h found = elim (Bool-cases (j == k)) [
    | inl same ↦ subst P (some-injective w _ (rw same at found)) h.0
    | inr differ ↦ lookup-AllValues k m h.1 (rw differ at found)
  ]

-- The sum of a size over the values.
module _ {ℓ} {V : Type ℓ} (size : V → ℕ) where
  abbrev pub sum_of : Map V → ℕ
  sum_of [] = 0
  sum_of ((k, v) ∷ m) = size v + sum_of m

  pub sum_of-insert-none :
      (k : String) (v : V) (m : Map V)
      → lookup k m ≡ none
      → sum_of (insert k v m) ≡ sum_of m + size v
  unfolding lookup insert
  sum_of-insert-none k v [] h = omega arith
  sum_of-insert-none k v ((j, w) ∷ m) h = ground (arith, sum_of-insert-none k v m)

  pub sum_of-insert-some :
      (k : String) (v old : V) (m : Map V)
      → lookup k m ≡ some old
      → sum_of (insert k v m) + size old ≡ sum_of m + size v
  unfolding lookup insert
  sum_of-insert-some k v old [] h = cc
  sum_of-insert-some k v old ((j, w) ∷ m) h = ground (arith, sum_of-insert-some k v old m)

module _ {ℓ} {V : Type ℓ} where
  pub keys-differ :
      (k : String) (m : Map V) → lookup k m ≡ none → All (λ j. (k == j) ≡ false) (keys m)
  unfolding lookup
  keys-differ k [] h = tt
  keys-differ k ((j, w) ∷ m) h =
      (ground (arith, eq_iff k j, eq_iff j k), keys-differ k m (ground arith))
