-- ===== src/Migrations/Structure/Merge/Grouping.antt =====
-- internal/migrations/structure.go: the lists of a board, grouped by title.
use wekango.Base.{
  ℕ, ◌+◌, String, List, [], ◌∷◌, ◌++◌, ◌==◌, ◌≡◌, refl, arith, Option, none, some, tally,
  tally-append, Bool, All, All-append, Bool-cases, inl, inr, eq_iff,
}
use mathlib.Core.Path.{subst}
use mathlib.Core.Option.{some-injective}
use wekango.Base.Map.{
  lookup, insert, IsDistinct, IsDistinct-insert, sum_of, sum_of-insert-none, sum_of-insert-some,
}
use wekango.Bson.{Fields}
use wekango.Migrations.Structure.{Tools, structural_field}
use wekango.Migrations.Structure.Merge.{Groups, with_list, group_one, group_from}

-- How many of the grouped lists pass the test.
abbrev pub members : (Fields → Bool) → Groups → ℕ
members p groups = sum_of (tally p) groups

module _ (t : Tools) where
  abbrev pub IsTitled : String → Fields → Type 0
  IsTitled title list = structural_field t list "title" ≡ title

  abbrev pub AllTitled : Groups → Type 0
  AllTitled [] = Unit
  AllTitled ((title, lists) ∷ groups) = All (IsTitled title) lists × AllTitled groups

  AllTitled-insert :
      (title : String) (lists : List Fields) (groups : Groups)
      → All (IsTitled title) lists
      → AllTitled groups
      → AllTitled (insert title lists groups)
  unfolding insert
  AllTitled-insert title lists [] h hs = (h, tt)
  AllTitled-insert title lists ((held, old) ∷ groups) h hs = elim (Bool-cases (held == title)) [
    | inl same ↦ rw same (h, hs.1)
    | inr other ↦ rw other (hs.0, AllTitled-insert title lists groups h hs.1)
  ]

  AllTitled-lookup :
      (title : String) (lists : List Fields) (groups : Groups)
      → AllTitled groups
      → lookup title groups ≡ some lists
      → All (IsTitled title) lists
  unfolding lookup
  AllTitled-lookup title lists [] hs found = cc
  AllTitled-lookup title lists ((held, old) ∷ groups) hs found = elim (Bool-cases (held == title)) [
    | inl same ↦
        subst (λ ls. All (IsTitled title) ls) (some-injective old lists (rw same at found))
          (subst (λ k. All (IsTitled k) old) ((eq_iff held title).0 same) hs.0)
    | inr other ↦ AllTitled-lookup title lists groups hs.1 (rw other at found)
  ]

  with_list-IsTitled :
      (list : Fields) (o : Option (List Fields)) (groups : Groups)
      → lookup (structural_field t list "title") groups ≡ o
      → AllTitled groups
      → All (IsTitled (structural_field t list "title")) (with_list list o)
  with_list-IsTitled list none groups found hs = (refl, tt)
  with_list-IsTitled list (some held) groups found hs =
      All-append (IsTitled (structural_field t list "title")) held (list ∷ [])
        (AllTitled-lookup (structural_field t list "title") held groups hs found) (refl, tt)

  members-with_list :
      (p : Fields → Bool) (title : String) (list : Fields) (o : Option (List Fields))
      (groups : Groups)
      → lookup title groups ≡ o
      → members p (insert title (with_list list o) groups) ≡ members p groups + tally p (list ∷ [])
  members-with_list p title list none groups found =
      sum_of-insert-none (tally p) title (list ∷ []) groups found
  members-with_list p title list (some held) groups found = omega (
    arith,
    sum_of-insert-some (tally p) title (held ++ list ∷ []) held groups found,
    tally-append p held (list ∷ []),
  )

  -- What grouping keeps.
  pub record IsGrouping (groups : Groups) : Type 0 where
    pub distinct : IsDistinct groups
    pub titled : AllTitled groups

  group_one-IsGrouping :
      (list : Fields) (groups : Groups) → IsGrouping groups → IsGrouping (group_one t list groups)
  group_one-IsGrouping list groups g =
      let title = structural_field t list "title" in
      record {
        distinct = IsDistinct-insert title (with_list list (lookup title groups)) groups g.distinct;
        titled =
            AllTitled-insert title (with_list list (lookup title groups)) groups
              (with_list-IsTitled list (lookup title groups) groups refl g.titled) g.titled;
      }

  pub group_from-IsGrouping :
      (lists : List Fields) (groups : Groups)
      → IsGrouping groups
      → IsGrouping (group_from t lists groups)
  unfolding group_from
  group_from-IsGrouping [] groups g = g
  group_from-IsGrouping (list ∷ lists) groups g =
      group_from-IsGrouping lists (group_one t list groups) (group_one-IsGrouping list groups g)

  pub members-group_from :
      (p : Fields → Bool) (lists : List Fields) (groups : Groups)
      → members p (group_from t lists groups) ≡ members p groups + tally p lists
  unfolding group_from
  members-group_from p [] groups = omega arith
  members-group_from p (list ∷ lists) groups =
      let title = structural_field t list "title" in
      omega (
        arith,
        members-group_from p lists (group_one t list groups),
        members-with_list p title list (lookup title groups) groups refl,
        tally-append p (list ∷ []) lists,
      )
