-- ===== src/Migrations/Structure/Merge/Survivors.antt =====
-- internal/migrations/structure.go: which lists of a grouping survive a merge, and where the others go.
use wekango.Base.{
  ◌+◌, String, Bool, false, List, [], ◌∷◌, ◌++◌, ◌==◌, ◌≡◌, refl, sym, ◌∙◌, arith, tally,
  tally-append, All, All-append, take, Bool-cases, inl, inr,
}
use mathlib.Core.List.{Memᴰ}
use mathlib.Core.List.Memᴰ
use wekango.Base.Map.{keys, IsDistinct, keys-differ}
use wekango.Bson.{Fields, fields}
use wekango.Bson.Fetch.{get, listed}
use wekango.Migrations.Structure.{Tools, structural_field}
use wekango.Migrations.Structure.Merge.{
  Groups, is_open, duplicate_from, comes_before, ordered, of_list, relink,
}
use wekango.Migrations.Structure.Sorted.{slice_stable-All, tally-slice_stable}
use wekango.Migrations.Structure.Merge.Grouping.{members, IsTitled, AllTitled}
use wekango.Migrations.Structure.Trace.{Call, update_asked, delete_asked}

-- The list that goes, and the one that takes its cards.
abbrev pub Move : Type 0
Move = Fields × Fields

abbrev pub survivors : Tools → Groups → List Fields
survivors t [] = []
survivors t ((title, lists) ∷ groups) = take 1 (ordered t lists) ++ survivors t groups

abbrev pub onto : Fields → List Fields → List Move
onto target [] = []
onto target (list ∷ lists) = (list, target) ∷ onto target lists

abbrev pub onto_first : List Fields → List Move
onto_first [] = []
onto_first (target ∷ lists) = onto target lists

abbrev pub moves_of : Tools → Groups → List Move
moves_of t [] = []
moves_of t ((title, lists) ∷ groups) = onto_first (ordered t lists) ++ moves_of t groups

abbrev pub gone : List Move → List Fields
gone [] = []
gone (m ∷ moves) = m.0 ∷ gone moves

-- The writes of a merge: the cards of a list that goes are linked to the other, then the history is,
-- and then the list that goes is deleted.
abbrev pub writes : Tools → List Move → List Call
writes t [] = []
writes t ((list, target) ∷ moves) =
    update_asked "cards" (of_list t list) (relink t target)
    ∷ update_asked "activities" (of_list t list) (relink t target)
    ∷ delete_asked "lists" (fields (("_id", get "_id" list) ∷ []))
    ∷ writes t moves

module _ (t : Tools) where
  -- The survivors have different titles.
  abbrev IsFree : List String → String → Type 0
  IsFree seen k = listed k seen ≡ false

  past_head :
      (seen : List String) (title : String) (lists rest : List Fields)
      → All (IsTitled t title) lists
      → listed title seen ≡ false
      → duplicate_from t seen rest ≡ false
      → duplicate_from t (title ∷ seen) rest ≡ false
      → duplicate_from t seen (take 1 lists ++ rest) ≡ false
  unfolding duplicate_from
  past_head seen title [] rest hs free skipped noted = skipped
  past_head seen title (list ∷ lists) rest hs free skipped noted =
      elim (Bool-cases (is_open list)) [
        | inl active ↦ rw (active, hs.0, free, noted) refl
        | inr archived ↦ rw (archived, skipped) refl
      ]

  IsFree-more :
      (title : String) (seen ks : List String)
      → All (λ j. (title == j) ≡ false) ks
      → All (IsFree seen) ks
      → All (IsFree (title ∷ seen)) ks
  IsFree-more title seen [] ds fs = tt
  IsFree-more title seen (k ∷ ks) ds fs =
      (rw (ds.0, fs.0) refl, IsFree-more title seen ks ds.1 fs.1)

  pub survivors_differ :
      (seen : List String) (groups : Groups)
      → IsDistinct groups
      → AllTitled t groups
      → All (IsFree seen) (keys groups)
      → duplicate_from t seen (survivors t groups) ≡ false
  unfolding duplicate_from
  survivors_differ seen [] ds hs fs = refl
  survivors_differ seen ((title, lists) ∷ groups) ds hs fs =
      past_head seen title (ordered t lists) (survivors t groups)
        (slice_stable-All (comes_before t) (IsTitled t title) lists hs.0) fs.0
        (survivors_differ seen groups ds.1 hs.1 fs.1)
        (survivors_differ (title ∷ seen) groups ds.1 hs.1
          (IsFree-more title seen (keys groups) (keys-differ title groups ds.0) fs.1))

  pub none_seen : (ks : List String) → All (IsFree []) ks
  none_seen [] = tt
  none_seen (k ∷ ks) = (refl, none_seen ks)

  pub writes-append : (xs ys : List Move) → writes t (xs ++ ys) ≡ writes t xs ++ writes t ys
  writes-append [] ys = refl
  writes-append ((list, target) ∷ xs) ys = cc (writes-append xs ys)

  tally-gone-append :
      (p : Fields → Bool) (xs ys : List Move)
      → tally p (gone (xs ++ ys)) ≡ tally p (gone xs) + tally p (gone ys)
  tally-gone-append p [] ys = omega arith
  tally-gone-append p (m ∷ xs) ys = ground (arith, tally-gone-append p xs ys)

  tally-gone-onto :
      (p : Fields → Bool) (target : Fields) (lists : List Fields)
      → tally p (gone (onto target lists)) ≡ tally p lists
  tally-gone-onto p target [] = refl
  tally-gone-onto p target (list ∷ lists) = ground (arith, tally-gone-onto p target lists)

  tally-first :
      (p : Fields → Bool) (lists : List Fields)
      → tally p (take 1 lists) + tally p (gone (onto_first lists)) ≡ tally p lists
  tally-first p [] = omega arith
  tally-first p (target ∷ lists) = ground (arith, tally-gone-onto p target lists)

  -- Nothing is lost or doubled: a list survives or goes.
  pub tally-survivors :
      (p : Fields → Bool) (groups : Groups)
      → tally p (survivors t groups) + tally p (gone (moves_of t groups)) ≡ members p groups
  tally-survivors p [] = omega arith
  tally-survivors p ((title, lists) ∷ groups) = omega (
    arith,
    tally-survivors p groups,
    tally-first p (ordered t lists),
    tally-append p (take 1 (ordered t lists)) (survivors t groups),
    tally-gone-append p (onto_first (ordered t lists)) (moves_of t groups),
    tally-slice_stable (comes_before t) p lists,
  )

  -- A list goes only to a survivor of the same title.
  abbrev pub IsProper : List Fields → Move → Type 0
  IsProper kept (list, target) =
      Memᴰ target kept × (structural_field t list "title" ≡ structural_field t target "title")

  onto-IsProper :
      (title : String) (target : Fields) (lists kept : List Fields)
      → IsTitled t title target
      → All (IsTitled t title) lists
      → Memᴰ target kept
      → All (IsProper kept) (onto target lists)
  onto-IsProper title target [] kept h hs held = tt
  onto-IsProper title target (list ∷ lists) kept h hs held =
      ((held, hs.0 ∙ sym h), onto-IsProper title target lists kept h hs.1 held)

  onto_first-IsProper :
      (title : String) (lists rest : List Fields)
      → All (IsTitled t title) lists
      → All (IsProper (take 1 lists ++ rest)) (onto_first lists)
  onto_first-IsProper title [] rest hs = tt
  onto_first-IsProper title (target ∷ lists) rest hs =
      onto-IsProper title target lists (target ∷ rest) hs.0 hs.1 (Memᴰ.head refl)

  IsProper-more :
      (more kept : List Fields) (moves : List Move)
      → All (IsProper kept) moves
      → All (IsProper (more ++ kept)) moves
  IsProper-more more kept [] h = tt
  IsProper-more more kept ((list, target) ∷ moves) h =
      ((Memᴰ.append_right more h.0.0, h.0.1), IsProper-more more kept moves h.1)

  pub moves_of-IsProper :
      (groups : Groups)
      → AllTitled t groups
      → All (IsProper (survivors t groups)) (moves_of t groups)
  moves_of-IsProper [] hs = tt
  moves_of-IsProper ((title, lists) ∷ groups) hs =
      All-append (IsProper (take 1 (ordered t lists) ++ survivors t groups))
        (onto_first (ordered t lists)) (moves_of t groups)
        (onto_first-IsProper title (ordered t lists) (survivors t groups)
          (slice_stable-All (comes_before t) (IsTitled t title) lists hs.0))
        (IsProper-more (take 1 (ordered t lists)) (survivors t groups) (moves_of t groups)
          (moves_of-IsProper groups hs.1))
