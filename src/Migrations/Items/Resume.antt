-- ===== src/Migrations/Items/Resume.antt =====
-- internal/migrations/fields.go: a run of `RunChecklistItemsEmbedded` after one that was interrupted.
use wekango.Base.{
  ℕ, ◌+◌, String, true, false, List, [], ◌∷◌, ◌==◌, ◌≡◌, refl, sym, All, Bool-cases, inl, inr,
  eq_iff, arith, ◌∙◌,
}
use mathlib.Core.Path.{subst}
use wekango.Base.Exec.{Result, ok, err, pure, ◌>>=◌, >>=-eq-ok, ok-injective}
use wekango.Bson.{Value, Fields}
use wekango.Bson.Truth.{truthy}
use wekango.Bson.Fetch.{find, get, map_of, listed}
use wekango.Env.{Error}
use wekango.Migrations.Structure.{Tools, W}
use wekango.Migrations.Items.{field_item_key, item_doc, add_new, item_docs, next_id}

module _ (t : Tools) where
  -- A document whose key is known.
  abbrev pub IsKnown : List String → Fields → Type 0
  IsKnown known doc = listed (field_item_key t doc) known ≡ true

  -- The key does not depend on the identifier, the checklist and the time.
  field_item_key-item_doc :
      (now later : ℕ) (checklist item : Fields) (id other : String) (i : ℕ)
      → field_item_key t (item_doc t now checklist id i item)
        ≡ field_item_key t (item_doc t later checklist other i item)
  unfolding field_item_key find get truthy
  field_item_key-item_doc now later checklist item id other i = refl

  listed_in :
      (k : String) (seen known : List String)
      → All (λ j. listed j known ≡ true) seen
      → listed k seen ≡ true
      → listed k known ≡ true
  listed_in k [] known hs h = absurd (cc)
  listed_in k (j ∷ seen) known hs h = elim (Bool-cases (j == k)) [
    | inl same ↦ ground (arith, hs.0, eq_iff j k, same)
    | inr other ↦ listed_in k seen known hs.1 (sym (rw other refl) ∙ h)
  ]

  add_new-known :
      (known : List String) (doc : Fields) (more : List Fields)
      → IsKnown known doc
      → add_new t known doc more ≡ more
  add_new-known known doc more h = rw h refl

  add_new-fresh :
      (seen : List String) (doc : Fields) (more : List Fields)
      → listed (field_item_key t doc) seen ≡ false
      → add_new t seen doc more ≡ doc ∷ more
  add_new-fresh seen doc more h = rw h refl

  IsKnown-add_new :
      (seen known : List String) (doc : Fields) (more : List Fields)
      → All (λ j. listed j known ≡ true) seen
      → All (IsKnown known) (add_new t seen doc more)
      → IsKnown known doc × All (IsKnown known) more
  IsKnown-add_new seen known doc more hs h =
      elim (Bool-cases (listed (field_item_key t doc) seen)) [
        | inl old ↦ (
          listed_in (field_item_key t doc) seen known hs old,
          subst (All (IsKnown known)) (add_new-known seen doc more old) h,
        )
        | inr fresh ↦ subst (All (IsKnown known)) (add_new-fresh seen doc more fresh) h
      ]

  item_docs-eq-ok :
      (now : ℕ) (checklist : Fields) (seen : List String) (i : ℕ) (raw : Value) (items : List Value)
      (w : W t) {docs : List Fields}
      → (item_docs t now checklist seen i (raw ∷ items) w).0 ≡ ok docs
      → (id : String) × (v : W t) × (more : List Fields) × ((item_docs t now checklist seen
            (i + 1)
            items
            v).0
          ≡ ok more)
        × (add_new t seen (item_doc t now checklist id i (map_of raw)) more ≡ docs)
  unfolding item_docs
  item_docs-eq-ok now checklist seen i raw items w h =
      let rest = item_docs t now checklist seen (i + 1) items in
      let (id, drawn, later) =
        >>=-eq-ok (next_id t)
          (λ id. rest >>= λ docs.
            pure (add_new t seen (item_doc t now checklist id i (map_of raw)) docs))
          w h in
      let (more, ran, last) =
        >>=-eq-ok rest
          (λ docs. pure (add_new t seen (item_doc t now checklist id i (map_of raw)) docs))
          (next_id t w).1 later in
      (id, (next_id t w).1, more, ran, ok-injective last)

item_docs-again :
    (t : Tools) (now later : ℕ) (checklist : Fields) (seen known : List String) (i : ℕ)
    (items : List Value) (w v : W t) {docs again : List Fields}
    → (item_docs t now checklist seen i items w).0 ≡ ok docs
    → All (λ k. listed k known ≡ true) seen
    → All (IsKnown t known) docs
    → (item_docs t later checklist known i items v).0 ≡ ok again
    → again ≡ []
unfolding item_docs
item_docs-again t now later checklist seen known i [] w v first old found second =
    sym (ok-injective second)
item_docs-again t now later checklist seen known i (raw ∷ items) w v first old found second =
    let (id, w', more, ran, made) = item_docs-eq-ok t now checklist seen i raw items w first in
    let (other, v', none_left, reran, remade) =
      item_docs-eq-ok t later checklist known i raw items v second in
    let doc = item_doc t now checklist id i (map_of raw) in
    let doc' = item_doc t later checklist other i (map_of raw) in
    let (head, tail) =
      IsKnown-add_new t seen known doc more old (subst (All (IsKnown t known)) (sym made) found) in
    let again_known =
      subst (λ k. listed k known ≡ true)
        (field_item_key-item_doc t now later checklist (map_of raw) id other i) head in
    sym remade
    ∙ add_new-known t known doc' none_left again_known
    ∙ item_docs-again t now later checklist seen known (i + 1) items w' v' ran old tail reran

-- Fails, or prepares no document.
abbrev pub IsDone : Result Error (List Fields) → Type 0
IsDone (ok docs) = docs ≡ []
IsDone (err e) = Unit

IsDone-ends :
    (r : Result Error (List Fields)) → ((docs : List Fields) → r ≡ ok docs → docs ≡ []) → IsDone r
IsDone-ends (ok docs) h = h docs refl
IsDone-ends (err e) h = tt

-- Where a run over the items of a checklist has prepared documents, a run over the same items, at any
-- time and with any identifiers, that finds the keys of these and all that the first found, fails
-- or prepares none: a run that starts again after an interruption doubles no item.
pub item_docs-resumed :
    (t : Tools) (now later : ℕ) (checklist : Fields) (seen known : List String) (i : ℕ)
    (items : List Value) (w v : W t) {docs : List Fields}
    → (item_docs t now checklist seen i items w).0 ≡ ok docs
    → All (λ k. listed k known ≡ true) seen
    → All (IsKnown t known) docs
    → IsDone (item_docs t later checklist known i items v).0
item_docs-resumed t now later checklist seen known i items w v first old found =
    IsDone-ends (item_docs t later checklist known i items v).0
      (λ again. item_docs-again t now later checklist seen known i items w v first old found)
