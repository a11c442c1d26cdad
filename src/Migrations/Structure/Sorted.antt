-- ===== src/Migrations/Structure/Sorted.antt =====
-- internal/migrations/structure.go: a sort keeps the elements of a slice.
use wekango.Base.{◌+◌, Bool, List, [], ◌∷◌, ◌≡◌, refl, arith, tally, All, Bool-cases, inl, inr}
use wekango.Migrations.Structure.{slice_stable, sort_from, insert_back, reverse_onto}

-- A sort keeps what all elements have, and how many pass a test.
module _ {A : Type 0} (less : A → A → Bool) (P : A → Type 0) where
  insert_back-All : (x : A) (ys : List A) → P x → All P ys → All P (insert_back less x ys)
  unfolding insert_back
  insert_back-All x [] h hs = (h, tt)
  insert_back-All x (y ∷ ys) h hs = elim (Bool-cases (less x y)) [
    | inl before ↦ rw before (hs.0, insert_back-All x ys h hs.1)
    | inr after ↦ rw after (h, hs)
  ]

  sort_from-All : (done xs : List A) → All P done → All P xs → All P (sort_from less done xs)
  unfolding sort_from
  sort_from-All done [] h hs = h
  sort_from-All done (x ∷ xs) h hs =
      sort_from-All (insert_back less x done) xs (insert_back-All x done hs.0 h) hs.1

  reverse_onto-All : (acc xs : List A) → All P acc → All P xs → All P (reverse_onto less acc xs)
  reverse_onto-All acc [] h hs = h
  reverse_onto-All acc (x ∷ xs) h hs = reverse_onto-All (x ∷ acc) xs (hs.0, h) hs.1

  pub slice_stable-All : (xs : List A) → All P xs → All P (slice_stable less xs)
  unfolding slice_stable
  slice_stable-All xs h = reverse_onto-All [] (sort_from less [] xs) tt (sort_from-All [] xs tt h)

module _ {A : Type 0} (less : A → A → Bool) (p : A → Bool) where
  tally-insert_back : (x : A) (ys : List A) → tally p (insert_back less x ys) ≡ tally p (x ∷ ys)
  unfolding insert_back
  tally-insert_back x [] = refl
  tally-insert_back x (y ∷ ys) = ground (arith, tally-insert_back x ys)

  tally-sort_from :
      (done xs : List A) → tally p (sort_from less done xs) ≡ tally p done + tally p xs
  unfolding sort_from
  tally-sort_from done [] = omega arith
  tally-sort_from done (x ∷ xs) =
      ground (arith, tally-sort_from (insert_back less x done) xs, tally-insert_back x done)

  tally-reverse_onto :
      (acc xs : List A) → tally p (reverse_onto less acc xs) ≡ tally p acc + tally p xs
  tally-reverse_onto acc [] = omega arith
  tally-reverse_onto acc (x ∷ xs) = ground (arith, tally-reverse_onto (x ∷ acc) xs)

  pub tally-slice_stable : (xs : List A) → tally p (slice_stable less xs) ≡ tally p xs
  unfolding slice_stable
  tally-slice_stable xs =
      omega (arith, tally-reverse_onto [] (sort_from less [] xs), tally-sort_from [] xs)
