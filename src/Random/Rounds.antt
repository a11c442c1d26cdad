-- ===== src/Random/Rounds.antt =====
-- The random identifiers have the right shape, and the loop ends once the source has given enough
-- bytes below the limit.
use Prim.Native.Char.{Char, code}
use wekango.Base.{
  ℕ, zero, suc, ◌+◌, ◌%◌, ◌≤◌, ◌<◌, String, true, false, List, [], ◌∷◌, ◌++◌, ◌≡◌, Bool, refl,
  arith, ltb, eqb, length, length-append, All, All-append, Option, none, some, Bool-cases, inl, inr,
  if◌then◌else◌, min,
}
use wekango.Base.Text.{contains_code}
use wekango.Base.Exec.{Result, ok, err}
use wekango.Env.{Env, Error}
use wekango.Random.{letter_at, letter_of, accept, concat, next_round, id_from}

-- A text of one character, which stands in the text.
abbrev IsOneOf : String → String → Type 0
IsOneOf text (String.◌∷◌ c (String.[])) = contains_code (code c) text ≡ true
IsOneOf text _ = ⊥

-- One of the digits and letters that are hard to take for another.
abbrev pub IsLetter : String → Type 0
IsLetter s = IsOneOf "23456789ABCDEFGHJKLMNPQRSTWXYZabcdefghijkmnopqrstuvwxyz" s

abbrev size_of : String → ℕ
size_of String.[] = 0
size_of (String.◌∷◌ c s) = suc (size_of s)

IsOneOf-more : (c : Char) (text s : String) → IsOneOf text s → IsOneOf (String.◌∷◌ c text) s
unfolding contains_code
IsOneOf-more c text String.[] h = absurd h
IsOneOf-more c text (String.◌∷◌ d String.[]) h = ground (arith, h)
IsOneOf-more c text (String.◌∷◌ d (String.◌∷◌ e s)) h = absurd h

letter_at-IsOneOf : (n : ℕ) (s : String) → n < size_of s → IsOneOf s (letter_at n s)
unfolding letter_at contains_code
letter_at-IsOneOf n String.[] h = absurd (omega arith)
letter_at-IsOneOf zero (String.◌∷◌ c s) h = ground (arith)
letter_at-IsOneOf (suc n) (String.◌∷◌ c s) h =
    IsOneOf-more c s (letter_at n s) (letter_at-IsOneOf n s (omega arith))

letter_of-IsLetter : (b : ℕ) → IsLetter (letter_of b)
letter_of-IsLetter b = letter_at-IsOneOf (b % 55) _ (omega arith)

-- Seventeen letters.
pub record IsId (id : String) : Type 0 where
  pub letters : List String
  pub joined : id ≡ concat letters
  pub seventeen : length letters ≡ 17
  pub from_alphabet : All IsLetter letters

-- How many bytes of a block give each letter equally often: those below 220, four times 55.
abbrev pub usable : List ℕ → ℕ
usable [] = 0
usable (b ∷ bytes) = let rest = usable bytes in if ltb b 220 then suc rest else rest

accept-IsLetter :
    (out : List String) (bytes : List ℕ) → All IsLetter out → All IsLetter (accept out bytes)
unfolding accept
accept-IsLetter out [] h = h
accept-IsLetter out (b ∷ bytes) h = elim (Bool-cases (eqb (length out) 17)) [
  | inl full ↦ rw full h
  | inr room ↦ elim (Bool-cases (ltb b 220)) [
    | inl good ↦
        rw (room, good)
          (accept-IsLetter (out ++ letter_of b ∷ []) bytes
            (All-append IsLetter out (letter_of b ∷ []) h (letter_of-IsLetter b, tt)))
    | inr bad ↦ rw (room, bad) (accept-IsLetter out bytes h)
  ]
]

length-accept :
    (out : List String) (bytes : List ℕ)
    → length out ≤ 17
    → length (accept out bytes) ≡ min 17 (length out + usable bytes)
unfolding accept
length-accept out [] h = omega arith
length-accept out (b ∷ bytes) h = ground (
  arith,
  length-append out (letter_of b ∷ []),
  length-accept (out ++ letter_of b ∷ []) bytes,
  length-accept out bytes,
)

abbrev of_block : Result Error (List ℕ) → ℕ → ℕ
of_block (err e) later = 0
of_block (ok bytes) later = usable bytes + later

abbrev unless_failed : Result Error (List ℕ) → Bool → Bool
unless_failed (err e) later = true
unless_failed (ok bytes) later = later

-- A failure of the source; or no identifier, and then fewer than seventeen usable bytes; or one.
abbrev pub Ended : Bool → ℕ → Result Error (Option String) → Type 0
Ended failed given (err e) = failed ≡ true
Ended failed given (ok none) = given < 17
Ended failed given (ok (some id)) = IsId id

Ended-fewer :
    (failed : Bool) (m n : ℕ) (r : Result Error (Option String))
    → (m < 17 → n < 17)
    → Ended failed m r
    → Ended failed n r
Ended-fewer failed m n (err e) h g = g
Ended-fewer failed m n (ok none) h g = h g
Ended-fewer failed m n (ok (some id)) h g = g

done-IsId : (out : List String) → length out ≡ 17 → All IsLetter out → IsId (concat out)
done-IsId out full letters = record {
  letters = out;
  joined = refl;
  seventeen = full;
  from_alphabet = letters;
}

module _ (env : Env) (block : ℕ) where
  -- How many usable bytes the source gives in so many blocks, up to a failure.
  unfoldable pub usable_in : ℕ → env.World → ℕ
  usable_in zero w = 0
  usable_in (suc rounds) w = let (r, v) = env.random block w in of_block r (usable_in rounds v)

  -- Whether the source fails in so many blocks.
  unfoldable pub fails_in : ℕ → env.World → Bool
  fails_in zero w = false
  fails_in (suc rounds) w = let (r, v) = env.random block w in unless_failed r (fails_in rounds v)

  next_round-Ended :
      (rounds : ℕ) (out : List String) (r : Result Error (List ℕ)) (v : env.World)
      → length out ≤ 17
      → All IsLetter out
      → ((longer : List String) (u : env.World)
          → length longer ≤ 17
          → All IsLetter longer
          → Ended
              (fails_in rounds u)
              (length longer + usable_in rounds u)
              (id_from env block rounds longer u).0)
      → Ended
          (unless_failed r (fails_in rounds v))
          (length out + of_block r (usable_in rounds v))
          (next_round env block (id_from env block rounds) out r v).0
  next_round-Ended rounds out (err e) v short letters more = refl
  next_round-Ended rounds out (ok bytes) v short letters more =
      Ended-fewer (fails_in rounds v) (length (accept out bytes) + usable_in rounds v) _ _
        (λ h. omega (arith, h, length-accept out bytes short))
        (more (accept out bytes) v (omega (arith, length-accept out bytes short))
          (accept-IsLetter out bytes letters))

  id_from-Ended_at :
      (rounds : ℕ) (out : List String) (w : env.World)
      → length out ≤ 17
      → All IsLetter out
      → Ended
          (fails_in rounds w)
          (length out + usable_in rounds w)
          (id_from env block rounds out w).0
  unfolding id_from usable_in fails_in
  id_from-Ended_at zero out w h letters = elim (Bool-cases (eqb (length out) 17)) [
    | inl full ↦ rw full (done-IsId out (ground arith) letters)
    | inr room ↦ rw room (ground arith)
  ]
  id_from-Ended_at (suc rounds) out w h letters = elim (Bool-cases (eqb (length out) 17)) [
    | inl full ↦ rw full (done-IsId out (ground arith) letters)
    | inr room ↦ rw room (
        next_round-Ended rounds out (env.random block w).0 (env.random block w).1 h letters
          (λ longer u bound ls. id_from-Ended_at rounds longer u bound ls))
  ]

  -- After some rounds, whatever the size of a block, the loop gives an identifier of seventeen letters
  -- of the alphabet, unless the source has failed or its blocks had fewer than seventeen bytes below
  -- 220 in all.
  pub id_from-Ended :
      (rounds : ℕ) (w : env.World)
      → Ended (fails_in rounds w) (usable_in rounds w) (id_from env block rounds [] w).0
  id_from-Ended rounds w =
      Ended-fewer (fails_in rounds w) (0 + usable_in rounds w) (usable_in rounds w)
        (id_from env block rounds [] w).0 (λ h. omega (arith, h))
        (id_from-Ended_at rounds [] w (omega arith) tt)
