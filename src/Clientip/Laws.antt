-- ===== src/Clientip/Laws.antt =====
-- What a client can and cannot choose about its address.
use Prim.Native.Char.{Char, code}
use wekango.Base.{
  map, keep, Bool-cases, inl, inr, ap, sym, ◌∙◌, ◌≢◌, eq_iff, ℕ, zero, suc, ◌+◌, ◌-◌, ◌≤◌, ◌<◌,
  String, Bool, true, false, List, [], ◌∷◌, ◌++◌, arith, ◌≡◌, refl, length, get_elem?, All, some,
  eqb, length-append,
}
use mathlib.Core.List.{map-append, append-nil as append-nil_list, append_assoc as append_assoc_list}
use native.Mathlib.Nat.{zero-add, suc-add}
use text.Mathlib.TextLemmas.{nil-append, cons-append, append_assoc, append-nil}
use wekango.Base.Text.{◌⊕◌, split_from, split, join, join_rest, trim_js}
use wekango.Base.Int.{pos}
use wekango.Clientip.{count_sign, non_empty, max_int64, count, resolve, chain, socket}

get_elem?-some {ℓ} :
    {A : Type ℓ} (xs : List A) (i : ℕ) → i < length xs → (x : A) × (get_elem? xs i ≡ some x)
get_elem?-some [] i h = elim h [ ]
get_elem?-some (x ∷ xs) zero h = (x, refl)
get_elem?-some (x ∷ xs) (suc i) h = get_elem?-some xs i (omega arith)

get_elem?-append_right {ℓ} :
    {A : Type ℓ} (xs ys : List A) (i : ℕ) → get_elem? (xs ++ ys) (length xs + i) ≡ get_elem? ys i
get_elem?-append_right [] ys i = rw zero-add
get_elem?-append_right (x ∷ xs) ys i = rw suc-add (get_elem?-append_right xs ys i)

-- The text holds no separator.
abbrev pub HasNo : ℕ → String → Type 0
HasNo sep String.[] = Unit
HasNo sep (String.◌∷◌ c s) = (eqb (code c) sep ≡ false) × HasNo sep s

split_from-append :
    (sep : ℕ) (part s t : String) (c : Char)
    → eqb (code c) sep ≡ true
    → split_from sep part (s ⊕ (String.◌∷◌ c t)) ≡ split_from sep part s ++ split_from sep "" t
unfolding split_from
split_from-append sep part String.[] t c h = rw (nil-append, h)
split_from-append sep part (String.◌∷◌ d s) t c h =
    rw cons-append (elim (Bool-cases (eqb (code d) sep)) [
      | inl here ↦ rw here (ap (λ r. part ∷ r) (split_from-append sep "" s t c h))
      | inr later ↦ rw later (split_from-append sep (part ⊕ (String.◌∷◌ d String.[])) s t c h)
    ])

split_from-HasNo :
    (sep : ℕ) (part s : String) → HasNo sep s → split_from sep part s ≡ (part ⊕ s) ∷ []
unfolding split_from
split_from-HasNo sep part String.[] h = rw append-nil
split_from-HasNo sep part (String.◌∷◌ c s) h = rw h.0 (
    split_from-HasNo sep (part ⊕ (String.◌∷◌ c String.[])) s h.1
    ∙ ap (λ r. r ∷ [])
        (append_assoc part (String.◌∷◌ c String.[]) s
          ∙ ap (λ r. part ⊕ r) (cons-append c String.[] s ∙ ap (String.◌∷◌ c) (nil-append s))))

join_rest-snoc :
    (sep acc last : String) (vs : List String)
    → join_rest sep acc (vs ++ last ∷ []) ≡ join_rest sep acc vs ⊕ (sep ⊕ last)
unfolding join_rest
join_rest-snoc sep acc last [] = refl
join_rest-snoc sep acc last (v ∷ vs) = join_rest-snoc sep (acc ⊕ sep ⊕ v) last vs

keep-append {ℓ} :
    {A : Type ℓ} (p : A → Bool) (xs ys : List A) → keep p (xs ++ ys) ≡ keep p xs ++ keep p ys
keep-append p [] ys = refl
keep-append p (x ∷ xs) ys = elim (Bool-cases (p x)) [
  | inl kept ↦ rw kept (ap (λ r. x ∷ r) (keep-append p xs ys))
  | inr dropped ↦ rw dropped (keep-append p xs ys)
]

-- An address as a proxy appends it: not empty, without commas, and with no white space around.
pub record IsAddress (t : String) : Type 0 where
  pub no_comma : HasNo b',' t
  pub trimmed : trim_js t ≡ t
  pub filled : t ≢ ""

trim_js-space : (t : String) → trim_js (" " ⊕ t) ≡ trim_js t
unfolding trim_js
trim_js-space t = rw (cons-append, nil-append)

split_from-comma :
    (t a : String)
    → HasNo b',' a
    → split_from b',' "" (t ⊕ (", " ⊕ a)) ≡ split_from b',' "" t ++ (" " ⊕ a) ∷ []
split_from-comma t a h =
    ap (λ r. split_from b',' "" (t ⊕ r)) (cons-append "," " " a)
    ∙ split_from-append b',' "" t (" " ⊕ a) "," refl
    ∙ ap (λ r. split_from b',' "" t ++ r)
        (split_from-HasNo b',' "" (" " ⊕ a) (rw (cons-append, nil-append) (refl, h))
          ∙ ap (λ r. r ∷ []) (nil-append (" " ⊕ a)))

keep-address : (a : String) → IsAddress a → keep non_empty (trim_js (" " ⊕ a) ∷ []) ≡ a ∷ []
keep-address a h = rw (trim_js-space, h.trimmed) (ground (arith, h.filled, eq_iff a ""))

-- An address appended to the header is appended to the chain.
chain-append_one :
    (v : String) (vs : List String) (a : String)
    → IsAddress a
    → chain ((v ∷ vs) ++ a ∷ []) ≡ chain (v ∷ vs) ++ a ∷ []
unfolding chain split join
chain-append_one v vs a h =
    rw
      (
        join_rest-snoc ", " v a vs,
        split_from-comma (join_rest ", " v vs) a h.no_comma,
        map-append,
        keep-append,
      )
      (ap (λ r. keep non_empty (map trim_js (split_from b',' "" (join_rest ", " v vs))) ++ r)
        (keep-address a h))

chain-append :
    (v : String) (vs proxies : List String)
    → All IsAddress proxies
    → chain ((v ∷ vs) ++ proxies) ≡ chain (v ∷ vs) ++ proxies
chain-append v vs [] h = rw (append-nil_list, append-nil_list)
chain-append v vs (a ∷ proxies) (ha, h) =
    ap chain (sym (append_assoc_list (v ∷ vs) (a ∷ []) proxies))
    ∙ chain-append v (vs ++ a ∷ []) proxies h
    ∙ ap (λ r. r ++ proxies) (chain-append_one v vs a ha)
    ∙ append_assoc_list (chain (v ∷ vs)) (a ∷ []) proxies

get_elem?-middle {ℓ} :
    {A : Type ℓ} (xs ys : List A) (x : A)
    → get_elem? (xs ++ x ∷ ys) (length xs + suc (length ys) - suc (length ys)) ≡ some x
get_elem?-middle xs ys x =
    let at : length xs + suc (length ys) - suc (length ys) ≡ length xs + 0 = omega arith in
    rw at (get_elem?-append_right xs (x ∷ ys) 0)

count_sign-le : (s : String) → count_sign s ≤ max_int64
count_sign-le String.[] = omega arith
count_sign-le (String.◌∷◌ c s) = ground arith

-- A count that the chain does not reach selects the socket's address.
pub resolve_short :
    (values : List String) (remote : String) (n : ℕ)
    → length (chain values) < n
    → resolve values remote (pos n) ≡ socket remote
unfolding resolve
resolve_short values remote n h = ground arith

-- The number of hops never passes the largest `int64`.
pub count-le : (value : String) → count value ≤ max_int64
unfolding count
count-le value = count_sign-le (trim_js value)

-- With `n` trusted proxies, each of which appended the address that it saw, the resolved address is
-- the one that the outermost of them saw, whatever the client sent in the header and whatever the
-- socket's address is.
pub resolve_trusted :
    (v : String) (vs proxies : List String) (seen remote : String)
    → IsAddress seen
    → All IsAddress proxies
    → resolve ((v ∷ vs) ++ seen ∷ proxies) remote (pos (suc (length proxies))) ≡ seen
unfolding resolve
resolve_trusted v vs proxies seen remote ha h =
    rw (chain-append v vs (seen ∷ proxies) (ha, h), length-append {0})
      (ground (arith, get_elem?-middle (chain (v ∷ vs)) proxies seen))
