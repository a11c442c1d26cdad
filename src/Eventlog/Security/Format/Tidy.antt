-- ===== src/Eventlog/Security/Format/Tidy.antt =====
-- internal/eventlog/security_format.go: the stored detail is tidy and short.
use Prim.Native.Char.{Char, char, code}
use wekango.Base.{
  ℕ, zero, suc, ◌-◌, ◌≤◌, String, Bool, true, false, not, ◌&&◌, ◌≡◌, refl, sym, ap, ◌∙◌, arith, ltb,
  eqb, if◌then◌else◌, Bool-cases, inl, inr,
}
use text.Mathlib.TextEquality.{Char-path}
use text.Mathlib.TextLemmas.{cons-append}
use wekango.Base.Text.{◌⊕◌}
use wekango.Base.Units.{units, take_units, units-take_units, units-append}
use wekango.Bson.{Value, str}
use wekango.Bson.Truth.{summary_null}
use wekango.Eventlog.Summary.{Formats, summary_string}
use wekango.Eventlog.Security.Format.{
  max_security_detail, is_gap, write_blank, clean_from, clean, shorten, sanitize_security_detail,
}

-- No gap but single blanks between other characters. The Boolean tells that a blank, or the start,
-- comes right before.
pub tidy_from : Bool → String → Bool
tidy_from after String.[] = not after
tidy_from after (String.◌∷◌ c s) =
    let inside = tidy_from false s in
    let behind = tidy_from true s in
    if eqb (code c) b' ' then not after && behind else not (is_gap (code c)) && inside

abbrev pub is_tidy : String → Bool
is_tidy String.[] = true
is_tidy (String.◌∷◌ c s) = tidy_from true (String.◌∷◌ c s)

space_gap : is_gap b' ' ≡ true
unfolding is_gap
space_gap = refl

-- A blank is a gap, so what is kept is none.
kept_not_space : (c : ℕ) → is_gap c ≡ false → eqb c b' ' ≡ false
kept_not_space c h = elim (Bool-cases (eqb c b' ')) [
  | inl same ↦
      let equal : c ≡ b' ' = ground arith in
      let gap : is_gap c ≡ true = ap is_gap equal ∙ space_gap in cc
  | inr differ ↦ differ
]

write_blank-tidy :
    (space : Bool) (c : Char) (s : String)
    → is_gap (code c) ≡ false
    → tidy_from false s ≡ true
    → tidy_from false (write_blank space (String.◌∷◌ c s)) ≡ true
unfolding tidy_from
write_blank-tidy true c s kept h = rw (kept_not_space (code c) kept, kept, h) refl
write_blank-tidy false c s kept h = rw (kept_not_space (code c) kept, kept, h) refl

-- What is written after something was written: a tidy rest, its blank before it.
clean_from-tidy : (space : Bool) (s : String) → tidy_from false (clean_from true space s) ≡ true
unfolding clean_from tidy_from
clean_from-tidy space String.[] = refl
clean_from-tidy space (String.◌∷◌ c s) = elim (Bool-cases (is_gap (code c))) [
  | inl gap ↦ rw gap (clean_from-tidy true s)
  | inr kept ↦
      rw kept (write_blank-tidy space c (clean_from true false s) kept (clean_from-tidy false s))
]

-- Whatever the text, what is stored of it has no control character, no blank at an end, and no gap
-- between its other characters than a single blank.
pub is_tidy-clean : (s : String) → is_tidy (clean s) ≡ true
unfolding clean_from tidy_from
is_tidy-clean String.[] = refl
is_tidy-clean (String.◌∷◌ c s) = elim (Bool-cases (is_gap (code c))) [
  | inl gap ↦ rw gap (is_tidy-clean s)
  | inr kept ↦ rw (kept, kept, kept_not_space (code c) kept, clean_from-tidy false s) refl
]

is_gap-true : (c : Char) → eqb (code c) b' ' ≡ true → is_gap (code c) ≡ true
is_gap-true c same = let equal : code c ≡ b' ' = ground arith in ap is_gap equal ∙ space_gap

is_blank_char : (c : Char) → eqb (code c) b' ' ≡ true → c ≡ char b' ' tt
is_blank_char c same = Char-path c (char b' ' tt) (ground arith)

-- The rest of a tidy text, with the blank that is due before it.
clean_from_tidy :
    (after : Bool) (s : String)
    → tidy_from after s ≡ true
    → clean_from true after s ≡ write_blank after s
unfolding clean_from tidy_from
clean_from_tidy true String.[] h = cc
clean_from_tidy false String.[] h = refl
clean_from_tidy true (String.◌∷◌ c s) h = elim (Bool-cases (eqb (code c) b' ')) [
  | inl same ↦ cc (rw same at h)
  | inr other ↦ elim (Bool-cases (is_gap (code c))) [
    | inl gap ↦ cc (rw (gap, other) at h)
    | inr kept ↦ rw (kept, clean_from_tidy false s (rw (kept, other) at h)) refl
  ]
]
clean_from_tidy false (String.◌∷◌ c s) h = elim (Bool-cases (eqb (code c) b' ')) [
  | inl same ↦
      rw (is_gap-true c same, clean_from_tidy true s (rw same at h))
        (ap (λ d. String.◌∷◌ d s) (sym (is_blank_char c same)))
  | inr other ↦ elim (Bool-cases (is_gap (code c))) [
    | inl gap ↦ cc (rw (gap, other) at h)
    | inr kept ↦ rw (kept, clean_from_tidy false s (rw (kept, other) at h)) refl
  ]
]

-- A tidy text passes unchanged.
clean-tidy : (s : String) → is_tidy s ≡ true → clean s ≡ s
unfolding clean_from tidy_from
clean-tidy String.[] h = refl
clean-tidy (String.◌∷◌ c s) h = elim (Bool-cases (eqb (code c) b' ')) [
  | inl same ↦ cc (rw same at h)
  | inr other ↦ elim (Bool-cases (is_gap (code c))) [
    | inl gap ↦ cc (rw (gap, other) at h)
    | inr kept ↦ rw (kept, clean_from_tidy false s (rw (kept, other) at h)) refl
  ]
]

-- Another rest after the first character of a tidy text.
with_rest-tidy :
    (after : Bool) (c : Char) (s x : String)
    → tidy_from after (String.◌∷◌ c s) ≡ true
    → ((b : Bool) → tidy_from b s ≡ true → tidy_from b x ≡ true)
    → tidy_from after (String.◌∷◌ c x) ≡ true
unfolding tidy_from
with_rest-tidy after c s x h swap = ground (arith, swap true, swap false)

-- A tidy text that is cut off anywhere, with an ellipsis after it.
cut-tidy :
    (after : Bool) (n : ℕ) (s : String)
    → tidy_from after s ≡ true
    → tidy_from after (take_units n s ⊕ "…") ≡ true
unfolding take_units tidy_from is_gap
cut-tidy after zero s h = refl
cut-tidy after (suc n) String.[] h = refl
cut-tidy after (suc zero) (String.◌∷◌ c s) h = elim (Bool-cases (ltb (code c) 0x10000)) [
  | inl narrow ↦
      rw (narrow, cons-append c String.[] "…")
        (with_rest-tidy after c s (String.[] ⊕ "…") h (λ b g. refl))
  | inr wide ↦ rw wide refl
]
cut-tidy after (suc (suc n)) (String.◌∷◌ c s) h = elim (Bool-cases (ltb (code c) 0x10000)) [
  | inl narrow ↦
      rw (narrow, cons-append c (take_units (suc n) s) "…")
        (with_rest-tidy after c s (take_units (suc n) s ⊕ "…") h (λ b g. cut-tidy b (suc n) s g))
  | inr wide ↦
      rw (wide, cons-append c (take_units n s) "…")
        (with_rest-tidy after c s (take_units n s ⊕ "…") h (λ b g. cut-tidy b n s g))
]

is_tidy-tidy_from : (s : String) → tidy_from true s ≡ true → is_tidy s ≡ true
is_tidy-tidy_from String.[] h = refl
is_tidy-tidy_from (String.◌∷◌ c s) h = h

shorten-tidy : (s : String) → is_tidy s ≡ true → is_tidy (shorten s) ≡ true
unfolding units
shorten-tidy String.[] h = refl
shorten-tidy (String.◌∷◌ c s) h =
    elim (Bool-cases (ltb max_security_detail (units (String.◌∷◌ c s)))) [
      | inl long ↦ rw long (
          is_tidy-tidy_from (take_units (max_security_detail - 1) (String.◌∷◌ c s) ⊕ "…")
            (cut-tidy true (max_security_detail - 1) (String.◌∷◌ c s) h))
      | inr short ↦ rw short h
    ]

units-shorten : (s : String) → units (shorten s) ≤ max_security_detail
unfolding units
units-shorten s = elim (Bool-cases (ltb max_security_detail (units s))) [
  | inl long ↦ rw long (
      omega (
        arith,
        units-append (take_units (max_security_detail - 1) s) "…",
        units-take_units (max_security_detail - 1) s,
      ))
  | inr short ↦ rw short (ground arith)
]

shorten-short : (s : String) → units s ≤ max_security_detail → shorten s ≡ s
shorten-short s short =
    let fits : ltb max_security_detail (units s) ≡ false = ground arith in rw fits refl

-- What is stored of a detail: tidy, at most 500 code units long, and what it would be stored as again.
pub record IsStorable (f : Formats) (s : String) : Type 0 where
  pub tidy : is_tidy s ≡ true
  pub short : units s ≤ max_security_detail
  pub stable : sanitize_security_detail f (str s) ≡ s

stable_detail :
    (f : Formats) (s : String)
    → is_tidy s ≡ true
    → units s ≤ max_security_detail
    → sanitize_security_detail f (str s) ≡ s
unfolding sanitize_security_detail summary_null summary_string
stable_detail f s tidy short = ap shorten (clean-tidy s tidy) ∙ shorten-short s short

storable :
    (f : Formats) (s : String) → is_tidy s ≡ true → units s ≤ max_security_detail → IsStorable f s
storable f s tidy short = record {
  tidy = tidy;
  short = short;
  stable = stable_detail f s tidy short;
}

-- Whatever value a detail has, what is stored of it has no control character, no blank at an end and
-- no gap but single blanks, is at most 500 UTF-16 units long, and is left as it is when it is
-- stored again.
pub sanitize_security_detail-IsStorable :
    (f : Formats) (v : Value) → IsStorable f (sanitize_security_detail f v)
unfolding sanitize_security_detail units
sanitize_security_detail-IsStorable f v = elim (Bool-cases (summary_null v)) [
  | inl none_given ↦ rw none_given (storable f "" refl (omega arith))
  | inr given ↦
      let s = clean (summary_string f v) in
      rw given (
        storable f (shorten s) (shorten-tidy s (is_tidy-clean (summary_string f v)))
          (units-shorten s))
]
