-- ===== src/Base/Exec.antt =====
-- Steps that read and write a state and may stop early: the Go idiom `if err != nil { return … }`.
-- What was written before an early return stays written, so the state comes back on both ends.
use mathlib.Core.Path.{◌≡◌, refl}

pub data Result (E A : Type 0) : Type 0 where
  ok : A → Result E A
  err : E → Result E A

abbrev pub Exec : Type 0 → Type 0 → Type 0 → Type 0
Exec W E A = W → Result E A × W

-- The same without a state.
infixl 10 ◌then_on◌
abbrev pub ◌then_on◌ : {E A B : Type 0} → Result E A → (A → Result E B) → Result E B
ok x then_on f = f x
err e then_on f = err e

module _ {W E A : Type 0} where
  abbrev pub pure : A → Exec W E A
  pure a w = (ok a, w)

  abbrev pub fail : E → Exec W E A
  fail e w = (err e, w)

  abbrev pub lift : Result E A → Exec W E A
  lift r w = (r, w)

module _ {W E A B : Type 0} where
  abbrev pub continue : Result E A → (A → Exec W E B) → Exec W E B
  continue (ok a) f w = f a w
  continue (err e) f w = (err e, w)

  infixl 10 ◌>>=◌ ◌>>◌
  abbrev pub ◌>>=◌ : Exec W E A → (A → Exec W E B) → Exec W E B
  ◌>>=◌ m f w = let (r, w') = m w in continue r f w'

  abbrev pub ◌>>◌ : Exec W E A → Exec W E B → Exec W E B
  m >> k = m >>= λ _. k

module _ {E F A : Type 0} where
  abbrev relabel : (E → F) → Result E A → Result F A
  relabel f (ok x) = ok x
  relabel f (err e) = err (f e)

module _ {W E F A : Type 0} where
  -- A call whose error is handled where it is made.
  abbrev pub attempt : Exec W E A → Exec W F (Result E A)
  attempt m w = let (r, w') = m w in (ok r, w')

  -- A call whose error is turned into another.
  abbrev pub or_else : (E → F) → Exec W E A → Exec W F A
  or_else f m w = let (r, w') = m w in (relabel f r, w')

-- A run that returned a value: its parts, for proofs in which the parts stay shut.
module _ {W E A B : Type 0} where
  continue-eq-ok :
      (r : Result E A) (f : A → Exec W E B) (w : W) {b : B}
      → (continue r f w).0 ≡ ok b
      → (x : A) × (r ≡ ok x) × ((f x w).0 ≡ ok b)
  continue-eq-ok (ok x) f w h = (x, refl, h)
  continue-eq-ok (err e) f w h = cc

  pub >>=-eq-ok :
      (m : Exec W E A) (f : A → Exec W E B) (w : W) {b : B}
      → ((m >>= f) w).0 ≡ ok b
      → (x : A) × ((m w).0 ≡ ok x) × ((f x (m w).1).0 ≡ ok b)
  >>=-eq-ok m f w h = continue-eq-ok (m w).0 f (m w).1 h

  pub >>-eq-ok :
      (m : Exec W E A) (k : Exec W E B) (w : W) {b : B}
      → ((m >> k) w).0 ≡ ok b
      → (k (m w).1).0 ≡ ok b
  >>-eq-ok m k w h = let (x, ran, later) = >>=-eq-ok m (λ x. k) w h in later

module _ {E F A : Type 0} where
  relabel-eq-ok : (f : E → F) (r : Result E A) {x : A} → relabel f r ≡ ok x → r ≡ ok x
  relabel-eq-ok f (ok y) h = cc
  relabel-eq-ok f (err e) h = cc

module _ {W E F A : Type 0} where
  pub or_else-eq-ok :
      (f : E → F) (m : Exec W E A) (w : W) {x : A} → (or_else f m w).0 ≡ ok x → (m w).0 ≡ ok x
  or_else-eq-ok f m w h = relabel-eq-ok f (m w).0 h

-- What follows a step that returned a value.
module _ {W E A B : Type 0} where
  continue_on :
      (r : Result E A) (f : A → Exec W E B) (w : W) {x : A} → r ≡ ok x → continue r f w ≡ f x w
  continue_on (ok y) f w h = cc
  continue_on (err e) f w h = cc

  pub >>=_on :
      (m : Exec W E A) (f : A → Exec W E B) (w : W) {x : A}
      → (m w).0 ≡ ok x
      → (m >>= f) w ≡ f x (m w).1
  >>=_on m f w h = continue_on (m w).0 f (m w).1 h

-- A run that stopped early.
module _ {W E A B : Type 0} where
  continue-eq-err :
      (r : Result E A) (f : A → Exec W E B) (w : W) {e : E} → r ≡ err e → (continue r f w).0 ≡ err e
  continue-eq-err (ok x) f w h = cc
  continue-eq-err (err d) f w h = cc

  pub >>=-eq-err :
      (m : Exec W E A) (f : A → Exec W E B) (w : W) {e : E}
      → (m w).0 ≡ err e
      → ((m >>= f) w).0 ≡ err e
  >>=-eq-err m f w h = continue-eq-err (m w).0 f (m w).1 h

module _ {E F A : Type 0} where
  relabel-eq-err : (f : E → F) (r : Result E A) {e : E} → r ≡ err e → relabel f r ≡ err (f e)
  relabel-eq-err f (ok y) h = cc
  relabel-eq-err f (err d) h = cc

  relabel-err_inv : (f : E → F) (r : Result E A) {e : F} → relabel f r ≡ err e → (d : E) × (e ≡ f d)
  relabel-err_inv f (ok y) h = cc
  relabel-err_inv f (err d) h = (d, cc)

module _ {W E F A : Type 0} where
  pub or_else-eq-err :
      (f : E → F) (m : Exec W E A) (w : W) {e : E} → (m w).0 ≡ err e → (or_else f m w).0 ≡ err (f e)
  or_else-eq-err f m w h = relabel-eq-err f (m w).0 h

  pub or_else-err_inv :
      (f : E → F) (m : Exec W E A) (w : W) {e : F} → (or_else f m w).0 ≡ err e → (d : E) × (e ≡ f d)
  or_else-err_inv f m w h = relabel-err_inv f (m w).0 h

-- How a run may end: early, or with its second part.
module _ {W E A B : Type 0} (P : Result E B → Type 0) where
  continue_ends :
      (r : Result E A) (f : A → Exec W E B) (w : W)
      → ((e : E) → r ≡ err e → P (err e))
      → ((x : A) (v : W) → P (f x v).0)
      → P (continue r f w).0
  continue_ends (ok x) f w early late = late x w
  continue_ends (err e) f w early late = early e refl

  pub >>=_ends :
      (m : Exec W E A) (f : A → Exec W E B) (w : W)
      → ((e : E) → (m w).0 ≡ err e → P (err e))
      → ((x : A) (v : W) → P (f x v).0)
      → P ((m >>= f) w).0
  >>=_ends m f w early late = continue_ends (m w).0 f (m w).1 early late

pub ok-injective : {E A : Type 0} {x y : A} → ◌≡◌ {A = Result E A} (ok x) (ok y) → x ≡ y
ok-injective h = cc

pub then_on-eq-ok :
    {E A B : Type 0} (r : Result E A) (f : A → Result E B) {y : B}
    → r then_on f ≡ ok y
    → (x : A) × (r ≡ ok x) × (f x ≡ ok y)
then_on-eq-ok (ok x) f h = (x, refl, h)
then_on-eq-ok (err e) f h = cc
