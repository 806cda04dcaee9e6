-- ===== src/Prelude/Effect.antt =====
-- Python code that may raise and that changes the world around it: what was changed before the
-- exception stays changed.
use mathlib.Core.Path.{◌≡◌, refl}
use mathlib.Core.Option.{Option, none, some}

pub data Outcome {ℓ} (E : Type ℓ) (A : Type ℓ) : Type ℓ where
  ok : A → Outcome E A
  raised : E → Outcome E A

abbrev pub Effect : Type 0 → Type 0 → Type 0 → Type 0
Effect W E A = W → Outcome E A × W

module _ {W E A : Type 0} where
  abbrev pub pure : A → Effect W E A
  pure a w = (ok a, w)

  abbrev pub raise : E → Effect W E A
  raise e w = (raised e, w)

  -- `raise` for a value that is not there.
  abbrev pub demand : E → Option A → Effect W E A
  demand e none w = (raised e, w)
  demand e (some a) w = (ok a, w)

  abbrev pub of_outcome : Outcome E A → Effect W E A
  of_outcome r w = (r, w)

  abbrev pub asks : (W → A) → Effect W E A
  asks f w = (ok (f w), w)

module _ {W E A B : Type 0} where
  abbrev pub and_then : Outcome E A → (A → Effect W E B) → W → Outcome E B × W
  and_then (ok a) f w = f a w
  and_then (raised e) f w = (raised e, w)

  infixl 10 ◌>>=◌ ◌>>◌
  abbrev pub ◌>>=◌ : Effect W E A → (A → Effect W E B) → Effect W E B
  ◌>>=◌ m f w = let (r, w') = m w in and_then r f w'

  abbrev pub ◌>>◌ : Effect W E A → Effect W E B → Effect W E B
  m >> n = m >>= λ _. n

-- What holds of the world before an action holds after it, whether it returns or raises.
abbrev pub Keeps : {W E A : Type 0} → (W → Type 0) → Effect W E A → Type 0
Keeps {W} P m = (w : W) → P w → P (m w).1

module _ {W E A B : Type 0} (P : W → Type 0) where
  pub Keeps-and_then :
      (r : Outcome E A) (f : A → Effect W E B) → ((a : A) → Keeps P (f a)) → Keeps P (and_then r f)
  Keeps-and_then (ok a) f kf w h = kf a w h
  Keeps-and_then (raised e) f kf w h = h

  pub Keeps-bind :
      (m : Effect W E A) (f : A → Effect W E B)
      → Keeps P m
      → ((a : A) → Keeps P (f a))
      → Keeps P (m >>= f)
  Keeps-bind m f km kf w h = Keeps-and_then (m w).0 f kf (m w).1 (km w h)

module _ {W E A B : Type 0} where
  and_then-eq-ok :
      (r : Outcome E A) (f : A → Effect W E B) (w₁ : W) {b : B} {w' : W}
      → and_then r f w₁ ≡ (ok b, w')
      → (a : A) × (r ≡ ok a) × (f a w₁ ≡ (ok b, w'))
  and_then-eq-ok (ok a) f w₁ h = (a, refl, h)
  and_then-eq-ok (raised e) f w₁ h = cc

  -- A block that returns has run its first part and then the rest.
  pub >>=-eq-ok :
      (m : Effect W E A) (f : A → Effect W E B) (w : W) {b : B} {w' : W}
      → (m >>= f) w ≡ (ok b, w')
      → (a : A) × (w₁ : W) × (m w ≡ (ok a, w₁)) × (f a w₁ ≡ (ok b, w'))
  >>=-eq-ok m f w h =
      let (a, e, rest) = and_then-eq-ok (m w).0 f (m w).1 h in
      (a, (m w).1, λ i. (e i, (m w).1), rest)

  pub >>=-ok :
      (m : Effect W E A) (f : A → Effect W E B) (w : W) {a : A} {w₁ : W}
      → m w ≡ (ok a, w₁)
      → (m >>= f) w ≡ f a w₁
  >>=-ok m f w h = λ i. and_then (h i).0 f (h i).1

  pub >>=-raised :
      (m : Effect W E A) (f : A → Effect W E B) (w : W) {e : E} {w₁ : W}
      → m w ≡ (raised e, w₁)
      → (m >>= f) w ≡ (raised e, w₁)
  >>=-raised m f w h = λ i. and_then (h i).0 f (h i).1

-- The same without a world.
abbrev pub bind {ℓ} : {E A B : Type ℓ} → Outcome E A → (A → Outcome E B) → Outcome E B
bind (ok a) f = f a
bind (raised e) f = raised e

pub bind-eq-ok {ℓ} :
    {E A B : Type ℓ} (r : Outcome E A) (f : A → Outcome E B) {b : B}
    → bind r f ≡ ok b
    → (a : A) × (r ≡ ok a) × (f a ≡ ok b)
bind-eq-ok (ok a) f h = (a, refl, h)
bind-eq-ok (raised e) f h = cc
