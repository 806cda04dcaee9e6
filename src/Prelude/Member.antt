-- ===== src/Prelude/Member.antt =====
-- Python's `in` over a list or a set held as a list.
use mathlib.Core.Path.{◌≡◌, refl}
use mathlib.Core.Bool.{Bool, true, false, ◌||◌}
use mathlib.Core.List.{List, [], ◌∷◌, ◌++◌}
use native.Mathlib.Omega.{arith}
use fathomline.Prelude.Tests.{Eq, ◌==◌, ==_refl}

module _ {ℓ} {A : Type ℓ} ⦃e : Eq A⦄ where
  abbrev pub member : A → List A → Bool
  member a [] = false
  member a (x ∷ xs) = a == x || member a xs

  pub member-append : (a : A) (xs ys : List A) → member a (xs ++ ys) ≡ (member a xs || member a ys)
  member-append a [] ys = refl
  member-append a (x ∷ xs) ys = ground (arith, member-append a xs ys)

  pub member-head : (a : A) (xs : List A) → member a (a ∷ xs) ≡ true
  member-head a xs = ground (arith, ==_refl a)
