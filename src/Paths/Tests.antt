-- ===== src/Paths/Tests.antt =====
-- An instance of the hypothesis on parents, where every path but the root has the root for its only parent.
use fathomline.Prelude.{true, List, [], ◌∷◌, ◌==◌, ◌≡◌, arith, if◌then◌else◌, Bool-cases, inl, inr}
use fathomline.Prelude.Json.{Text, Text_eq, codes}
use fathomline.Paths.{Places}
use fathomline.Paths.Scope.{AreTransitive}

abbrev places : Places
places = record { normpath = λ t. t; exists = λ t. true; is_dir = λ t. true; is_file = λ t. true }

abbrev flat : Text → List Text
flat t = if t == codes "/" then [] else codes "/" ∷ []

flat-AreTransitive : AreTransitive places flat
flat-AreTransitive a b c h k = elim (Bool-cases (a == codes "/")) [
  | inl e ↦ absurd (ground (arith, e, h))
  | inr e ↦
      let root : b ≡ codes "/" = ground (arith, e, h, Text_eq.beq_iff b (codes "/")) in
      absurd (ground (arith, k, root, Text_eq.beq_iff b (codes "/")))
]
