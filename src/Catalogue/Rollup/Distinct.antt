-- ===== src/Catalogue/Rollup/Distinct.antt =====
-- `_ancestor_dirs` of core/rollup.py names no directory twice.
use fathomline.Prelude.{
  ℕ, suc, ◌+◌, ◌≤◌, ◌<◌, Bool, true, false, not, ◌||◌, List, [], ◌∷◌, ◌++◌, length, length-append,
  All, member, ◌≡◌, refl, arith, ap, Bool-cases, inl, inr, ◌==◌, if◌then◌else◌, ℕ_eq,
}
use fathomline.Prelude.Json.{Text, Text_eq}
use fathomline.Prelude.Path.{slash, split, drop, onto_first, lstrip, starts_with, rstrip, strip}
use fathomline.Catalogue.Rollup.{ancestors_from, ancestor_dirs, rel_to}

abbrev pub Distinct : List Text → Type 0
Distinct [] = Unit
Distinct (x ∷ xs) = (member x xs ≡ false) × Distinct xs

-- A mount point ends in at most one slash.
abbrev pub IsMount : Text → Type 0
IsMount mount = length mount ≤ suc (length (rstrip slash mount))

abbrev Longer : ℕ → List Text → Type 0
Longer n xs = All (λ (x : Text). n ≤ length x) xs

Longer-weaken : (n m : ℕ) (xs : List Text) → n ≤ m → Longer m xs → Longer n xs
Longer-weaken n m [] h l = tt
Longer-weaken n m (x ∷ xs) h l = (omega (arith, l.0), Longer-weaken n m xs h l.1)

Longer-member :
    (n : ℕ) (x : Text) (xs : List Text) → length x < n → Longer n xs → member x xs ≡ false
Longer-member n x [] h l = refl
Longer-member n x (y ∷ xs) h l = elim (Bool-cases (x == y)) [
  | inl e ↦
      let same : length x ≡ length y = ap length ((Text_eq.beq_iff x y).0 e) in
      absurd (omega (arith, l.0))
  | inr e ↦ ground (arith, e, Longer-member n x xs h l.1)
]

ancestors_from-Longer :
    (cur p : Text) (ps : List Text)
    → Longer (length cur + suc (length p)) (ancestors_from cur (p ∷ ps))
unfolding ancestors_from
ancestors_from-Longer cur p [] = tt
ancestors_from-Longer cur p (q ∷ ps) =
    let n = length-append cur (slash ∷ p) in
    (
      omega (arith, n),
      Longer-weaken _ _ _ (omega (arith, n)) (ancestors_from-Longer (cur ++ (slash ∷ p)) q ps),
    )

ancestors_from-Distinct : (cur : Text) (ps : List Text) → Distinct (ancestors_from cur ps)
unfolding ancestors_from
ancestors_from-Distinct cur [] = tt
ancestors_from-Distinct cur (p ∷ []) = tt
ancestors_from-Distinct cur (p ∷ q ∷ ps) = (
  Longer-member (length (cur ++ (slash ∷ p)) + suc (length q)) (cur ++ (slash ∷ p)) _ (omega arith)
      (ancestors_from-Longer (cur ++ (slash ∷ p)) q ps),
  ancestors_from-Distinct (cur ++ (slash ∷ p)) (q ∷ ps),
)

-- What is left of a path does not begin with a slash.
Bare : Text → Type 0
Bare [] = Unit
Bare (b ∷ t) = (b == slash) ≡ false

lstrip-Bare : (t : Text) → Bare (lstrip slash t)
unfolding lstrip Bare
lstrip-Bare [] = tt
lstrip-Bare (b ∷ t) = elim (Bool-cases (b == slash)) [
  | inl e ↦ rw e (lstrip-Bare t)
  | inr e ↦ rw e e
]

mount-apart :
    (mount base rel : Text)
    → length mount ≤ suc (length base)
    → Bare rel
    → member mount (ancestors_from base (split slash rel)) ≡ false
unfolding split ancestors_from Bare
mount-apart mount base [] h bare = refl
mount-apart mount base (b ∷ t) h bare = rw bare (go (split slash t))
  where
    go : (parts : List Text) → member mount (ancestors_from base (onto_first b parts)) ≡ false
    go [] = refl
    go (p ∷ ps) =
        Longer-member (length base + suc (length (b ∷ p))) mount _ (omega arith)
          (ancestors_from-Longer base (b ∷ p) ps)

pub ancestor_dirs-Distinct :
    (path mount : Text) → IsMount mount → Distinct (ancestor_dirs path mount)
unfolding ancestor_dirs strip
ancestor_dirs-Distinct path mount h =
    by_tests (path == mount) (starts_with (rstrip slash mount ++ (slash ∷ [])) path)
  where
    by_tests :
        (same under : Bool)
        → Distinct (
            if same || not under
            then (if same then [] else mount ∷ [])
            else mount ∷ ancestors_from (rstrip slash mount) (split slash (rel_to mount path)))
    by_tests true under = tt
    by_tests false false = (refl, tt)
    by_tests false true = (
      mount-apart mount (rstrip slash mount) (rel_to mount path) h
          (lstrip-Bare (rstrip slash (drop (length mount) path))),
      ancestors_from-Distinct (rstrip slash mount) (split slash (rel_to mount path)),
    )
