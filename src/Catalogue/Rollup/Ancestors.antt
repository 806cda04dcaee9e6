-- ===== src/Catalogue/Rollup/Ancestors.antt =====
-- Which directories `_ancestor_dirs` of core/rollup.py names, and that it names none twice.
use mathlib.Core.List.{append_assoc, append-nil}
use fathomline.Prelude.{
  ℕ, true, false, List, [], ◌∷◌, ◌++◌, member, ◌≡◌, refl, arith, ap, sym, ◌∙◌, subst, ap₂,
  Bool-cases, inl, inr, ◌⊎◌, ◌↔◌, ◌==◌, ℕ_eq,
}
use fathomline.Prelude.Json.{Text, Text_eq}
use fathomline.Prelude.Path.{slash, split, onto_first, starts_with, rstrip}
use fathomline.Catalogue.Rollup.{ancestors_from, ancestor_dirs, rel_to}

-- The parts of a path whose first part has begun with `pre`.
abbrev begun : Text → List Text → List Text
begun pre [] = pre ∷ []
begun pre (part ∷ parts) = (pre ++ part) ∷ parts

begun-onto_first :
    (pre : Text) (b : ℕ) (parts : List Text)
    → begun pre (onto_first b parts) ≡ begun (pre ++ b ∷ []) parts
begun-onto_first pre b [] = refl
begun-onto_first pre b (part ∷ parts) = ap (λ p. p ∷ parts) (sym (append_assoc pre (b ∷ []) part))

-- `d` is `cur`, a slash, and `pre` with what stands before some slash of `rel`.
pub record CutAt (cur pre rel d : Text) : Type 0 where
  pub before : Text
  pub after : Text
  pub cuts : rel ≡ before ++ (slash ∷ after)
  pub named : d ≡ cur ++ (slash ∷ (pre ++ before))

split-cons : (t : Text) → (p : Text) × (ps : List Text) × (split slash t ≡ p ∷ ps)
unfolding split
split-cons [] = ([], [], refl)
split-cons (b ∷ t) = elim (Bool-cases (b == slash)) [
  | inl e ↦ ([], split slash t, rw e refl)
  | inr e ↦ let (p, ps, q) = split-cons t in (b ∷ p, ps, rw (e, q) refl)
]

-- The directories of a path that is read up to `t`.
abbrev named_from : Text → Text → Text → List Text
named_from cur pre t = ancestors_from cur (begun pre (split slash t))

named_from-slash :
    (cur pre t : Text)
    → named_from cur pre (slash ∷ t)
      ≡ (cur ++ (slash ∷ pre)) ∷ named_from (cur ++ (slash ∷ pre)) [] t
unfolding ancestors_from split
named_from-slash cur pre t = let (p, ps, e) = split-cons t in rw (e, append-nil pre) refl

named_from-other :
    (cur pre : Text) (b : ℕ) (t : Text)
    → (b == slash) ≡ false
    → named_from cur pre (b ∷ t) ≡ named_from cur (pre ++ b ∷ []) t
unfolding split
named_from-other cur pre b t e =
    rw e (ap (ancestors_from cur) (begun-onto_first pre b (split slash t)))

cut_of : (cur pre t d : Text) → member d (named_from cur pre t) ≡ true → CutAt cur pre t d
unfolding ancestors_from split
cut_of cur pre [] d h = cc
cut_of cur pre (b ∷ t) d h = elim (Bool-cases (b == slash)) [
  | inl e ↦
      let at : b ≡ slash = ground (arith, e) in
      let h' : member d ((cur ++ (slash ∷ pre)) ∷ named_from (cur ++ (slash ∷ pre)) [] t) ≡ true =
        subst (λ l. member d l ≡ true)
          (subst
            (λ x.
              named_from cur pre (x ∷ t)
              ≡ (cur ++ (slash ∷ pre)) ∷ named_from (cur ++ (slash ∷ pre)) [] t)
            (sym at) (named_from-slash cur pre t))
          h in
      elim (Bool-cases (d == (cur ++ (slash ∷ pre)))) [
        | inl f ↦ record {
          before = [];
          after = t;
          cuts = ap (λ x. x ∷ t) at;
          named = (Text_eq.beq_iff _ _).0 f ∙ ap (λ p. cur ++ (slash ∷ p)) (sym (append-nil pre));
        }
        | inr f ↦
            let c = cut_of (cur ++ (slash ∷ pre)) [] t d (ground (arith, h', f)) in
            record {
              before = slash ∷ c.before;
              after = c.after;
              cuts = ap₂ ◌∷◌ at c.cuts;
              named = c.named ∙ append_assoc cur (slash ∷ pre) (slash ∷ c.before);
            }
      ]
  | inr e ↦
      let c =
        cut_of cur (pre ++ b ∷ []) t d
          (subst (λ l. member d l ≡ true) (named_from-other cur pre b t e) h) in
      record {
        before = b ∷ c.before;
        after = c.after;
        cuts = ap (λ x. b ∷ x) c.cuts;
        named = c.named ∙ ap (λ p. cur ++ (slash ∷ p)) (append_assoc pre (b ∷ []) c.before);
      }
]

member_of :
    (cur pre t d before after : Text)
    → t ≡ before ++ (slash ∷ after)
    → d ≡ cur ++ (slash ∷ (pre ++ before))
    → member d (named_from cur pre t) ≡ true
member_of cur pre t d [] after q n =
    rw (q, named_from-slash cur pre after)
      (ground (arith, n, append-nil pre, Text_eq.beq_iff d (cur ++ (slash ∷ pre))))
member_of cur pre t d (b ∷ before) after q n = elim (Bool-cases (b == slash)) [
  | inl e ↦
      let at : b ≡ slash = ground (arith, e) in
      rw (q, at, named_from-slash cur pre (before ++ (slash ∷ after)))
        (ground (
          arith,
          member_of (cur ++ (slash ∷ pre)) [] (before ++ (slash ∷ after)) d before after refl (
              n
              ∙ ap (λ x. cur ++ (slash ∷ (pre ++ x ∷ before))) at
              ∙ sym (append_assoc cur (slash ∷ pre) (slash ∷ before))),
        ))
  | inr e ↦
      rw (q, named_from-other cur pre b (before ++ (slash ∷ after)) e)
        (member_of cur (pre ++ b ∷ []) (before ++ (slash ∷ after)) d before after refl
          (n ∙ ap (λ p. cur ++ (slash ∷ p)) (sym (append_assoc pre (b ∷ []) before))))
]

-- The path lies beneath the mount point.
abbrev pub Beneath : Text → Text → Type 0
Beneath mount path =
    ((path == mount) ≡ false) × (starts_with (rstrip slash mount ++ (slash ∷ [])) path ≡ true)

ancestor_dirs-Beneath :
    (path mount : Text)
    → Beneath mount path
    → ancestor_dirs path mount ≡ mount ∷ named_from (rstrip slash mount) [] (rel_to mount path)
unfolding ancestor_dirs
ancestor_dirs-Beneath path mount b =
    let (p, ps, e) = split-cons (rel_to mount path) in rw (b.0, b.1, e) refl

-- For a path beneath the mount point, the directories that its entry counts for are the mount point
-- and, for each slash within the path below it, the mount point without its last slashes, a slash
-- and what stands before that slash.
pub ancestor_dirs-CutAt :
    (path mount d : Text)
    → Beneath mount path
    → (member d (ancestor_dirs path mount) ≡ true)
      ↔ ((d ≡ mount) ⊎ CutAt (rstrip slash mount) [] (rel_to mount path) d)
ancestor_dirs-CutAt path mount d b = rw (ancestor_dirs-Beneath path mount b) (
  λ h. elim (Bool-cases (d == mount)) [
    | inl e ↦ inl ((Text_eq.beq_iff d mount).0 e)
    | inr e ↦ inr (cut_of (rstrip slash mount) [] (rel_to mount path) d (ground (arith, h, e)))
  ],
  λ h. elim h [
    | inl e ↦ ground (arith, Text_eq.beq_iff d mount, e)
    | inr c ↦ ground (
      arith,
      member_of (rstrip slash mount) [] (rel_to mount path) d c.before c.after c.cuts c.named,
    )
  ],
)
