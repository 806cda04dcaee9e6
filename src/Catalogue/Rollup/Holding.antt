-- ===== src/Catalogue/Rollup/Holding.antt =====
-- Which directories hold a path, by the text of the two alone, and that `_ancestor_dirs` of core/rollup.py
-- names exactly these.
use mathlib.Core.List.{append_assoc}
use fathomline.Prelude.{
  suc, ◌≤◌, Bool, true, false, not, ◌&&◌, [], ◌∷◌, ◌++◌, length, length-append, member, ◌≡◌, ◌↔◌,
  refl, arith, ap, sym, ◌∙◌, Bool-cases, inl, inr, ◌==◌, if◌then◌else◌, ℕ_eq, subst,
}
use fathomline.Prelude.Json.{Text, Text_eq}
use fathomline.Prelude.Path.{slash, rstrip, starts_with}
use fathomline.Catalogue.Rollup.{ancestor_dirs, rel_to}
use fathomline.Catalogue.Rollup.Ancestors.{CutAt, Beneath, ancestor_dirs-CutAt}
use fathomline.Catalogue.Rollup.Distinct.{IsMount}
use fathomline.Catalogue.Rollup.Tidy.{
  IsTidy, append_cancel, rel_to-tidy, starts_with-append, starts_with-rest,
}

-- Whether the entry of a path counts for a directory: for the mount point every entry but its own, be
-- its path beneath the mount point or not; for another directory, those whose path goes on
-- after it with a slash, if the directory itself lies beneath the mount point.
abbrev pub holds : Text → Text → Text → Bool
holds mount d path =
    if d == mount
    then not (path == mount)
    else starts_with (rstrip slash mount ++ (slash ∷ [])) d && starts_with (d ++ (slash ∷ [])) path

same_bool : (a b : Bool) → (a ≡ true → b ≡ true) → (b ≡ true → a ≡ true) → a ≡ b
same_bool true b f g = sym (f refl)
same_bool false true f g = g refl
same_bool false false f g = refl

starts_with_at : (p u t : Text) → t ≡ p ++ u → starts_with p t ≡ true
starts_with_at p u t e = rw e (starts_with-append p u)

-- A directory below the mount point that the path goes through.
cut_holds :
    (base rel path d : Text)
    → path ≡ base ++ (slash ∷ rel)
    → CutAt base [] rel d
    → (starts_with (base ++ (slash ∷ [])) d && starts_with (d ++ (slash ∷ [])) path) ≡ true
cut_holds base rel path d p c =
    let below =
      starts_with_at (base ++ (slash ∷ [])) c.before d
        (c.named ∙ sym (append_assoc base (slash ∷ []) c.before)) in
    let goes_on : path ≡ (d ++ (slash ∷ [])) ++ c.after =
      p
      ∙ ap (λ r. base ++ (slash ∷ r)) c.cuts
      ∙ sym (append_assoc base (slash ∷ c.before) (slash ∷ c.after))
      ∙ ap (λ x. x ++ (slash ∷ c.after)) (sym c.named)
      ∙ sym (append_assoc d (slash ∷ []) c.after) in
    ground (arith, below, starts_with_at (d ++ (slash ∷ [])) c.after path goes_on)

holds_cut :
    (base rel path d : Text)
    → path ≡ base ++ (slash ∷ rel)
    → starts_with (base ++ (slash ∷ [])) d ≡ true
    → starts_with (d ++ (slash ∷ [])) path ≡ true
    → CutAt base [] rel d
holds_cut base rel path d p below on =
    let (x, dx) = starts_with-rest (base ++ (slash ∷ [])) d below in
    let (y, py) = starts_with-rest (d ++ (slash ∷ [])) path on in
    let named : d ≡ base ++ (slash ∷ x) = dx ∙ append_assoc base (slash ∷ []) x in
    let whole : base ++ (slash ∷ rel) ≡ base ++ (slash ∷ (x ++ (slash ∷ y))) =
      sym p
      ∙ py
      ∙ append_assoc d (slash ∷ []) y
      ∙ ap (λ z. z ++ (slash ∷ y)) named
      ∙ append_assoc base (slash ∷ x) (slash ∷ y) in
    let tails : slash ∷ rel ≡ slash ∷ (x ++ (slash ∷ y)) = append_cancel base _ _ whole in
    record { before = x; after = y; cuts = cc; named = named }

-- What goes on after a directory below the mount point is longer than the mount point, and beneath it.
below_under :
    (base d path : Text)
    → starts_with (base ++ (slash ∷ [])) d ≡ true
    → starts_with (d ++ (slash ∷ [])) path ≡ true
    → (starts_with (base ++ (slash ∷ [])) path ≡ true) × (suc (suc (length base)) ≤ length path)
below_under base d path below on =
    let (x, dx) = starts_with-rest (base ++ (slash ∷ [])) d below in
    let (y, py) = starts_with-rest (d ++ (slash ∷ [])) path on in
    (
      starts_with_at (base ++ (slash ∷ [])) (x ++ (slash ∷ y)) path (
          py
          ∙ append_assoc d (slash ∷ []) y
          ∙ ap (λ z. z ++ (slash ∷ y)) dx
          ∙ append_assoc (base ++ (slash ∷ [])) x (slash ∷ y)),
      omega (
        arith,
        ap length dx,
        ap length py,
        length-append (base ++ (slash ∷ [])) x,
        length-append base (slash ∷ []),
        length-append (d ++ (slash ∷ [])) y,
        length-append d (slash ∷ []),
      ),
    )

module _ (mount path d : Text) where
  -- The directory lies below the mount point, and the path goes on after it.
  abbrev goes_through : Bool
  goes_through =
      starts_with (rstrip slash mount ++ (slash ∷ [])) d && starts_with (d ++ (slash ∷ [])) path

  not_itself : IsMount mount → (path == mount) ≡ true → goes_through ≡ false
  not_itself h itself = elim (Bool-cases goes_through) [
    | inr stays ↦ stays
    | inl goes ↦
        let same : length path ≡ length mount = ap length ((Text_eq.beq_iff path mount).0 itself) in
        let far =
          (below_under (rstrip slash mount) d path (ground (arith, goes))
            (ground (arith, goes))).1 in
        absurd (omega (arith, far, same, h))
  ]

  not_elsewhere :
      starts_with (rstrip slash mount ++ (slash ∷ [])) path ≡ false → goes_through ≡ false
  not_elsewhere elsewhere = elim (Bool-cases goes_through) [
    | inr stays ↦ stays
    | inl goes ↦
        let under =
          (below_under (rstrip slash mount) d path (ground (arith, goes))
            (ground (arith, goes))).0 in
        absurd (ground (arith, under, elsewhere))
  ]

  at_mount :
      IsMount mount
      → (path == mount) ≡ true
      → member d (ancestor_dirs path mount) ≡ holds mount d path
  unfolding ancestor_dirs
  at_mount h itself = elim (Bool-cases (d == mount)) [
    | inl e ↦ rw (itself, e) refl
    | inr e ↦ rw (itself, e, not_itself h itself) refl
  ]

  outside :
      (path == mount) ≡ false
      → starts_with (rstrip slash mount ++ (slash ∷ [])) path ≡ false
      → member d (ancestor_dirs path mount) ≡ holds mount d path
  unfolding ancestor_dirs
  outside apart elsewhere = elim (Bool-cases (d == mount)) [
    | inl e ↦ rw (apart, elsewhere, e) refl
    | inr e ↦ rw (apart, elsewhere, e, not_elsewhere elsewhere) refl
  ]

  through_cut :
      (rel : Text)
      → rel_to mount path ≡ rel
      → path ≡ rstrip slash mount ++ (slash ∷ rel)
      → CutAt (rstrip slash mount) [] (rel_to mount path) d ↔ (goes_through ≡ true)
  through_cut rel same p = rw same (
    cut_holds (rstrip slash mount) rel path d p,
    λ g. holds_cut (rstrip slash mount) rel path d p (ground (arith, g)) (ground (arith, g)),
  )

  under_mount :
      IsMount mount
      → IsTidy mount path
      → Beneath mount path
      → member d (ancestor_dirs path mount) ≡ holds mount d path
  under_mount h tidy b =
      let (rel, p, bare) = tidy b.1 in
      let same : rel_to mount path ≡ rel =
        subst (λ x. rel_to mount x ≡ rel) (sym p) (rel_to-tidy mount rel h bare) in
      let cut = through_cut rel same p in
      let named = ancestor_dirs-CutAt path mount d b in
      elim (Bool-cases (d == mount)) [
        | inl e ↦ rw (e, b.0) (named.1 (inl ((Text_eq.beq_iff d mount).0 e)))
        | inr e ↦ rw e (
            same_bool (member d (ancestor_dirs path mount)) goes_through
              (λ m. elim (named.0 m) [
                | inl at ↦ absurd (ground (arith, Text_eq.beq_iff d mount, at, e))
                | inr c ↦ cut.0 c
              ])
              (λ g. named.1 (inr (cut.1 g))))
      ]

  -- For a tidy path and a mount point that ends in at most one slash, the directories that
  -- `_ancestor_dirs` names are those that hold the path.
  pub ancestor_dirs-holds :
      IsMount mount → IsTidy mount path → member d (ancestor_dirs path mount) ≡ holds mount d path
  ancestor_dirs-holds h tidy = elim (Bool-cases (path == mount)) [
    | inl itself ↦ at_mount h itself
    | inr apart ↦ elim (Bool-cases (starts_with (rstrip slash mount ++ (slash ∷ [])) path)) [
      | inl under ↦ under_mount h tidy (apart, under)
      | inr elsewhere ↦ outside apart elsewhere
    ]
  ]
