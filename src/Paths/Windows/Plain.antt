-- ===== src/Paths/Windows/Plain.antt =====
-- What a Windows path that security/winpaths.py lets through consists of.
use fathomline.Prelude.{
  ℕ, suc, ◌≤◌, Bool, true, false, not, ◌||◌, List, [], ◌∷◌, ◌++◌, map, any, take, length,
  length-append, if◌then◌else◌, ◌==◌, ℕ_eq, ltb, list_beq, list_beq_iff, member, All, ◌≡◌, ◌≢◌,
  refl, arith, ap, sym, ◌∙◌, subst, Bool-cases, inl, inr,
}
use fathomline.Prelude.Json.{Text, Text_eq}
use fathomline.Prelude.Path.{starts_with, rstrip_any, cons_kept, slash, replace}
use fathomline.Prelude.Effect.{Outcome, ok, raised, bind-eq-ok}
use fathomline.Paths.Windows.{
  NtPath, WindowsPathError, is_forbidden, strippable, is_reserved_component, check_component,
  check_components, components_of, normalise, validate_windows_config_path, no_text,
  safe_windows_path_join, strip_long_path_prefix, folded, within,
}

-- A component that Windows takes for no other name and no device.
pub record IsPlain (c : Text) : Type 0 where
  pub clean : (b : ℕ) → member b c ≡ true → (is_forbidden b ≡ false) × (32 ≤ b) × (b ≢ b':')
  pub not_device : is_reserved_component c ≡ false
  pub ending : (t : Text) (b : ℕ) → c ≡ t ++ b ∷ [] → strippable b ≡ false

any-member : (p : ℕ → Bool) (c : Text) (b : ℕ) → any p c ≡ false → member b c ≡ true → p b ≡ false
any-member p [] b h m = cc
any-member p (x ∷ c) b h m = elim (Bool-cases (b == x)) [
  | inl e ↦ let same : b ≡ x = ground (arith, e) in rw same (ground (arith, h))
  | inr e ↦ any-member p c b (ground (arith, h)) (ground (arith, m, e))
]

length-cons_kept : (s : Bool) (b : ℕ) (t : Text) → length (cons_kept s b t) ≤ suc (length t)
length-cons_kept true b [] = omega arith
length-cons_kept false b [] = omega arith
length-cons_kept s b (c ∷ t) = omega arith

length-rstrip_any : (p : ℕ → Bool) (t : Text) → length (rstrip_any p t) ≤ length t
unfolding rstrip_any
length-rstrip_any p [] = omega arith
length-rstrip_any p (b ∷ t) =
    omega (arith, length-rstrip_any p t, length-cons_kept (p b) b (rstrip_any p t))

rstrip_any-append :
    (p : ℕ → Bool) (t : Text) (b : ℕ) → p b ≡ true → rstrip_any p (t ++ b ∷ []) ≡ rstrip_any p t
unfolding rstrip_any
rstrip_any-append p [] b h = rw h refl
rstrip_any-append p (x ∷ t) b h = rw (rstrip_any-append p t b h) refl

stripped-ending :
    (p : ℕ → Bool) (t : Text) (b : ℕ) → t ++ b ∷ [] ≡ rstrip_any p (t ++ b ∷ []) → p b ≡ false
stripped-ending p t b e = elim (Bool-cases (p b)) [
  | inl h ↦ absurd (
      omega (
        arith,
        ap length (e ∙ rstrip_any-append p t b h),
        length-append t (b ∷ []),
        length-rstrip_any p t,
      ))
  | inr h ↦ h
]

no_text-nil : (t : Text) → no_text t ≡ true → t ≡ []
no_text-nil [] h = refl
no_text-nil (b ∷ t) h = cc

-- A check that did not raise.
past :
    {A : Type 0} (b : Bool) (e : WindowsPathError) (r : Outcome WindowsPathError A) {a : A}
    → (if b then raised e else r) ≡ ok a
    → (b ≡ false) × (r ≡ ok a)
past true e r h = cc
past false e r h = (refl, h)

check_component-IsPlain : (c : Text) {u : Unit {0}} → check_component c ≡ ok u → IsPlain c
unfolding check_component
check_component-IsPlain c h =
    let (chars, h₁) = past (any is_forbidden c || any (λ b. ltb b 32) c) _ _ h in
    let (colon, h₂) = past (member b':' c) _ _ h₁ in
    let (device, h₃) = past (is_reserved_component c) _ _ h₂ in
    let (ends, _) = past (not (c == rstrip_any strippable c)) _ _ h₃ in
    let kept : c ≡ rstrip_any strippable c =
      (Text_eq.beq_iff c (rstrip_any strippable c)).0 (ground (arith, ends)) in
    record {
      clean = λ b m. (
        any-member is_forbidden c b (ground (arith, chars)) m,
        ground (arith, any-member (λ b. ltb b 32) c b (ground (arith, chars)) m),
        λ e. ground (arith, colon, subst (λ x. member x c ≡ true) e m),
      );
      not_device = device;
      ending =
          λ t b e. stripped-ending strippable t b (subst (λ x. x ≡ rstrip_any strippable x) e kept);
    }

check_components-IsPlain :
    (cs : List Text) {u : Unit {0}} → check_components cs ≡ ok u → All IsPlain cs
unfolding check_components
check_components-IsPlain [] h = tt
check_components-IsPlain (c ∷ cs) h =
    let (_, first, rest) = bind-eq-ok (check_component c) (λ _. check_components cs) h in
    (check_component-IsPlain c first, check_components-IsPlain cs rest)

module _ (nt : NtPath) where
  -- What `normalise` returns for a text that it lets through.
  pub record IsNormal (text drive norm : Text) (comps : List Text) : Type 0 where
    pub normal : norm ≡ nt.normpath (strip_long_path_prefix text)
    pub split : (nt.splitdrive norm).0 ≡ drive
    pub of_rest : comps ≡ components_of nt (nt.splitdrive norm).1
    pub rooted : nt.isabs norm ≡ true
    pub has_drive : drive ≢ []
    pub plain : All IsPlain comps

  normalise-IsNormal :
      (text drive norm : Text) (comps : List Text)
      → normalise nt text ≡ ok (drive, norm, comps)
      → IsNormal text drive norm comps
  unfolding normalise
  normalise-IsNormal text drive norm comps h =
      let norm' = nt.normpath (strip_long_path_prefix text) in
      let d = nt.splitdrive norm' in
      let (_, h₁) = past (no_text text) _ _ h in
      let (_, h₂) = past (member 0 text) _ _ h₁ in
      let (rooted, h₃) = past (no_text d.0 || not (nt.isabs norm')) _ _ h₂ in
      let (_, checked, same) = bind-eq-ok (check_components (components_of nt d.1)) _ h₃ in
      let is_norm : norm' ≡ norm = ground (arith, same) in
      let is_drive : d.0 ≡ drive = ground (arith, same) in
      let are_comps : components_of nt d.1 ≡ comps = ground (arith, same) in
      record {
        normal = sym is_norm;
        split = ap (λ n. (nt.splitdrive n).0) (sym is_norm) ∙ is_drive;
        of_rest = sym are_comps ∙ ap (λ n. components_of nt (nt.splitdrive n).1) is_norm;
        rooted = subst (λ n. nt.isabs n ≡ true) is_norm (ground (arith, rooted));
        has_drive = λ e. ground (arith, rooted, is_drive, e);
        plain =
            subst (All IsPlain) are_comps (check_components-IsPlain (components_of nt d.1) checked);
      }

  -- What `validate_windows_config_path` returns is the normal form of the text without its long-path
  -- prefix; it is absolute with a drive or a share, and no component of it has a forbidden or
  -- control character or a stream, names a device, or ends in a dot or a space.
  pub validate_windows_config_path-IsNormal :
      (value norm : Text)
      → validate_windows_config_path nt value ≡ ok norm
      → (drive : Text) × (comps : List Text) × IsNormal value drive norm comps
  unfolding validate_windows_config_path
  validate_windows_config_path-IsNormal value norm h =
      let (n, e, same) = bind-eq-ok (normalise nt value) (λ n. ok n.1) h in
      let is_norm : n.1 ≡ norm = ground (arith, same) in
      (
        n.0,
        n.2,
        subst (λ x. IsNormal value n.0 x n.2) is_norm (normalise-IsNormal value n.0 n.1 n.2 e),
      )

  take_prefix :
      (xs ys : List Text) → take (length xs) ys ≡ xs → (more : List Text) × (ys ≡ xs ++ more)
  take_prefix [] ys h = (ys, refl)
  take_prefix (x ∷ xs) [] h = cc
  take_prefix (x ∷ xs) (y ∷ ys) h =
      let (more, e) = take_prefix xs ys (ground (arith, h)) in (more, ground (arith, h, e))

  -- How a joined path stands to its base.
  pub record IsWithin (base candidate joined : Text) : Type 0 where
    pub base_drive : Text
    pub base_norm : Text
    pub base_comps : List Text
    pub drive : Text
    pub comps : List Text
    pub more : List Text
    pub of_base : IsNormal base base_drive base_norm base_comps
    pub of_joined :
        IsNormal
          (nt.join base_norm (replace slash 92 (strip_long_path_prefix candidate)))
          drive
          joined
          comps
    pub beneath : map nt.casefold comps ≡ map nt.casefold base_comps ++ more
    pub relative : (nt.splitdrive (replace slash 92 (strip_long_path_prefix candidate))).0 ≡ []

  -- A path that is joined under a base has been normalised and checked as the base was, its
  -- components begin with those of the base but for the case of their letters, and the candidate had
  -- no drive of its own.
  pub safe_windows_path_join-IsWithin :
      (base candidate joined : Text)
      → safe_windows_path_join nt base candidate ≡ ok joined
      → IsWithin base candidate joined
  unfolding safe_windows_path_join
  safe_windows_path_join-IsWithin base candidate joined h =
      let (b, eb, h₀) = bind-eq-ok (normalise nt base) _ h in
      let cand = replace slash 92 (strip_long_path_prefix candidate) in
      let (_, h₁) = past (no_text candidate) _ _ h₀ in
      let (_, h₂) = past (member 0 candidate) _ _ h₁ in
      let (rel, h₃) =
        past (not (no_text (nt.splitdrive cand).0) || starts_with (92 ∷ []) cand) _ _ h₂ in
      let (j, ej, h₄) = bind-eq-ok (normalise nt (nt.join b.1 cand)) (within nt b.2) h₃ in
      let (inside, same) =
        past (not (list_beq (take (length (folded nt b.2)) (folded nt j.2)) (folded nt b.2))) _ _
          h₄ in
      let is_joined : j.1 ≡ joined = ground (arith, same) in
      let (more, e) = take_prefix (folded nt b.2) (folded nt j.2) (
        (list_beq_iff (take (length (folded nt b.2)) (folded nt j.2)) (folded nt b.2)).0
          (ground (arith, inside))) in
      record {
        base_drive = b.0;
        base_norm = b.1;
        base_comps = b.2;
        drive = j.0;
        comps = j.2;
        more = more;
        of_base = normalise-IsNormal base b.0 b.1 b.2 eb;
        of_joined =
            subst (λ x. IsNormal (nt.join b.1 cand) j.0 x j.2) is_joined
              (normalise-IsNormal (nt.join b.1 cand) j.0 j.1 j.2 ej);
        beneath = e;
        relative = no_text-nil (nt.splitdrive cand).0 (ground (arith, rel));
      }
