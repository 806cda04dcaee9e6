-- ===== src/Paths/Scope.antt =====
-- agent/config.py: which paths an agent may scan, read in full, and has to leave out. What `parents`
-- of pathlib gives for a path is a parameter.
use fathomline.Prelude.{
  Bool, true, false, ◌||◌, List, [], ◌∷◌, if◌then◌else◌, ◌==◌, member, ◌≡◌, refl, arith, subst, sym,
  ap, ◌∙◌, Bool-cases, inl, inr, not,
}
use fathomline.Prelude.Json.{Text, Text_eq}
use fathomline.Prelude.Effect.{Outcome, ok, raised, bind, bind-eq-ok}
use fathomline.Paths.{Places, PathSafetyError, validate_config_path}

pub record AgentScopes : Type 0 where
  pub scan_scope : List Text
  pub fullbit_scope : List Text
  pub exclude_scope : List Text

module _ (on : Places) (parents : Text → List Text) where
  abbrev pub at_or_under : Text → Text → Bool
  at_or_under candidate root_path = candidate == root_path || member root_path (parents candidate)

  abbrev pub config_path : Text → Outcome PathSafetyError Text
  config_path value = validate_config_path on value false false false

  -- The loop over the roots; one that is not a safe path raises.
  pub under_any : Text → List Text → Outcome PathSafetyError Bool
  under_any candidate [] = ok false
  under_any candidate (root ∷ roots) =
      let rest = under_any candidate roots in
      bind (config_path root)
        (λ root_path. if at_or_under candidate root_path then ok true else rest)

  -- `except PathSafetyError: return b`
  abbrev scoped : Bool → Outcome PathSafetyError Text → List Text → Outcome PathSafetyError Bool
  scoped b (raised e) roots = ok b
  scoped b (ok candidate) roots = under_any candidate roots

  abbrev is_empty_scope : List Text → Bool
  is_empty_scope [] = true
  is_empty_scope (root ∷ roots) = false

  unfoldable pub in_scope : AgentScopes → Text → Outcome PathSafetyError Bool
  unfolding under_any
  in_scope c target = scoped false (config_path target) c.scan_scope

  unfoldable pub in_fullbit_scope : AgentScopes → Text → Outcome PathSafetyError Bool
  unfolding under_any
  in_fullbit_scope c target =
      if is_empty_scope c.fullbit_scope
      then ok false
      else scoped false (config_path target) c.fullbit_scope

  unfoldable pub is_excluded : AgentScopes → Text → Outcome PathSafetyError Bool
  unfolding under_any
  is_excluded c target =
      if is_empty_scope c.exclude_scope
      then ok false
      else scoped true (config_path target) c.exclude_scope

  -- The loop of `_fullbit_within_scan_scope`: whether the configuration is accepted, or the error
  -- that `in_scope` raised.
  unfoldable pub all_within : AgentScopes → List Text → Outcome PathSafetyError Bool
  unfolding in_scope
  all_within c [] = ok true
  all_within c (root ∷ roots) =
      let rest = all_within c roots in
      bind (in_scope c root) (λ inside. if not inside then ok false else rest)

  unfoldable pub fullbit_within_scan_scope : AgentScopes → Outcome PathSafetyError Bool
  unfolding all_within
  fullbit_within_scan_scope c = all_within c c.fullbit_scope

  -- The parents of a parent are parents.
  abbrev pub AreTransitive : Type 0
  AreTransitive =
      (a b c : Text)
      → member b (parents a) ≡ true
      → member c (parents b) ≡ true
      → member c (parents a) ≡ true

  module _ (transitive : AreTransitive) where
    pub at_or_under_trans :
        (a b c : Text) → at_or_under a b ≡ true → at_or_under b c ≡ true → at_or_under a c ≡ true
    at_or_under_trans a b c h k = elim (Bool-cases (a == b)) [
      | inl e ↦ subst (λ x. at_or_under x c ≡ true) (sym ((Text_eq.beq_iff a b).0 e)) k
      | inr e ↦ elim (Bool-cases (b == c)) [
        | inl f ↦ subst (λ x. at_or_under a x ≡ true) ((Text_eq.beq_iff b c).0 f) h
        | inr f ↦ ground (arith, transitive a b c)
      ]
    ]

    -- A test that the loop has met for a path, it meets no later for a path beneath it.
    under_any-below :
        (a b : Text) (roots : List Text)
        → at_or_under a b ≡ true
        → under_any b roots ≡ ok true
        → under_any a roots ≡ ok true
    unfolding under_any
    under_any-below a b [] h k = cc
    under_any-below a b (root ∷ roots) h k =
        below_root (config_path root) (λ p m. under_any-below a b roots h m) k
      where
        below_root :
            (p : Outcome PathSafetyError Text)
            → ((r : Text) → under_any b roots ≡ ok true → under_any a roots ≡ ok true)
            → bind p (λ r. if at_or_under b r then ok true else under_any b roots) ≡ ok true
            → bind p (λ r. if at_or_under a r then ok true else under_any a roots) ≡ ok true
        below_root (raised e) later m = cc
        below_root (ok r) later m = elim (Bool-cases (at_or_under b r)) [
          | inl e ↦ rw (at_or_under_trans a b r h e) refl
          | inr e ↦ elim (Bool-cases (at_or_under a r)) [
            | inl f ↦ rw f refl
            | inr f ↦
                rw f (
                  later r
                    (subst (λ t. if◌then◌else◌ t (ok true) (under_any b roots) ≡ ok true) e m))
          ]
        ]

    in_scope-below :
        (c : AgentScopes) (a b root : Text)
        → config_path a ≡ ok b
        → at_or_under b root ≡ true
        → (p : Outcome PathSafetyError Text) → p ≡ ok root
        → scoped false p c.scan_scope ≡ ok true
        → in_scope c a ≡ ok true
    unfolding in_scope
    in_scope-below c a b root e h p q m = rw e (
        under_any-below b root c.scan_scope h
          (subst (λ p. scoped false p c.scan_scope ≡ ok true) q m))

    fullbit_below :
        (c : AgentScopes) (a b : Text) (roots : List Text)
        → config_path a ≡ ok b
        → all_within c roots ≡ ok true
        → under_any b roots ≡ ok true
        → in_scope c a ≡ ok true
    unfolding all_within under_any in_scope
    fullbit_below c a b [] e w m = cc
    fullbit_below c a b (root ∷ roots) e w m =
        let (inside, ins, w') =
          bind-eq-ok (in_scope c root) (λ i. if not i then ok false else all_within c roots) w in
        let (r, q, m') =
          bind-eq-ok (config_path root)
            (λ r. if at_or_under b r then ok true else under_any b roots) m in
        let yes_in : inside ≡ true = ground (arith, w') in
        elim (Bool-cases (at_or_under b r)) [
          | inl f ↦ in_scope-below c a b r e f (config_path root) q (ins ∙ ap ok yes_in)
          | inr f ↦
              fullbit_below c a b roots e
                (subst (λ t. if◌then◌else◌ (not t) (ok false) (all_within c roots) ≡ ok true) yes_in
                  w')
                (subst (λ t. if◌then◌else◌ t (ok true) (under_any b roots) ≡ ok true) f m')
        ]

    -- When the parents of a path's parents are its parents too, and the configuration was accepted
    -- with its full-bit roots, a path that may be read in full may also be scanned: `fullbit_scope`
    -- narrows `scan_scope` and never widens it.
    pub in_fullbit_scope-in_scope :
        (c : AgentScopes) (target : Text)
        → fullbit_within_scan_scope c ≡ ok true
        → in_fullbit_scope c target ≡ ok true
        → in_scope c target ≡ ok true
    unfolding fullbit_within_scan_scope in_fullbit_scope
    in_fullbit_scope-in_scope c target w m =
        by_path (config_path target) refl (narrowed (is_empty_scope c.fullbit_scope) m)
      where
        narrowed :
            (b : Bool)
            → if◌then◌else◌ b (ok false) (scoped false (config_path target) c.fullbit_scope)
              ≡ ok true
            → scoped false (config_path target) c.fullbit_scope ≡ ok true
        narrowed true h = cc
        narrowed false h = h

        by_path :
            (p : Outcome PathSafetyError Text)
            → config_path target ≡ p
            → scoped false p c.fullbit_scope ≡ ok true
            → in_scope c target ≡ ok true
        by_path (raised e) q h = cc
        by_path (ok b) q h = fullbit_below c target b c.fullbit_scope q w h
