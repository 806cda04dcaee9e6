-- ===== src/Paths/Joining.antt =====
-- `safe_path_join` of security/paths.py. The `/` of pathlib and `parents` are parameters.
use fathomline.Prelude.{
  true, not, ◌&&◌, ◌||◌, List, if◌then◌else◌, ◌==◌, ◌≡◌, arith, subst, ap, sym, ◌∙◌, member,
}
use fathomline.Prelude.Json.{Text, Text_eq}
use fathomline.Prelude.Effect.{Outcome, ok, raised}
use fathomline.Paths.{Places, has_nul_byte, is_absolute}
use fathomline.Paths.Scope.{at_or_under, AreTransitive, at_or_under_trans}

pub data JoinError : Type 0 where
  nul_byte base_not_absolute escapes_base : JoinError

module _ (on : Places) (parents : Text → List Text) (join_path : Text → Text → Text) where
  unfoldable pub safe_path_join : Text → Text → Outcome JoinError Text
  safe_path_join base candidate =
      let base_norm = on.normpath base in
      let joined = on.normpath (join_path base_norm candidate) in
      if has_nul_byte base || has_nul_byte candidate
      then raised nul_byte
      else if not (is_absolute base_norm)
      then raised base_not_absolute
      else if not (joined == base_norm) && not (member base_norm (parents joined))
      then raised escapes_base
      else ok joined

  joined-within :
      (base candidate p : Text)
      → safe_path_join base candidate ≡ ok p
      → (at_or_under on parents p (on.normpath base) ≡ true)
        × (p ≡ on.normpath (join_path (on.normpath base) candidate))
  unfolding safe_path_join
  joined-within base candidate p h = (ground (arith, h), ground (arith, h))

  -- With a normal form that is normal, and parents of parents that are parents, a path that is joined
  -- under a path that was joined under a base lies at or under the base, whatever the two candidates
  -- are.
  pub safe_path_join-safe_path_join :
      (base a b p q : Text)
      → ((t : Text) → on.normpath (on.normpath t) ≡ on.normpath t)
      → AreTransitive on parents
      → safe_path_join base a ≡ ok p
      → safe_path_join p b ≡ ok q
      → at_or_under on parents q (on.normpath base) ≡ true
  safe_path_join-safe_path_join base a b p q normal transitive h k =
      let (under_base, is_normal) = joined-within base a p h in
      let (under_p, _) = joined-within p b q k in
      let same : on.normpath p ≡ p = ap on.normpath is_normal ∙ normal _ ∙ sym is_normal in
      at_or_under_trans on parents transitive q p (on.normpath base)
        (subst (λ x. at_or_under on parents q x ≡ true) same under_p) under_base
