-- ===== src/Auth/Store/Grants.antt =====
-- What access the grants of auth/store.py give, against the rows of the table.
use fathomline.Prelude.{
  ℕ, String, Bool, true, false, not, ◌&&◌, ◌||◌, Option, none, some, List, [], ◌∷◌, any, keep, ◌==◌,
  ℕ_eq, ◌≡◌, refl, arith, ap, ◌∙◌, Bool-cases, inl, inr,
}
use fathomline.Auth.Principal.{
  Role, viewer, operator, remediator, auditor, admin, ScopeKind, Grant, Capability, role_has,
}
use fathomline.Auth.Scope.{from_grants, check_target}
use fathomline.Auth.Scope.Access.{allowed, grant_covers, from_grants-check_target}
use fathomline.Auth.Store.{
  RoleAssignment, same_role, same_kind, same_id?, same_grant, grant_of, noted, granted_first,
  grants_from, grants_for_user,
}

same_role_sound : (a b : Role) → same_role a b ≡ true → a ≡ b
same_role_sound viewer viewer h = refl
same_role_sound operator operator h = refl
same_role_sound remediator remediator h = refl
same_role_sound auditor auditor h = refl
same_role_sound admin admin h = refl
same_role_sound _ _ h = cc

same_kind_sound : (a b : ScopeKind) → same_kind a b ≡ true → a ≡ b
same_kind_sound ScopeKind.global ScopeKind.global h = refl
same_kind_sound ScopeKind.host ScopeKind.host h = refl
same_kind_sound ScopeKind.volume ScopeKind.volume h = refl
same_kind_sound _ _ h = cc

same_id_sound : (a b : Option ℕ) → same_id? a b ≡ true → a ≡ b
same_id_sound none none h = refl
same_id_sound (some i) (some j) h = ap some (ground (arith, h))
same_id_sound none (some j) h = cc
same_id_sound (some i) none h = cc

same_grant_sound : (g h : Grant) → same_grant g h ≡ true → g ≡ h
same_grant_sound g h e =
    let p = same_role_sound g.role h.role (ground (arith, e)) in
    let q = same_kind_sound g.scope_kind h.scope_kind (ground (arith, e)) in
    let r = same_id_sound g.host_id h.host_id (ground (arith, e)) in
    let s = same_id_sound g.volume_id h.volume_id (ground (arith, e)) in
    λ i. record { role = p i; scope_kind = q i; host_id = r i; volume_id = s i }

-- Whether a row of the table stands for a grant with the property.
abbrev pub stands_for : (Grant → Bool) → Option Grant → Bool
stands_for p none = false
stands_for p (some g) = p g

-- No two grants of a list are the same.
abbrev pub all_apart : List Grant → Bool
all_apart [] = true
all_apart (g ∷ gs) = not (any (same_grant g) gs) && all_apart gs

module _ (p : Grant → Bool) where
  seen_has :
      (g : Grant) (seen : List Grant)
      → any (same_grant g) seen ≡ true
      → (p g || any p seen) ≡ any p seen
  seen_has g [] h = cc
  seen_has g (s ∷ seen) h = elim (Bool-cases (same_grant g s)) [
    | inl e ↦ let q : p g ≡ p s = ap p (same_grant_sound g s e) in ground (arith, q)
    | inr e ↦ ground (arith, seen_has g seen (ground (arith, h, e)))
  ]

  granted_first-any :
      (o : Option Grant) (seen rest : List Grant) (rows : Bool)
      → (any p rest || any p (noted o seen)) ≡ (rows || any p (noted o seen))
      → (any p (granted_first o seen rest) || any p seen) ≡ (stands_for p o || rows || any p seen)
  granted_first-any none seen rest rows h = ground (arith, h)
  granted_first-any (some g) seen rest rows h = elim (Bool-cases (any (same_grant g) seen)) [
    | inl e ↦ ground (arith, e, h, seen_has g seen e)
    | inr e ↦ ground (arith, e, h)
  ]

  grants_from-any :
      (rows : List RoleAssignment) (seen : List Grant)
      → (any p (grants_from rows seen) || any p seen)
        ≡ (any (λ r. stands_for p (grant_of r)) rows || any p seen)
  unfolding grants_from
  grants_from-any [] seen = refl
  grants_from-any (r ∷ rows) seen =
      let rest = grants_from-any rows (noted (grant_of r) seen) in
      ground (arith, granted_first-any (grant_of r) seen _ _ rest)

any-keep :
    (f q : RoleAssignment → Bool) (rows : List RoleAssignment)
    → any q (keep f rows) ≡ any (λ r. f r && q r) rows
any-keep f q [] = refl
any-keep f q (r ∷ rows) = elim (Bool-cases (f r)) [
  | inl e ↦ ground (arith, e, any-keep f q rows)
  | inr e ↦ ground (arith, e, any-keep f q rows)
]

same_id_refl : (a : Option ℕ) → same_id? a a ≡ true
same_id_refl none = refl
same_id_refl (some i) = ground arith

same_role_refl : (r : Role) → same_role r r ≡ true
same_role_refl viewer = refl
same_role_refl operator = refl
same_role_refl remediator = refl
same_role_refl auditor = refl
same_role_refl admin = refl

same_kind_refl : (k : ScopeKind) → same_kind k k ≡ true
same_kind_refl ScopeKind.global = refl
same_kind_refl ScopeKind.host = refl
same_kind_refl ScopeKind.volume = refl

same_grant_refl : (g : Grant) → same_grant g g ≡ true
same_grant_refl g =
    rw
      (
        same_role_refl g.role,
        same_kind_refl g.scope_kind,
        same_id_refl g.host_id,
        same_id_refl g.volume_id,
      )
      refl

other_grant :
    (g h : Grant) (seen : List Grant)
    → any (same_grant g) seen ≡ true
    → any (same_grant h) seen ≡ false
    → same_grant g h ≡ false
other_grant g h seen a b = elim (Bool-cases (same_grant g h)) [
  | inl e ↦
      let p : any (same_grant g) seen ≡ any (same_grant h) seen =
        ap (λ x. any (same_grant x) seen) (same_grant_sound g h e) in
      ground (arith, a, b, p)
  | inr e ↦ e
]

out_of_rest :
    (g : Grant) (o : Option Grant) (rest : List Grant → List Grant) (seen : List Grant)
    → ((s : List Grant) → any (same_grant g) s ≡ true → any (same_grant g) (rest s) ≡ false)
    → any (same_grant g) seen ≡ true
    → any (same_grant g) (granted_first o seen (rest (noted o seen))) ≡ false
out_of_rest g none rest seen later h = later seen h
out_of_rest g (some k) rest seen later h = elim (Bool-cases (any (same_grant k) seen)) [
  | inl e ↦ rw e (later seen h)
  | inr e ↦
      let d = other_grant g k seen h e in
      let out = later (k ∷ seen) (rw (d, h) refl) in rw (e, d) out
]

-- What has been seen is not granted again.
seen_stays_out :
    (g : Grant) (rows : List RoleAssignment) (seen : List Grant)
    → any (same_grant g) seen ≡ true
    → any (same_grant g) (grants_from rows seen) ≡ false
unfolding grants_from
seen_stays_out g [] seen h = refl
seen_stays_out g (r ∷ rows) seen h =
    out_of_rest g (grant_of r) (grants_from rows) seen (λ s. seen_stays_out g rows s) h

apart_with :
    (o : Option Grant) (rows : List RoleAssignment) (seen : List Grant)
    → ((s : List Grant) → all_apart (grants_from rows s) ≡ true)
    → all_apart (granted_first o seen (grants_from rows (noted o seen))) ≡ true
apart_with none rows seen later = later seen
apart_with (some g) rows seen later = elim (Bool-cases (any (same_grant g) seen)) [
  | inl e ↦ rw e (later seen)
  | inr e ↦
      let out = seen_stays_out g rows (g ∷ seen) (rw (same_grant_refl g) refl) in
      rw (e, out) (later (g ∷ seen))
]

grants_from-apart :
    (rows : List RoleAssignment) (seen : List Grant) → all_apart (grants_from rows seen) ≡ true
unfolding grants_from
grants_from-apart [] seen = refl
grants_from-apart (r ∷ rows) seen =
    apart_with (grant_of r) rows seen (λ s. grants_from-apart rows s)

-- Whatever is asked of a grant, some grant of a user has it exactly when some row of the table that
-- is the user's is well formed and stands for such a grant; and no grant is listed twice.
pub grants_for_user-reads_table :
    (p : Grant → Bool) (table : List RoleAssignment) (user_id : ℕ)
    → (any p (grants_for_user table user_id)
        ≡ any (λ r. r.user_id == user_id && stands_for p (grant_of r)) table)
      × (all_apart (grants_for_user table user_id) ≡ true)
unfolding grants_for_user
grants_for_user-reads_table p table user_id =
    let own = keep (λ r. r.user_id == user_id) table in
    let read = grants_from-any p own [] in
    let kept = any-keep (λ r. r.user_id == user_id) (λ r. stands_for p (grant_of r)) table in
    (ground (arith, read, kept), grants_from-apart own [])

-- What one row lets a user do.
abbrev pub row_allows : Capability → ℕ → Option ℕ → Option String → RoleAssignment → Bool
row_allows c h v k r =
    stands_for (λ (g : Grant). role_has g.role c && grant_covers g h v k) (grant_of r)

-- A target is accepted under the scope of the grants of a user for a capability exactly when one
-- single row of the table, which is the user's, names a known role that confers the capability and a
-- known kind of scope that covers the target.
pub grants_for_user-check_target :
    (table : List RoleAssignment) (user_id : ℕ) (c : Capability) (h : ℕ) (v : Option ℕ)
    (k : Option String)
    → allowed (check_target (from_grants (grants_for_user table user_id) c) h v k)
      ≡ any (λ r. r.user_id == user_id && row_allows c h v k r) table
grants_for_user-check_target table user_id c h v k =
    from_grants-check_target (grants_for_user table user_id) c h v k
    ∙ (grants_for_user-reads_table (λ (g : Grant). role_has g.role c && grant_covers g h v k) table
        user_id).0
