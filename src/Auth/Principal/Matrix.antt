-- ===== src/Auth/Principal/Matrix.antt =====
-- The shape of the permission matrix of auth/principal.py.
use fathomline.Prelude.{true, refl, ◌↔◌, ◌≡◌, ◌⊎◌, Memᴰ, Memᴰ_of_any, arith}
use fathomline.Auth.Principal.{
  Role, viewer, operator, remediator, auditor, admin, Capability, read_audit, trigger_fullbit_scan,
  execute_remediation, manage_users, Principal, Grant, role_has, step_up_capabilities,
  has_capability,
}

-- The order of the roles: the inheritance chain, and the auditor beside it.
pub data Below : Role → Role → Type 0 where
  same : {r : Role} → Below r r
  viewer_operator : Below viewer operator
  viewer_remediator : Below viewer remediator
  viewer_auditor : Below viewer auditor
  operator_remediator : Below operator remediator
  below_admin : {r : Role} → Below r admin

abbrev pub Includes : Role → Role → Type 0
Includes s r = (c : Capability) → role_has r c ≡ true → role_has s c ≡ true

Below-Includes : {r s : Role} → Below r s → Includes s r
unfolding role_has
Below-Includes same c h = h
Below-Includes viewer_operator c h = ground arith
Below-Includes viewer_remediator c h = ground arith
Below-Includes viewer_auditor c h = ground arith
Below-Includes operator_remediator c h = ground arith
Below-Includes below_admin c h = ground arith

Includes-Below : (r s : Role) → Includes s r → Below r s
unfolding role_has
Includes-Below viewer viewer h = same
Includes-Below viewer operator h = viewer_operator
Includes-Below viewer remediator h = viewer_remediator
Includes-Below viewer auditor h = viewer_auditor
Includes-Below operator viewer h = cc (h trigger_fullbit_scan refl)
Includes-Below operator operator h = same
Includes-Below operator remediator h = operator_remediator
Includes-Below operator auditor h = cc (h trigger_fullbit_scan refl)
Includes-Below remediator remediator h = same
Includes-Below remediator auditor h = cc (h execute_remediation refl)
Includes-Below remediator viewer h = cc (h execute_remediation refl)
Includes-Below remediator operator h = cc (h execute_remediation refl)
Includes-Below auditor auditor h = same
Includes-Below auditor viewer h = cc (h read_audit refl)
Includes-Below auditor operator h = cc (h read_audit refl)
Includes-Below auditor remediator h = cc (h read_audit refl)
Includes-Below admin viewer h = cc (h manage_users refl)
Includes-Below admin operator h = cc (h manage_users refl)
Includes-Below admin remediator h = cc (h manage_users refl)
Includes-Below admin auditor h = cc (h manage_users refl)
Includes-Below r admin h = below_admin

-- One role has every capability of another exactly when it is the same role, stands above it on
-- the chain viewer, operator, remediator, admin, or is the auditor above the viewer or the admin
-- above the auditor.
pub role_has-Below : (r s : Role) → Below r s ↔ Includes s r
role_has-Below r s = (λ b. Below-Includes b, Includes-Below r s)

step_up_roles :
    (r : Role) (c : Capability)
    → step_up_capabilities c ≡ true
    → role_has r c ≡ true
    → (r ≡ remediator) ⊎ (r ≡ admin)
unfolding step_up_capabilities role_has
step_up_roles r c h k = ground arith

-- A principal who has a capability that needs a step-up holds a grant of the remediator or of
-- the admin role.
pub has_capability-step_up :
    (p : Principal) (c : Capability)
    → step_up_capabilities c ≡ true
    → has_capability p c ≡ true
    → (g : Grant) × Memᴰ g p.grants × ((g.role ≡ remediator) ⊎ (g.role ≡ admin))
unfolding has_capability
has_capability-step_up p c h k =
    let (g, m, has) = Memᴰ_of_any (λ (g : Grant). role_has g.role c) p.grants k in
    (g, m, step_up_roles g.role c h has)
