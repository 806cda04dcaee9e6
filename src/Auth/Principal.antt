-- ===== src/Auth/Principal.antt =====
-- auth/principal.py: the roles, the capabilities and the permission matrix. A `frozenset` of
-- capabilities is its characteristic function.
pub mod Matrix
use fathomline.Prelude.{
  ℕ, String, Bool, true, false, ◌||◌, Option, List, any, if◌then◌else◌, ◌==◌, String_eq,
}

pub data Role : Type 0 where
  viewer operator remediator auditor admin : Role

pub data Capability : Type 0 where
  view_metadata preview view_dedup trigger_metadata_scan trigger_fullbit_scan : Capability
  build_remediation execute_remediation quarantine_manage read_audit read_config : Capability
  manage_users manage_agents deploy_agent manage_settings : Capability

abbrev pub CapabilitySet : Type 0
CapabilitySet = Capability → Bool

infixl 30 ◌∪◌
abbrev ◌∪◌ : CapabilitySet → CapabilitySet → CapabilitySet
◌∪◌ a b c = a c || b c

viewer_caps : CapabilitySet
viewer_caps view_metadata = true
viewer_caps preview = true
viewer_caps view_dedup = true
viewer_caps _ = false

operator_own : CapabilitySet
operator_own trigger_metadata_scan = true
operator_own trigger_fullbit_scan = true
operator_own _ = false

remediator_own : CapabilitySet
remediator_own build_remediation = true
remediator_own execute_remediation = true
remediator_own quarantine_manage = true
remediator_own _ = false

auditor_caps : CapabilitySet
auditor_caps view_metadata = true
auditor_caps preview = true
auditor_caps view_dedup = true
auditor_caps read_audit = true
auditor_caps read_config = true
auditor_caps _ = false

operator_caps : CapabilitySet
unfolding viewer_caps operator_own
operator_caps = viewer_caps ∪ operator_own

remediator_caps : CapabilitySet
unfolding operator_caps remediator_own
remediator_caps = operator_caps ∪ remediator_own

-- `frozenset(Capability)` has every member of the enumeration.
all_caps : CapabilitySet
all_caps c = true

admin_caps : CapabilitySet
unfolding all_caps remediator_caps auditor_caps
admin_caps = all_caps ∪ remediator_caps ∪ auditor_caps

role_caps : Role → CapabilitySet
unfolding viewer_caps operator_caps remediator_caps auditor_caps admin_caps
role_caps viewer = viewer_caps
role_caps operator = operator_caps
role_caps remediator = remediator_caps
role_caps auditor = auditor_caps
role_caps admin = admin_caps

unfoldable pub step_up_capabilities : CapabilitySet
step_up_capabilities execute_remediation = true
step_up_capabilities quarantine_manage = true
step_up_capabilities deploy_agent = true
step_up_capabilities _ = false

unfoldable pub role_has : Role → Capability → Bool
unfolding role_caps
role_has role cap = role_caps role cap

unfoldable pub role_capabilities : Role → CapabilitySet
unfolding role_caps
role_capabilities role = role_caps role

pub data PrincipalSource : Type 0 where
  local forward oidc : PrincipalSource

unfoldable pub coerce_source : String → PrincipalSource
coerce_source value =
    if value == "forward" then forward else if value == "oidc" then oidc else local

pub data ScopeKind : Type 0 where
  global host volume : ScopeKind

pub record Grant : Type 0 where
  pub role : Role
  pub scope_kind : ScopeKind
  pub host_id : Option ℕ
  pub volume_id : Option ℕ

pub record Principal : Type 0 where
  pub subject : String
  pub source : PrincipalSource
  pub user_id : ℕ
  pub display_name : Option String
  pub groups : List String
  pub grants : List Grant
  pub mfa_authenticated_at : Option ℕ
  pub session_id : Option ℕ

unfoldable pub has_capability : Principal → Capability → Bool
unfolding role_has
has_capability p cap = any (λ g. role_has g.role cap) p.grants
