-- ===== src/Auth/Tests.antt =====
-- Runs and instances for the modules of Auth.
use fathomline.Prelude.{
  ℕ, String, ◌==◌, ℕ_eq, true, false, ◌&&◌, none, some, List, [], ◌∷◌, any, ◌≡◌, refl,
}
use fathomline.Auth.Principal.{
  viewer, remediator, preview, Grant, Principal, ScopeKind, local, role_has,
}
use fathomline.Auth.Store.{RoleAssignment, grant_of, grants_for_user}
use fathomline.Auth.Store.Grants.{
  stands_for, all_apart, row_allows, grants_for_user-reads_table, grants_for_user-check_target,
}
use fathomline.Auth.Scope.{from_grants, check_target, apply}
use fathomline.Auth.Scope.Access.{allowed, apply-check_target}

abbrev host_grant : Grant
host_grant = record {
  role = remediator;
  scope_kind = ScopeKind.host;
  host_id = some 7;
  volume_id = none;
}

abbrev volume_grant : Grant
volume_grant = record {
  role = viewer;
  scope_kind = ScopeKind.volume;
  host_id = none;
  volume_id = some 3;
}

abbrev both : List Grant
both = host_grant ∷ volume_grant ∷ []

abbrev alice : Principal
alice = record {
  subject = "alice";
  source = local;
  user_id = 1;
  display_name = none;
  groups = [];
  grants = both;
  mfa_authenticated_at = none;
  session_id = none;
}

apply-check_target_example :
    apply
      (from_grants both preview)
      (λ (r : ℕ). true)
      (some (λ r. 7))
      (some (λ r. r))
      (some (λ r. "system"))
      3
    ≡ (true && allowed (check_target (from_grants both preview) 7 (some 3) (some "system")))
apply-check_target_example =
    apply-check_target (λ r. 7) (λ r. r) (λ r. "system") (from_grants both preview) (λ r. true) 3

abbrev assigned : String → String → RoleAssignment
assigned role kind = record {
  user_id = 1;
  role = role;
  scope_kind = kind;
  host_id = some 7;
  volume_id = none;
}

-- One assignment twice, and two malformed ones.
abbrev assignments : List RoleAssignment
assignments =
    assigned "viewer" "host"
    ∷ assigned "viewer" "host"
    ∷ assigned "root" "global"
    ∷ assigned "admin" "estate"
    ∷ []

grants_for_user-reads_table_example :
    (any (λ (g : Grant). role_has g.role preview) (grants_for_user assignments 1)
      ≡ any
          (λ r. r.user_id == 1 && stands_for (λ (g : Grant). role_has g.role preview) (grant_of r))
          assignments)
    × (all_apart (grants_for_user assignments 1) ≡ true)
grants_for_user-reads_table_example =
    grants_for_user-reads_table (λ (g : Grant). role_has g.role preview) assignments 1

grants_for_user-check_target_example :
    allowed (
      check_target (from_grants (grants_for_user assignments 1) preview) 7 (some 4) (some "system"))
    ≡ any (λ r. r.user_id == 1 && row_allows preview 7 (some 4) (some "system") r) assignments
grants_for_user-check_target_example =
    grants_for_user-check_target assignments 1 preview 7 (some 4) (some "system")

-- The host grant does not reach the system volume of its own host, and the volume grant does.
system_volume_runs :
    (allowed (check_target (from_grants both preview) 7 (some 4) (some "system")) ≡ false)
    × (allowed (check_target (from_grants both preview) 7 (some 3) (some "system")) ≡ true)
    × (allowed (check_target (from_grants both preview) 7 (some 4) (some "data")) ≡ true)
unfolding check_target from_grants role_has
system_volume_runs = (refl, refl, refl)
