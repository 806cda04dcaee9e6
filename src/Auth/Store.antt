-- ===== src/Auth/Store.antt =====
-- auth/store.py: the grants of a user from the rows of the assignment table, roles of groups, and the
-- users of a source. The tables are lists in the order in which the database returns their rows.
pub mod Grants
use fathomline.Prelude.{
  ℕ, suc, ◌+◌, String, Bool, true, false, ◌&&◌, Option, none, some, List, [], ◌∷◌, ◌++◌, any, keep,
  member, if◌then◌else◌, ◌==◌, ℕ_eq, String_eq,
}
use fathomline.Auth.Principal.{Role, viewer, operator, remediator, auditor, admin, ScopeKind, Grant}

-- The columns of the table that the code reads.
pub record RoleAssignment : Type 0 where
  pub user_id : ℕ
  pub role : String
  pub scope_kind : String
  pub host_id : Option ℕ
  pub volume_id : Option ℕ

pub record IdentityBinding : Type 0 where
  pub group_claim : String
  pub role : String

pub record User : Type 0 where
  pub id : ℕ
  pub source : String
  pub subject : String
  pub display_name : Option String
  pub is_active : Bool

unfoldable pub coerce_role : String → Option Role
coerce_role value =
    if value == "viewer"
    then some viewer
    else if value == "operator"
    then some operator
    else if value == "remediator"
    then some remediator
    else if value == "auditor"
    then some auditor
    else if value == "admin"
    then some admin
    else none

unfoldable pub coerce_scope_kind : String → Option ScopeKind
coerce_scope_kind value =
    if value == "global"
    then some ScopeKind.global
    else if value == "host"
    then some ScopeKind.host
    else if value == "volume"
    then some ScopeKind.volume
    else none

abbrev pub same_role : Role → Role → Bool
same_role viewer viewer = true
same_role operator operator = true
same_role remediator remediator = true
same_role auditor auditor = true
same_role admin admin = true
same_role _ _ = false

abbrev pub same_kind : ScopeKind → ScopeKind → Bool
same_kind ScopeKind.global ScopeKind.global = true
same_kind ScopeKind.host ScopeKind.host = true
same_kind ScopeKind.volume ScopeKind.volume = true
same_kind _ _ = false

abbrev pub same_id? : Option ℕ → Option ℕ → Bool
same_id? none none = true
same_id? (some i) (some j) = i == j
same_id? _ _ = false

-- The key of a grant is all that it holds.
abbrev pub same_grant : Grant → Grant → Bool
same_grant g h =
    same_role g.role h.role
    && (same_kind g.scope_kind h.scope_kind
        && (same_id? g.host_id h.host_id && same_id? g.volume_id h.volume_id))

abbrev granted : Option Role → Option ScopeKind → Option ℕ → Option ℕ → Option Grant
granted (some role) (some kind) host volume =
    some (record { role = role; scope_kind = kind; host_id = host; volume_id = volume })
granted _ _ host volume = none

-- The grant that a row stands for; `none` is a malformed row.
abbrev pub grant_of : RoleAssignment → Option Grant
grant_of row =
    granted (coerce_role row.role) (coerce_scope_kind row.scope_kind) row.host_id row.volume_id

abbrev pub noted : Option Grant → List Grant → List Grant
noted none seen = seen
noted (some g) seen = if any (same_grant g) seen then seen else g ∷ seen

abbrev pub granted_first : Option Grant → List Grant → List Grant → List Grant
granted_first none seen rest = rest
granted_first (some g) seen rest = if any (same_grant g) seen then rest else g ∷ rest

-- The loop over the rows with the keys that were seen.
unfoldable pub grants_from : List RoleAssignment → List Grant → List Grant
grants_from [] seen = []
grants_from (row ∷ rows) seen =
    granted_first (grant_of row) seen (grants_from rows (noted (grant_of row) seen))

unfoldable pub grants_for_user : List RoleAssignment → ℕ → List Grant
grants_for_user table user_id = grants_from (keep (λ r. r.user_id == user_id) table) []

abbrev with_role : Option Role → List Role → List Role
with_role none roles = roles
with_role (some role) roles = role ∷ roles

abbrev roles_of : List IdentityBinding → List Role
roles_of [] = []
roles_of (b ∷ rows) = with_role (coerce_role b.role) (roles_of rows)

unfoldable pub roles_for_groups : List IdentityBinding → List String → List Role
roles_for_groups table [] = []
roles_for_groups table (g ∷ groups) = roles_of (keep (λ b. member b.group_claim (g ∷ groups)) table)

-- `scalar_one_or_none` over a unique pair of columns.
abbrev pub user_at : String → String → List User → Option User
user_at source subject [] = none
user_at source subject (u ∷ users) =
    if u.source == source && u.subject == subject then some u else user_at source subject users

abbrev if_active : Option User → Option User
if_active none = none
if_active (some u) = if u.is_active then some u else none

unfoldable pub get_active_user : String → String → List User → Option User
get_active_user source subject users = if_active (user_at source subject users)

abbrev created : ℕ → String → String → Option String → Option User → List User → User × List User
created id source subject display_name (some u) users = (u, users)
created id source subject display_name none users =
    let u : User = record {
      id = id;
      source = source;
      subject = subject;
      display_name = display_name;
      is_active = true;
    } in
    (u, users ++ u ∷ [])

-- With the number that the database gives to a new row.
unfoldable pub upsert_federated_user :
    ℕ → String → String → Option String → List User → User × List User
upsert_federated_user id source subject display_name users =
    created id source subject display_name (user_at source subject users) users
