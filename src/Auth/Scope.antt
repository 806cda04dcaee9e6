-- ===== src/Auth/Scope.antt =====
-- auth/scope.py: the scope that a principal's grants give for one capability. A `frozenset` of ids
-- is a list of them; the 403 that `check_target` raises is a value.
pub mod Access
use fathomline.Prelude.{
  ℕ, Bool, true, false, not, ◌&&◌, ◌||◌, Option, none, some, List, [], ◌∷◌, any, keep, member, ◌==◌,
  String, String_eq, ℕ_eq, if◌then◌else◌,
}
use fathomline.Auth.Principal.{Grant, Capability, ScopeKind, role_has}

abbrev pub system_volume_kind : String
system_volume_kind = "system"

pub record ScopeFilter : Type 0 where
  pub is_global : Bool
  pub host_ids : List ℕ
  pub volume_ids : List ℕ

abbrev is_kind_global : ScopeKind → Bool
is_kind_global ScopeKind.global = true
is_kind_global _ = false

-- One turn of each set comprehension of `from_grants`.
abbrev host_of : ScopeKind → Option ℕ → List ℕ → List ℕ
host_of ScopeKind.host (some i) ids = i ∷ ids
host_of _ _ ids = ids

abbrev volume_of : ScopeKind → Option ℕ → List ℕ → List ℕ
volume_of ScopeKind.volume (some i) ids = i ∷ ids
volume_of _ _ ids = ids

host_ids_of : List Grant → List ℕ
host_ids_of [] = []
host_ids_of (g ∷ gs) = host_of g.scope_kind g.host_id (host_ids_of gs)

volume_ids_of : List Grant → List ℕ
volume_ids_of [] = []
volume_ids_of (g ∷ gs) = volume_of g.scope_kind g.volume_id (volume_ids_of gs)

abbrev is_nil {ℓ} : {A : Type ℓ} → List A → Bool
is_nil [] = true
is_nil (x ∷ xs) = false

of_relevant : List Grant → ScopeFilter
unfolding host_ids_of volume_ids_of
of_relevant relevant =
    if is_nil relevant
    then record { is_global = false; host_ids = []; volume_ids = [] }
    else if any (λ (g : Grant). is_kind_global g.scope_kind) relevant
    then record { is_global = true; host_ids = []; volume_ids = [] }
    else record {
      is_global = false;
      host_ids = host_ids_of relevant;
      volume_ids = volume_ids_of relevant;
    }

unfoldable pub from_grants : List Grant → Capability → ScopeFilter
unfolding of_relevant
from_grants grants capability =
    of_relevant (keep (λ (g : Grant). role_has g.role capability) grants)

unfoldable pub is_empty : ScopeFilter → Bool
is_empty f = not f.is_global && is_nil f.host_ids && is_nil f.volume_ids

abbrev in_ids : Option ℕ → List ℕ → Bool
in_ids none ids = false
in_ids (some i) ids = member i ids

unfoldable pub covers_system_volume : ScopeFilter → Option ℕ → Bool
covers_system_volume f volume_id = if f.is_global then true else in_ids volume_id f.volume_ids

-- A statement is the predicate that its WHERE clauses make of a row; a column reads the row.
module _ {Row : Type 0} where
  abbrev column_in : Option (Row → ℕ) → List ℕ → List (Row → Bool) → List (Row → Bool)
  column_in none ids ps = ps
  column_in (some col) [] ps = ps
  column_in (some col) (i ∷ ids) ps = (λ r. member (col r) (i ∷ ids)) ∷ ps

  abbrev or_all : List (Row → Bool) → Row → Bool
  or_all ps r = any (λ (p : Row → Bool). p r) ps

  abbrev system_gate : ScopeFilter → Option (Row → ℕ) → Option (Row → String) → Row → Bool
  system_gate f volume_col none r = true
  system_gate f volume_col (some kind) r =
      not (kind r == system_volume_kind) || or_all (column_in volume_col f.volume_ids []) r

  unfoldable pub apply :
      ScopeFilter
      → (Row → Bool)
      → Option (Row → ℕ)
      → Option (Row → ℕ)
      → Option (Row → String)
      → Row
      → Bool
  apply f stmt host_col volume_col kind_col r =
      let predicates = column_in host_col f.host_ids (column_in volume_col f.volume_ids []) in
      if f.is_global
      then stmt r
      else if is_nil predicates
      then false
      else stmt r && or_all predicates r && system_gate f volume_col kind_col r

pub data Refusal : Type 0 where
  system_volume_out_of_scope target_out_of_scope : Refusal

abbrev kind_is_system : Option String → Bool
kind_is_system none = false
kind_is_system (some k) = k == system_volume_kind

-- `none` is a normal return.
unfoldable pub check_target : ScopeFilter → ℕ → Option ℕ → Option String → Option Refusal
unfolding covers_system_volume
check_target f host_id volume_id volume_kind =
    if f.is_global
    then none
    else if kind_is_system volume_kind && not (covers_system_volume f volume_id)
    then some system_volume_out_of_scope
    else if in_ids volume_id f.volume_ids
    then none
    else if member host_id f.host_ids
    then none
    else some target_out_of_scope
