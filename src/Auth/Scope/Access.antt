-- ===== src/Auth/Scope/Access.antt =====
-- What auth/scope.py lets a principal reach: the row filter, the target check and the grants agree.
use fathomline.Prelude.{
  ℕ, Bool, true, false, not, ◌&&◌, ◌||◌, Option, none, some, List, [], ◌∷◌, any, any-keep, ◌∙◌,
  keep, member, ◌==◌, String, String_eq, ℕ_eq, ◌≡◌, refl, arith,
}
use fathomline.Auth.Principal.{Grant, Capability, ScopeKind, role_has}
use fathomline.Auth.Scope.{
  of_relevant, ScopeFilter, apply, check_target, from_grants, in_ids, host_ids_of, volume_ids_of,
  host_of, volume_of, is_kind_global, kind_is_system,
}

abbrev pub allowed {ℓ} : {A : Type ℓ} → Option A → Bool
allowed none = true
allowed (some _) = false

module _ {Row : Type 0} (host : Row → ℕ) (volume : Row → ℕ) (kind : Row → String) where
  abbrev Agrees : ScopeFilter → (Row → Bool) → Row → Type 0
  Agrees f stmt r =
      apply f stmt (some host) (some volume) (some kind) r
      ≡ (stmt r && allowed (check_target f (host r) (some (volume r)) (some (kind r))))

  agree_by_sets :
      (g : Bool) (hs vs : List ℕ) (stmt : Row → Bool) (r : Row)
      → Agrees (record { is_global = g; host_ids = hs; volume_ids = vs }) stmt r
  unfolding apply check_target
  agree_by_sets g [] [] stmt r = ground arith
  agree_by_sets g (h ∷ hs) [] stmt r = ground arith
  agree_by_sets g [] (v ∷ vs) stmt r = ground arith
  agree_by_sets g (h ∷ hs) (v ∷ vs) stmt r = ground arith

  -- Over a table with a host, a volume and a kind column, a statement filtered by a scope returns
  -- exactly the rows that it returned before and that `check_target` would accept as a target.
  pub apply-check_target :
      (f : ScopeFilter) (stmt : Row → Bool) (r : Row)
      → apply f stmt (some host) (some volume) (some kind) r
        ≡ (stmt r && allowed (check_target f (host r) (some (volume r)) (some (kind r))))
  apply-check_target f stmt r = agree_by_sets f.is_global f.host_ids f.volume_ids stmt r

abbrev same_id : Option ℕ → Option ℕ → Bool
same_id (some i) (some j) = j == i
same_id _ _ = false

abbrev is_host : Option ℕ → ℕ → Bool
is_host none h = false
is_host (some i) h = h == i

abbrev covers_by : ScopeKind → Option ℕ → Option ℕ → ℕ → Option ℕ → Option String → Bool
covers_by ScopeKind.global gh gv h v k = true
covers_by ScopeKind.host gh gv h v k = is_host gh h && not (kind_is_system k)
covers_by ScopeKind.volume gh gv h v k = same_id gv v

-- What one grant covers, told without the filter's sets: a volume grant its volume, a host grant
-- the volumes of its host that are not system volumes.
abbrev pub grant_covers : Grant → ℕ → Option ℕ → Option String → Bool
grant_covers g h v k = covers_by g.scope_kind g.host_id g.volume_id h v k

module _ (h : ℕ) (v : Option ℕ) (k : Option String) where
  abbrev reach : Bool → List ℕ → List ℕ → Bool
  reach g hs vs = g || in_ids v vs || (member h hs && not (kind_is_system k))

  check_target_sets :
      (g : Bool) (hs vs : List ℕ)
      → allowed (check_target (record { is_global = g; host_ids = hs; volume_ids = vs }) h v k)
        ≡ reach g hs vs
  unfolding check_target
  check_target_sets g hs vs = ground arith

  reach-cons :
      (s : ScopeKind) (gh gv : Option ℕ) (g : Bool) (hs vs : List ℕ)
      → reach (is_kind_global s || g) (host_of s gh hs) (volume_of s gv vs)
        ≡ (covers_by s gh gv h v k || reach g hs vs)
  reach-cons ScopeKind.global gh gv g hs vs = refl
  reach-cons ScopeKind.host none gv g hs vs = refl
  reach-cons ScopeKind.host (some i) gv g hs vs = ground arith
  reach-cons ScopeKind.volume gh none g hs vs = ground arith
  reach-cons ScopeKind.volume gh (some j) g hs vs = ground arith

  reach_of_grants :
      (gs : List Grant)
      → reach
          (any (λ (g : Grant). is_kind_global g.scope_kind) gs)
          (host_ids_of gs)
          (volume_ids_of gs)
        ≡ any (λ (g : Grant). grant_covers g h v k) gs
  unfolding host_ids_of volume_ids_of
  reach_of_grants [] = ground arith
  reach_of_grants (g ∷ gs) = ground (
    arith,
    reach-cons g.scope_kind g.host_id g.volume_id
        (any (λ (g : Grant). is_kind_global g.scope_kind) gs) (host_ids_of gs) (volume_ids_of gs),
    reach_of_grants gs,
  )

  of_relevant_lem :
      (gs : List Grant)
      → allowed (check_target (of_relevant gs) h v k) ≡ any (λ (g : Grant). grant_covers g h v k) gs
  unfolding of_relevant
  of_relevant_lem [] = check_target_sets false [] [] ∙ reach_of_grants []
  of_relevant_lem (g ∷ gs) = ground (
    arith,
    reach_of_grants (g ∷ gs),
    check_target_sets true [] [],
    check_target_sets false (host_ids_of (g ∷ gs)) (volume_ids_of (g ∷ gs)),
  )

-- A target is accepted under the scope of a principal's grants exactly when one single grant
-- whose role confers the capability covers it.
pub from_grants-check_target :
    (grants : List Grant) (c : Capability) (h : ℕ) (v : Option ℕ) (k : Option String)
    → allowed (check_target (from_grants grants c) h v k)
      ≡ any (λ (g : Grant). role_has g.role c && grant_covers g h v k) grants
unfolding from_grants
from_grants-check_target grants c h v k =
    of_relevant_lem h v k (keep (λ (g : Grant). role_has g.role c) grants)
    ∙ any-keep (λ (g : Grant). role_has g.role c) (λ (g : Grant). grant_covers g h v k) grants
