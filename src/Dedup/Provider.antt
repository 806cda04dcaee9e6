-- ===== src/Dedup/Provider.antt =====
-- core/provider_dedup.py: groups of entries with one hash that a cloud provider attests. The order that
-- the database streams its rows in is a parameter.
pub mod InScope
mod Tests
use fathomline.Prelude.{
  ℕ, ◌*◌, ◌-◌, Bool, true, false, not, ◌&&◌, Option, none, some, List, [], ◌∷◌, ◌++◌, length,
  member, if◌then◌else◌, ◌==◌, ltb, leb, ℕ_eq, take,
}
use fathomline.Prelude.Json.{Text, Text_eq}
use fathomline.Auth.Scope.{ScopeFilter, apply}

-- A row of the catalogue, as the query reads it.
pub record HashedRow : Type 0 where
  pub id : ℕ
  pub host_id : ℕ
  pub volume_id : ℕ
  pub path : Text
  pub provider_hash_algo : Option Text
  pub provider_hash : Option Text
  pub size_logical : ℕ
  pub present : Bool
  pub is_dir : Bool

pub record ProviderDupMember : Type 0 where
  pub entry_id : ℕ
  pub host_id : ℕ
  pub volume_id : ℕ
  pub path : Text

abbrev pub HashKey : Type 0
HashKey = Text × Text × ℕ

abbrev pub same_hash_key : HashKey → HashKey → Bool
same_hash_key (a, h, n) (b, g, m) = a == b && (h == g && n == m)

pub record ProviderDupGroup : Type 0 where
  pub key : HashKey
  pub members : List ProviderDupMember

unfoldable pub reclaimable_bytes : ProviderDupGroup → ℕ
reclaimable_bytes g = g.key.2 * (length g.members - 1)

abbrev pub Streamed : Type 0
Streamed = HashKey × ProviderDupMember

abbrev scoped_row : Option ScopeFilter → HashedRow → Bool
scoped_row none r = true
scoped_row (some f) r =
    apply f (λ x. true) (some (λ (x : HashedRow). x.host_id))
      (some (λ (x : HashedRow). x.volume_id)) none r

abbrev in_volumes : Option (List ℕ) → HashedRow → Bool
in_volumes none r = true
in_volumes (some ids) r = member r.volume_id ids

-- The clauses of the query, but for the hashes that have to be there.
abbrev pub wanted : Option ScopeFilter → Option (List ℕ) → HashedRow → Bool
wanted scope volume_ids r =
    r.present && (not r.is_dir && (in_volumes volume_ids r && scoped_row scope r))

abbrev with_hashes : Option Text → Option Text → HashedRow → List Streamed → List Streamed
with_hashes (some algo) (some phash) r rest =
    (
      (algo, phash, r.size_logical),
      record { entry_id = r.id; host_id = r.host_id; volume_id = r.volume_id; path = r.path },
    )
    ∷ rest
with_hashes _ _ r rest = rest

unfoldable pub selected : Option ScopeFilter → Option (List ℕ) → List HashedRow → List Streamed
selected scope volume_ids [] = []
selected scope volume_ids (r ∷ table) =
    let rest = selected scope volume_ids table in
    if wanted scope volume_ids r
    then with_hashes r.provider_hash_algo r.provider_hash r rest
    else rest

-- `_make_group`, put in front of the groups that follow.
abbrev make_group :
    Option HashKey → List ProviderDupMember → ℕ → List ProviderDupGroup → List ProviderDupGroup
make_group none members min_members rest = rest
make_group (some key) members min_members rest =
    if ltb (length members) min_members
    then rest
    else record { key = key; members = members } ∷ rest

abbrev is_current : Option HashKey → HashKey → Bool
is_current none key = false
is_current (some cur_key) key = same_hash_key key cur_key

-- The loop over the stream with `cur_key` and `cur`.
unfoldable pub groups_from :
    ℕ → Option HashKey → List ProviderDupMember → List Streamed → List ProviderDupGroup
groups_from min_members cur_key cur [] = make_group cur_key cur min_members []
groups_from min_members cur_key cur ((key, m) ∷ rows) =
    let same = groups_from min_members cur_key (cur ++ m ∷ []) rows in
    let next = groups_from min_members (some key) (m ∷ []) rows in
    if is_current cur_key key then same else make_group cur_key cur min_members next

abbrev no_volumes : Option (List ℕ) → Bool
no_volumes (some []) = true
no_volumes _ = false

unfoldable pub iter_provider_hash_duplicates :
    (List Streamed → List Streamed)
    → Option ScopeFilter
    → Option (List ℕ)
    → ℕ
    → List HashedRow
    → List ProviderDupGroup
unfolding groups_from selected
iter_provider_hash_duplicates order scope volume_ids min_members table =
    if no_volumes volume_ids
    then []
    else groups_from min_members none [] (order (selected scope volume_ids table))

-- The loop ends with the group that makes the limit, so a limit of zero lets one group through.
abbrev cut_to : Option ℕ → List ProviderDupGroup → List ProviderDupGroup
cut_to none groups = groups
cut_to (some limit) groups = take (if leb limit 1 then 1 else limit) groups

unfoldable pub find_provider_hash_duplicates :
    (List Streamed → List Streamed)
    → Option ScopeFilter
    → Option (List ℕ)
    → ℕ
    → Option ℕ
    → List HashedRow
    → List ProviderDupGroup
unfolding iter_provider_hash_duplicates
find_provider_hash_duplicates order scope volume_ids min_members limit table =
    cut_to limit (iter_provider_hash_duplicates order scope volume_ids min_members table)
