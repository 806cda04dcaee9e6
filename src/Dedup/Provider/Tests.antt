-- ===== src/Dedup/Provider/Tests.antt =====
-- An instance for the groups by a provider's hash, and what they show of a system volume.
use fathomline.Prelude.{ℕ, true, false, none, some, List, [], ◌∷◌, All, ◌≡◌, refl}
use fathomline.Prelude.Json.{Text, Text_eq, codes}
use fathomline.Auth.Scope.{ScopeFilter, check_target, system_volume_out_of_scope}
use fathomline.Dedup.Provider.{HashedRow, iter_provider_hash_duplicates}
use fathomline.Dedup.Provider.InScope.{IsSound, iter_provider_hash_duplicates-IsSound}

abbrev row : ℕ → Text → HashedRow
row id path = record {
  id = id;
  host_id = 1;
  volume_id = 2;
  path = path;
  provider_hash_algo = some (codes "md5");
  provider_hash = some (codes "h");
  size_logical = 3;
  present = true;
  is_dir = false;
}

-- The scope of a grant on host 1.
abbrev of_host : ScopeFilter
of_host = record { is_global = false; host_ids = 1 ∷ []; volume_ids = [] }

abbrev table : List HashedRow
table = row 7 (codes "/a") ∷ row 8 (codes "/b") ∷ []

iter_provider_hash_duplicates-IsSound_example :
    All
      (IsSound (some of_host) none table 2)
      (iter_provider_hash_duplicates (λ xs. xs) (some of_host) none 2 table)
iter_provider_hash_duplicates-IsSound_example =
    iter_provider_hash_duplicates-IsSound (some of_host) none table (λ xs. xs) 2 (λ xs x m. m)

-- Were volume 2 a system volume, its entries would be listed all the same, while the target check
-- refuses it to this scope.
refused_as_target :
    check_target of_host 1 (some 2) (some "system") ≡ some system_volume_out_of_scope
unfolding check_target
refused_as_target = refl
