-- ===== src/Preview/Cache/Tests.antt =====
-- A cache for at most two entries, in which there are three.
use fathomline.Prelude.{suc, ◌+◌, ◌≤◌, ◌<◌, Option, none, some, [], ◌∷◌, length, ◌≡◌, refl, arith}
use fathomline.Prelude.Json.{Text, codes}
use fathomline.Preview.Cache.{Fernet, CacheEntry, Cache, get, put}
use fathomline.Preview.Cache.Bounded.{get-put}

abbrev unsealed : Text → Option Text
unsealed [] = none
unsealed (b ∷ t) = some t

-- A result is a text; it is sealed with a byte in front, and a hit is marked with another.
abbrev fernet : Fernet Text
fernet = record { encrypt = λ t. 7 ∷ t; decrypt = unsealed; as_hit = λ t. 1 ∷ t }

abbrev entry : CacheEntry
entry = record { ciphertext = 7 ∷ []; expires_at = 9; size = 1 }

abbrev cache : Cache
cache = record {
  store = (codes "a", entry) ∷ (codes "b", entry) ∷ (codes "c", entry) ∷ [];
  hits = 0;
  misses = 0;
}

get-put_example :
    let c' = (put fernet 2 (codes "a") (codes "r") 30 10 cache).1 in
    let answer = get fernet 2 (codes "a") 20 c' in
    (length c'.store ≤ 2)
    × (20 < 10 + 30 → (answer.0 ≡ some (1 ∷ codes "r")) × (answer.1.hits ≡ suc 0))
    × (10 + 30 ≤ 20 → (answer.0 ≡ none) × (answer.1.misses ≡ suc 0))
get-put_example = get-put fernet 2 (codes "a") (codes "r") 30 10 20 cache (λ x. refl) (omega arith)
