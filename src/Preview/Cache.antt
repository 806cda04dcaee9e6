-- ===== src/Preview/Cache.antt =====
-- preview/cache.py: the encrypted cache of renderings. The cipher with the JSON of a result is a
-- parameter; the clock is a number; the order of the entries is from the oldest use to the latest.
-- The lock makes each operation atomic.
pub mod Bounded
mod Tests
use fathomline.Prelude.{
  ℕ, zero, suc, ◌+◌, ◌-◌, Bool, Option, none, some, List, [], ◌∷◌, ◌++◌, length, if◌then◌else◌,
  ◌==◌, leb,
}
use fathomline.Prelude.Json.{Text, Text_eq, codes}

-- The ciphertext of a result, what comes of a ciphertext unless its token is invalid, and the copy of
-- a result that says `cache_hit`.
pub record Fernet (R : Type 0) : Type 0 where
  pub encrypt : R → Text
  pub decrypt : Text → Option R
  pub as_hit : R → R

-- `_Entry`
pub record CacheEntry : Type 0 where
  pub ciphertext : Text
  pub expires_at : ℕ
  pub size : ℕ

abbrev pub Entries : Type 0
Entries = List (Text × CacheEntry)

pub record Cache : Type 0 where
  pub store : Entries
  pub hits : ℕ
  pub misses : ℕ

abbrev pub entry_at : Text → Entries → Option CacheEntry
entry_at key [] = none
entry_at key ((k, e) ∷ es) = if key == k then some e else entry_at key es

abbrev pub without : Text → Entries → Entries
without key [] = []
without key ((k, e) ∷ es) = let rest = without key es in if key == k then rest else (k, e) ∷ rest

-- Assignment, or `move_to_end`.
abbrev pub at_end : Text → CacheEntry → Entries → Entries
at_end key e es = without key es ++ (key, e) ∷ []

-- `popitem(last=False)`, so many times.
abbrev pub pop_oldest : ℕ → Entries → Entries
pop_oldest zero es = es
pop_oldest (suc n) [] = []
pop_oldest (suc n) (e ∷ es) = pop_oldest n es

module _ {R : Type 0} (f : Fernet R) (max_entries : ℕ) where
  abbrev opened : Text → CacheEntry → Cache → Option R → Option R × Cache
  opened key e c none =
      (none, record { store = without key c.store; hits = suc c.hits; misses = suc c.misses })
  opened key e c (some r) = (
    some (f.as_hit r),
    record { store = at_end key e c.store; hits = suc c.hits; misses = c.misses },
  )

  abbrev found : Text → ℕ → Cache → Option CacheEntry → Option R × Cache
  found key now c none = (none, record c { misses = suc c.misses })
  found key now c (some e) =
      if leb e.expires_at now
      then (none, record { store = without key c.store; hits = c.hits; misses = suc c.misses })
      else opened key e c (f.decrypt e.ciphertext)

  -- `EncryptedLruCache.get`
  unfoldable pub get : Text → ℕ → Cache → Option R × Cache
  get key now c = found key now c (entry_at key c.store)

  -- `EncryptedLruCache.put`, with the size that it returns.
  unfoldable pub put : Text → R → ℕ → ℕ → Cache → ℕ × Cache
  put key r ttl now c =
      let ciphertext = f.encrypt r in
      let e : CacheEntry = record {
        ciphertext = ciphertext;
        expires_at = now + ttl;
        size = length ciphertext;
      } in
      let es = at_end key e c.store in
      (length ciphertext, record c { store = pop_oldest (length es - max_entries) es })

abbrev clear : Cache → Cache
clear c = record c { store = [] }

abbrev stats : Cache → ℕ × ℕ
stats c = (c.hits, c.misses)

abbrev derive_cache_key : Text → Text → Text
derive_cache_key content_hash render_params = content_hash ++ codes ":" ++ render_params
