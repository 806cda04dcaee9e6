-- ===== src/Preview/Cache/Bounded.antt =====
-- The bound of the cache of preview/cache.py, and what it gives back.
use fathomline.Prelude.{
  ℕ, zero, suc, ◌+◌, ◌-◌, ◌≤◌, ◌<◌, none, some, [], ◌∷◌, ◌++◌, length, length-append, ◌==◌, ==_refl,
  ◌≡◌, refl, arith, Bool-cases, inl, inr,
}
use fathomline.Prelude.Json.{Text, Text_eq}
use fathomline.Preview.Cache.{
  Fernet, CacheEntry, Entries, Cache, entry_at, without, at_end, pop_oldest, get, put,
}

length-pop_oldest : (n : ℕ) (es : Entries) → length (pop_oldest n es) ≡ length es - n
length-pop_oldest zero es = omega arith
length-pop_oldest (suc n) [] = omega arith
length-pop_oldest (suc n) (e ∷ es) = omega (arith, length-pop_oldest n es)

entry_at-without : (key : Text) (es : Entries) → entry_at key (without key es) ≡ none
entry_at-without key [] = refl
entry_at-without key ((k, e) ∷ es) = elim (Bool-cases (key == k)) [
  | inl h ↦ rw h (entry_at-without key es)
  | inr h ↦ rw (h, h) (entry_at-without key es)
]

-- The latest entry stays unless everything goes.
latest_stays :
    (key : Text) (e : CacheEntry) (n : ℕ) (es : Entries)
    → entry_at key es ≡ none
    → n ≤ length es
    → entry_at key (pop_oldest n (es ++ (key, e) ∷ [])) ≡ some e
latest_stays key e zero [] h b = rw (==_refl key) refl
latest_stays key e zero ((k, x) ∷ es) h b = elim (Bool-cases (key == k)) [
  | inl m ↦ absurd (ground (arith, m, h))
  | inr m ↦ rw m (latest_stays key e zero es (ground (arith, m, h)) (omega arith))
]
latest_stays key e (suc n) [] h b = absurd (omega (arith, b))
latest_stays key e (suc n) ((k, x) ∷ es) h b = elim (Bool-cases (key == k)) [
  | inl m ↦ absurd (ground (arith, m, h))
  | inr m ↦ latest_stays key e n es (ground (arith, m, h)) (omega (arith, b))
]

module _ {R : Type 0} (f : Fernet R) (max_entries : ℕ) where
  -- When there is room for one entry and the cipher opens what it has sealed: after a `put` the cache
  -- has at most `max_entries` entries, whatever it had before; a `get` for the key returns the result
  -- marked as a hit, and counts a hit, as long as its time has not run out; from then on it returns
  -- nothing and counts a miss.
  pub get-put :
      (key : Text) (r : R) (ttl now later : ℕ) (c : Cache)
      → ((x : R) → f.decrypt (f.encrypt x) ≡ some x)
      → 0 < max_entries
      → let c' = (put f max_entries key r ttl now c).1 in
        let answer = get f max_entries key later c' in
        (length c'.store ≤ max_entries)
        × (later < now + ttl → (answer.0 ≡ some (f.as_hit r)) × (answer.1.hits ≡ suc c.hits))
        × (now + ttl ≤ later → (answer.0 ≡ none) × (answer.1.misses ≡ suc c.misses))
  unfolding put get
  get-put key r ttl now later c opens some_room =
      let e : CacheEntry = record {
        ciphertext = f.encrypt r;
        expires_at = now + ttl;
        size = length (f.encrypt r);
      } in
      let es = at_end key e c.store in
      let stored =
        latest_stays key e (length es - max_entries) (without key c.store)
          (entry_at-without key c.store)
          (omega (arith, length-append (without key c.store) ((key, e) ∷ []), some_room)) in
      (
        omega (arith, length-pop_oldest (length es - max_entries) es),
        λ b. ground (arith, stored, b, opens r),
        λ b. ground (arith, stored, b),
      )
