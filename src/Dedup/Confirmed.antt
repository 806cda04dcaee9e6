-- ===== src/Dedup/Confirmed.antt =====
-- What stands behind a group that `find_duplicates` of core/dedup.py returns.
use fathomline.Prelude.{
  ℕ, ◌*◌, ◌≤◌, Bool, true, false, List, [], ◌∷◌, ◌++◌, map, keep, length, All, Eq, ◌==◌, ℕ_eq, ltb,
  ◌≡◌, refl, arith, Bool-cases, inl, inr, if◌then◌else◌, Memᴰ, subst, ap,
}
use fathomline.Prelude.Json.{Text, Text_eq}
use fathomline.Prelude.Effect.{Outcome, ok, bind, bind-eq-ok}
use fathomline.Dedup.{
  Candidate, DuplicateGroup, Hasher, KeeperRule, add_to, group_by, confirmed, appended, of_partial,
  of_size, considered, find_duplicates,
}

module _ {ℓ κ} {A : Type ℓ} (P : A → Type κ) where
  All-append : (xs ys : List A) → All P xs → All P ys → All P (xs ++ ys)
  All-append [] ys p q = q
  All-append (x ∷ xs) ys p q = (p.0, All-append xs ys p.1 q)

  All-map : {Q : A → Type κ} (f : (a : A) → P a → Q a) (xs : List A) → All P xs → All Q xs
  All-map f [] p = tt
  All-map f (x ∷ xs) p = (f x p.0, All-map f xs p.1)

module _ {K E : Type 0} ⦃e : Eq K⦄ (P : Candidate → Type 0) (key : Candidate → Outcome E K) where
  -- Each group holds candidates of the given kind whose key is that of the group.
  abbrev pub Grouped : List (K × List Candidate) → Type 0
  Grouped groups = All (λ (g : K × List Candidate). All (λ c. P c × (key c ≡ ok g.0)) g.1) groups

  add_to-Grouped :
      (k : K) (c : Candidate) (groups : List (K × List Candidate))
      → P c
      → key c ≡ ok k
      → Grouped groups
      → Grouped (add_to k c groups)
  unfolding add_to
  add_to-Grouped k c [] p h g = (((p, h), tt), tt)
  add_to-Grouped k c ((j, cs) ∷ groups) p h g = elim (Bool-cases (k == j)) [
    | inl same ↦
        let is_j : key c ≡ ok j = subst (λ x. key c ≡ ok x) ((e.beq_iff k j).0 same) h in
        rw same (All-append (λ d. P d × (key d ≡ ok j)) cs (c ∷ []) g.0 ((p, is_j), tt), g.1)
    | inr other ↦ rw other (g.0, add_to-Grouped k c groups p h g.1)
  ]

  group_by-Grouped :
      (cs : List Candidate) (groups : List (K × List Candidate)) {out : List (K × List Candidate)}
      → All P cs
      → Grouped groups
      → group_by key cs groups ≡ ok out
      → Grouped out
  unfolding group_by
  group_by-Grouped [] groups {out} p g h = subst Grouped (cc) g
  group_by-Grouped (c ∷ cs) groups p g h =
      let (k, found, rest) = bind-eq-ok (key c) (λ k. group_by key cs (add_to k c groups)) h in
      group_by-Grouped cs (add_to k c groups) p.1 (add_to-Grouped k c groups p.0 found g) rest

keep-All :
    (p : Candidate → Bool) (xs : List Candidate) → All (λ c. Memᴰ c xs × (p c ≡ true)) (keep p xs)
keep-All p [] = tt
keep-All p (x ∷ xs) =
    let rest =
      All-map (λ c. Memᴰ c xs × (p c ≡ true))
        (λ c (q : Memᴰ c xs × (p c ≡ true)). (Memᴰ.tail q.0, q.1)) (keep p xs) (keep-All p xs) in
    elim (Bool-cases (p x)) [ inl e ↦ rw e ((Memᴰ.head refl, e), rest) | inr e ↦ rw e rest ]

module _ {E : Type 0} (hasher : Hasher E) (keeper : KeeperRule) (candidates : List Candidate)
    (skip_empty : Bool) where
  abbrev pub Considered : Candidate → Type 0
  Considered c = Memᴰ c candidates × (considered hasher keeper skip_empty c ≡ true)

  -- What a group reports, and why: its members are considered candidates of its size whose content
  -- has its full hash.
  pub record Confirmed (g : DuplicateGroup) : Type 0 where
    pub first : Candidate
    pub others : List Candidate
    pub ids : g.member_ids ≡ map (λ (c : Candidate). c.id) (first ∷ others)
    pub several : 1 ≤ length others
    pub alike :
        All
          (λ (c : Candidate).
            Considered c × (c.size ≡ g.size) × (hasher.full c.path ≡ ok g.full_hash))
          (first ∷ others)
    pub reclaimable : g.reclaimable_bytes ≡ g.size * length others
    pub suggested : g.suggested_keeper_id ≡ (keeper first others).id

  abbrev fine : {A : Type 0} → A → Outcome E A
  fine a = ok a

  abbrev Sized : ℕ → Candidate → Type 0
  Sized size c = Considered c × (c.size ≡ size)

  confirmed-Confirmed :
      (size : ℕ) (groups : List (Text × List Candidate))
      → Grouped (Sized size) (λ c. hasher.full c.path) groups
      → All Confirmed (confirmed hasher keeper size groups)
  unfolding confirmed
  confirmed-Confirmed size [] g = tt
  confirmed-Confirmed size ((h, c ∷ d ∷ rest) ∷ groups) g = (
    record {
      first = c;
      others = d ∷ rest;
      ids = refl;
      several = omega arith;
      alike =
          All-map (λ (x : Candidate). Sized size x × (hasher.full x.path ≡ ok h))
            (λ x q. (q.0.0, q.0.1, q.1)) (c ∷ d ∷ rest) g.0;
      reclaimable = ap (λ n. size * n) (omega arith);
      suggested = refl;
    },
    confirmed-Confirmed size groups g.1,
  )
  confirmed-Confirmed size ((h, []) ∷ groups) g = confirmed-Confirmed size groups g.1
  confirmed-Confirmed size ((h, c ∷ []) ∷ groups) g = confirmed-Confirmed size groups g.1

  of_ok : (xs ys : List DuplicateGroup) → fine xs ≡ ok ys → All Confirmed xs → All Confirmed ys
  of_ok xs ys h p = let e : xs ≡ ys = ground arith in subst (All Confirmed) e p

  -- `continue` for a group of fewer than two.
  guarded :
      (few : Bool) (m : Outcome E (List DuplicateGroup)) (out : List DuplicateGroup)
      → (m ≡ ok out → All Confirmed out)
      → (if few then ok [] else m) ≡ ok out
      → All Confirmed out
  guarded true m out rest h = of_ok [] out h tt
  guarded false m out rest h = rest h

  appended-Confirmed :
      {A : Type 0} (Q : A → Type 0) (f : A → Outcome E (List DuplicateGroup))
      → ((a : A) (out : List DuplicateGroup) → Q a → f a ≡ ok out → All Confirmed out)
      → (xs : List A) {out : List DuplicateGroup} → All Q xs
      → appended hasher keeper f xs ≡ ok out
      → All Confirmed out
  appended-Confirmed Q f each [] {out} q h = of_ok [] out h tt
  appended-Confirmed Q f each (a ∷ xs) {out} q h =
      let (gs, one, h₁) =
        bind-eq-ok (f a) (λ gs. bind (appended hasher keeper f xs) (λ hs. ok (gs ++ hs))) h in
      let (hs, more, h₂) = bind-eq-ok (appended hasher keeper f xs) (λ hs. ok (gs ++ hs)) h₁ in
      let all : All Confirmed (gs ++ hs) =
        All-append Confirmed gs hs (each a gs q.0 one) (appended-Confirmed Q f each xs q.1 more) in
      of_ok (gs ++ hs) out h₂ all

  of_partial-Confirmed :
      (size : ℕ) (g : Text × List Candidate) (out : List DuplicateGroup)
      → All (Sized size) g.1
      → of_partial hasher keeper size g ≡ ok out
      → All Confirmed out
  unfolding of_partial
  of_partial-Confirmed size (k, members) out q = guarded (ltb (length members) 2) _ out (λ h.
      let (groups, found, e) =
        bind-eq-ok (group_by (λ (c : Candidate). hasher.full c.path) members [])
          (λ groups. ok (confirmed hasher keeper size groups)) h in
      of_ok (confirmed hasher keeper size groups) out e (
        confirmed-Confirmed size groups
          (group_by-Grouped (Sized size) (λ c. hasher.full c.path) members [] q tt found)))

  of_size-Confirmed :
      (g : ℕ × List Candidate) (out : List DuplicateGroup)
      → All (λ c. Considered c × (fine c.size ≡ ok g.0)) g.1
      → of_size hasher keeper g ≡ ok out
      → All Confirmed out
  unfolding of_size
  of_size-Confirmed (size, sized) out q = guarded (ltb (length sized) 2) _ out (λ h.
      let (groups, found, e) =
        bind-eq-ok (group_by (λ (c : Candidate). hasher.partial c.path size) sized [])
          (λ groups. appended hasher keeper (of_partial hasher keeper size) groups) h in
      let of_size : All (Sized size) sized =
        All-map (λ (c : Candidate). Considered c × (fine c.size ≡ ok size))
          (λ c p. (p.0, ground (arith, p.1))) sized q in
      appended-Confirmed (λ (g : Text × List Candidate). All (Sized size) g.1)
        (of_partial hasher keeper size) (of_partial-Confirmed size) groups
        (All-map
          (λ (g : Text × List Candidate).
            All (λ (c : Candidate). Sized size c × (hasher.partial c.path size ≡ ok g.0)) g.1)
          (λ g p.
            All-map (λ (c : Candidate). Sized size c × (hasher.partial c.path size ≡ ok g.0))
              (λ c r. r.0) g.1 p)
          groups
          (group_by-Grouped (Sized size) (λ c. hasher.partial c.path size) sized [] of_size tt
            found))
        e)

  -- Every group of a search that does not raise is confirmed: it lists at least two members, all of
  -- them candidates that were not skipped as empty, of the group's size and with the group's full
  -- hash as the hash of their whole content; what it calls reclaimable is its size for each member
  -- but one, and the suggested keeper is what the rule chooses of the members.
  pub find_duplicates-Confirmed :
      (out : List DuplicateGroup)
      → find_duplicates hasher keeper candidates skip_empty ≡ ok out
      → All Confirmed out
  unfolding find_duplicates
  find_duplicates-Confirmed out h =
      let live = keep (considered hasher keeper skip_empty) candidates in
      let (groups, found, e) =
        bind-eq-ok (group_by (λ (c : Candidate). fine c.size) live [])
          (λ by_size. appended hasher keeper (of_size hasher keeper) by_size) h in
      appended-Confirmed
        (λ (g : ℕ × List Candidate). All (λ c. Considered c × (fine c.size ≡ ok g.0)) g.1)
        (of_size hasher keeper) of_size-Confirmed groups
        (group_by-Grouped Considered (λ c. ok c.size) live []
          (keep-All (considered hasher keeper skip_empty) candidates) tt found)
        e
