-- ===== src/Dedup/Provider/InScope.antt =====
-- What the groups of core/provider_dedup.py list, and that they stay in a principal's scope.
use fathomline.Prelude.{
  ℕ, ◌≤◌, Bool, true, false, Option, none, some, List, [], ◌∷◌, ◌++◌, length, All, Memᴰ, ltb, ℕ_eq,
  ◌≡◌, refl, arith, subst, sym, ◌∙◌, Bool-cases, inl, inr,
}
use fathomline.Prelude.Json.{Text, Text_eq}
use fathomline.Auth.Scope.{ScopeFilter, apply, check_target}
use fathomline.Auth.Scope.Access.{allowed}
use fathomline.Dedup.Provider.{
  HashedRow, ProviderDupMember, HashKey, same_hash_key, ProviderDupGroup, Streamed, scoped_row,
  in_volumes, wanted, with_hashes, selected, make_group, is_current, groups_from, no_volumes,
  iter_provider_hash_duplicates,
}

key_sound : (k j : HashKey) → same_hash_key k j ≡ true → k ≡ j
key_sound (a, h, n) (b, g, m) e =
    let p : a ≡ b = (Text_eq.beq_iff a b).0 (ground (arith, e)) in
    let q : h ≡ g = (Text_eq.beq_iff h g).0 (ground (arith, e)) in
    let r : n ≡ m = ground (arith, e) in λ i. (p i, q i, r i)

module _ {A : Type 0} (P : A → Type 0) where
  All-at : (xs : List A) (x : A) → All P xs → Memᴰ x xs → P x
  All-at [] x a m = elim m [ ]
  All-at (y ∷ xs) x a (Memᴰ.head e) = subst P (sym e) a.0
  All-at (y ∷ xs) x a (Memᴰ.tail m) = All-at xs x a.1 m

  All-of : (xs ys : List A) → All P xs → ((y : A) → Memᴰ y ys → Memᴰ y xs) → All P ys
  All-of xs [] a sub = tt
  All-of xs (y ∷ ys) a sub =
      (All-at xs y a (sub y (Memᴰ.head refl)), All-of xs ys a (λ z m. sub z (Memᴰ.tail m)))

abbrev in_scope : Option ScopeFilter → HashedRow → Bool
in_scope none r = true
in_scope (some f) r = allowed (check_target f r.host_id (some r.volume_id) none)

scoped_by_sets :
    (g : Bool) (hs vs : List ℕ) (r : HashedRow)
    → scoped_row (some (record { is_global = g; host_ids = hs; volume_ids = vs })) r
      ≡ in_scope (some (record { is_global = g; host_ids = hs; volume_ids = vs })) r
unfolding apply check_target
scoped_by_sets g [] [] r = ground arith
scoped_by_sets g (h ∷ hs) [] r = ground arith
scoped_by_sets g [] (v ∷ vs) r = ground arith
scoped_by_sets g (h ∷ hs) (v ∷ vs) r = ground arith

scoped_row-in_scope :
    (scope : Option ScopeFilter) (r : HashedRow) → scoped_row scope r ≡ in_scope scope r
scoped_row-in_scope none r = refl
scoped_row-in_scope (some f) r = scoped_by_sets f.is_global f.host_ids f.volume_ids r

module _ (scope : Option ScopeFilter) (volume_ids : Option (List ℕ)) (table : List HashedRow) where
  -- A row of the catalogue that stands behind a member of a group.
  pub record IsOf (key : HashKey) (m : ProviderDupMember) : Type 0 where
    pub row : HashedRow
    pub in_table : Memᴰ row table
    pub described : m ≡ record {
      entry_id = row.id;
      host_id = row.host_id;
      volume_id = row.volume_id;
      path = row.path;
    }
    pub algo : row.provider_hash_algo ≡ some key.0
    pub hash : row.provider_hash ≡ some key.1
    pub size : row.size_logical ≡ key.2
    pub live_file : (row.present ≡ true) × (row.is_dir ≡ false)
    pub of_volumes : in_volumes volume_ids row ≡ true
    pub of_scope : in_scope scope row ≡ true

  abbrev Backed : Streamed → Type 0
  Backed s = IsOf s.0 s.1

  with_hashes-Backed :
      (algo phash : Option Text) (r : HashedRow) (rest : List Streamed)
      → Memᴰ r table
      → wanted scope volume_ids r ≡ true
      → r.provider_hash_algo ≡ algo
      → r.provider_hash ≡ phash
      → All Backed rest
      → All Backed (with_hashes algo phash r rest)
  with_hashes-Backed none phash r rest m w a h b = b
  with_hashes-Backed (some algo) none r rest m w a h b = b
  with_hashes-Backed (some algo) (some phash) r rest m w a h b = (
    record {
      row = r;
      in_table = m;
      described = refl;
      algo = a;
      hash = h;
      size = refl;
      live_file = (ground (arith, w), ground (arith, w));
      of_volumes = ground (arith, w);
      of_scope = sym (scoped_row-in_scope scope r) ∙ ground (arith, w);
    },
    b,
  )

  selected-Backed :
      (rows : List HashedRow)
      → ((r : HashedRow) → Memᴰ r rows → Memᴰ r table)
      → All Backed (selected scope volume_ids rows)
  unfolding selected
  selected-Backed [] sub = tt
  selected-Backed (r ∷ rows) sub =
      let rest = selected-Backed rows (λ x m. sub x (Memᴰ.tail m)) in
      elim (Bool-cases (wanted scope volume_ids r)) [
        | inl w ↦ rw w (
            with_hashes-Backed r.provider_hash_algo r.provider_hash r
              (selected scope volume_ids rows) (sub r (Memᴰ.head refl)) w refl refl rest)
        | inr w ↦ rw w rest
      ]

  -- A group as it should be.
  pub record IsSound (min_members : ℕ) (g : ProviderDupGroup) : Type 0 where
    pub enough : min_members ≤ length g.members
    pub backed : All (IsOf g.key) g.members

  Current : Option HashKey → List ProviderDupMember → Type 0
  Current none cur = Unit
  Current (some key) cur = All (IsOf key) cur

  make_group-IsSound :
      (k : Option HashKey) (cur : List ProviderDupMember) (min_members : ℕ)
      (rest : List ProviderDupGroup)
      → Current k cur
      → All (IsSound min_members) rest
      → All (IsSound min_members) (make_group k cur min_members rest)
  unfolding Current
  make_group-IsSound none cur min_members rest c r = r
  make_group-IsSound (some key) cur min_members rest c r =
      elim (Bool-cases (ltb (length cur) min_members)) [
        | inl few ↦ rw few r
        | inr many ↦ rw many (record { enough = ground (arith, many); backed = c }, r)
      ]

  All-append :
      (key : HashKey) (xs : List ProviderDupMember) (m : ProviderDupMember)
      → All (IsOf key) xs
      → IsOf key m
      → All (IsOf key) (xs ++ m ∷ [])
  All-append key [] m a b = (b, tt)
  All-append key (x ∷ xs) m a b = (a.0, All-append key xs m a.1 b)

  joins :
      (k : Option HashKey) (cur : List ProviderDupMember) (key : HashKey) (m : ProviderDupMember)
      → is_current k key ≡ true
      → Current k cur
      → IsOf key m
      → Current k (cur ++ m ∷ [])
  unfolding Current
  joins none cur key m h c b = tt
  joins (some cur_key) cur key m h c b =
      let same : key ≡ cur_key = key_sound key cur_key h in
      All-append cur_key cur m c (subst (λ x. IsOf x m) same b)

  groups_from-IsSound :
      (min_members : ℕ) (k : Option HashKey) (cur : List ProviderDupMember) (rows : List Streamed)
      → Current k cur
      → All Backed rows
      → All (IsSound min_members) (groups_from min_members k cur rows)
  unfolding groups_from Current
  groups_from-IsSound min_members k cur [] c b = make_group-IsSound k cur min_members [] c tt
  groups_from-IsSound min_members k cur ((key, m) ∷ rows) c b =
      let alone = groups_from-IsSound min_members (some key) (m ∷ []) rows (b.0, tt) b.1 in
      elim (Bool-cases (is_current k key)) [
        | inl e ↦
            rw e (
              groups_from-IsSound min_members k (cur ++ m ∷ []) rows (joins k cur key m e c b.0)
                b.1)
        | inr e ↦ rw e (make_group-IsSound k cur min_members _ c alone)
      ]

  -- Whatever order the database streams the rows of the query in: every group has at least
  -- `min_members` members, and each stands for a live file of the catalogue that has the group's
  -- algorithm, hash and size, lies in one of the volumes that were asked for, and is a target that
  -- `check_target` accepts under the scope when it is not told the kind of the volume.
  pub iter_provider_hash_duplicates-IsSound :
      (order : List Streamed → List Streamed) (min_members : ℕ)
      → ((xs : List Streamed) (x : Streamed) → Memᴰ x (order xs) → Memᴰ x xs)
      → All
          (IsSound min_members)
          (iter_provider_hash_duplicates order scope volume_ids min_members table)
  unfolding iter_provider_hash_duplicates
  iter_provider_hash_duplicates-IsSound order min_members only =
      elim (Bool-cases (no_volumes volume_ids)) [
        | inl e ↦ rw e tt
        | inr e ↦ rw e (
            groups_from-IsSound min_members none [] (order (selected scope volume_ids table))
              (unfold Current in tt)
              (All-of Backed (selected scope volume_ids table) _ (selected-Backed table (λ r m. m))
                (only (selected scope volume_ids table))))
      ]
