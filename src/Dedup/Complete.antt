-- ===== src/Dedup/Complete.antt =====
-- What `find_duplicates` of core/dedup.py finds.
use fathomline.Prelude.{
  ℕ, Bool, false, ◌&&◌, List, [], ◌∷◌, ◌++◌, keep, length, length-keep, Eq, ◌==◌, ℕ_eq, ltb, ◌≡◌,
  refl, arith, Bool-cases, inl, inr, if◌then◌else◌, Memᴰ, subst, sym, ap, ◌∙◌,
}
use mathlib.Core.List.{append_assoc, append-nil}
use fathomline.Prelude.Json.{Text, Text_eq}
use fathomline.Prelude.Effect.{Outcome, ok, raised, bind, bind-eq-ok}
use fathomline.Dedup.{
  Candidate, DuplicateGroup, Hasher, KeeperRule, add_to, group_by, group_of, confirmed, appended,
  of_partial, of_size, considered, find_duplicates,
}

-- Whether a call has returned this value.
abbrev pub returns : {K E : Type 0} ⦃e : Eq K⦄ → Outcome E K → K → Bool
returns (ok j) k = k == j
returns (raised x) k = false

keep-keep {ℓ} :
    {A : Type ℓ} (p q : A → Bool) (xs : List A) → keep q (keep p xs) ≡ keep (λ x. p x && q x) xs
keep-keep p q [] = refl
keep-keep p q (x ∷ xs) = ground (arith, keep-keep p q xs)

module _ {K : Type 0} ⦃e : Eq K⦄ where
  -- The members of the group with this key.
  abbrev members_of : K → List (K × List Candidate) → List Candidate
  members_of k [] = []
  members_of k ((j, cs) ∷ groups) = let rest = members_of k groups in if k == j then cs else rest

  members_of-add_to :
      (k j : K) (c : Candidate) (groups : List (K × List Candidate))
      → members_of k (add_to j c groups)
        ≡ (if k == j then members_of k groups ++ c ∷ [] else members_of k groups)
  unfolding add_to
  members_of-add_to k j c [] = refl
  members_of-add_to k j c ((i, cs) ∷ groups) =
      ground (arith, members_of-add_to k j c groups, e.beq_iff k i, e.beq_iff j i, e.beq_iff k j)

  members_of-group_by :
      {E : Type 0} (key : Candidate → Outcome E K) (k : K) (cs : List Candidate)
      (groups : List (K × List Candidate)) {out : List (K × List Candidate)}
      → group_by key cs groups ≡ ok out
      → members_of k out ≡ members_of k groups ++ keep (λ c. returns (key c) k) cs
  unfolding group_by
  members_of-group_by key k [] groups {out} h =
      let same : groups ≡ out = ground arith in ap (members_of k) (sym same) ∙ sym (append-nil _)
  members_of-group_by key k (c ∷ cs) groups h =
      let (j, found, rest) = bind-eq-ok (key c) (λ j. group_by key cs (add_to j c groups)) h in
      members_of-group_by key k cs (add_to j c groups) rest ∙ elim (Bool-cases (k == j)) [
        | inl same ↦ rw (members_of-add_to, found, same, append_assoc)
        | inr other ↦ rw (members_of-add_to, found, other)
      ]

  group_there :
      (k : K) (groups : List (K × List Candidate)) {c : Candidate} {rest : List Candidate}
      → members_of k groups ≡ c ∷ rest
      → Memᴰ (k, c ∷ rest) groups
  group_there k [] h = cc
  group_there k ((j, cs) ∷ groups) {c} {rest} h = elim (Bool-cases (k == j)) [
    | inl same ↦
        let p : k ≡ j = (e.beq_iff k j).0 same in
        let q : cs ≡ c ∷ rest = ground arith in Memᴰ.head (λ i. (p i, sym q i))
    | inr other ↦ Memᴰ.tail (group_there k groups (ground arith))
  ]

module _ {ℓ} {A : Type ℓ} where
  here_or_there : (x : A) (xs ys : List A) → Memᴰ x xs → Memᴰ x (xs ++ ys)
  here_or_there x [] ys m = elim m [ ]
  here_or_there x (y ∷ xs) ys (Memᴰ.head p) = Memᴰ.head p
  here_or_there x (y ∷ xs) ys (Memᴰ.tail m) = Memᴰ.tail (here_or_there x xs ys m)

  further_on : (x : A) (xs ys : List A) → Memᴰ x ys → Memᴰ x (xs ++ ys)
  further_on x [] ys m = m
  further_on x (y ∷ xs) ys m = Memᴰ.tail (further_on x xs ys m)

module _ {E : Type 0} (hasher : Hasher E) (keeper : KeeperRule) where
  next-confirmed :
      (size : ℕ) (g : DuplicateGroup) (entry : Text × List Candidate)
      (groups : List (Text × List Candidate))
      → Memᴰ g (confirmed hasher keeper size groups)
      → Memᴰ g (confirmed hasher keeper size (entry ∷ groups))
  unfolding confirmed
  next-confirmed size g (h, []) groups m = m
  next-confirmed size g (h, c ∷ []) groups m = m
  next-confirmed size g (h, c ∷ d ∷ rest) groups m = Memᴰ.tail m

  confirmed_there :
      (size : ℕ) (h : Text) (c d : Candidate) (rest : List Candidate)
      (groups : List (Text × List Candidate))
      → Memᴰ (h, c ∷ d ∷ rest) groups
      → Memᴰ (group_of hasher keeper size h c (d ∷ rest)) (confirmed hasher keeper size groups)
  unfolding confirmed
  confirmed_there size h c d rest [] m = elim m [ ]
  confirmed_there size h c d rest (entry ∷ groups) (Memᴰ.head p) =
      subst
        (λ e.
          Memᴰ (group_of hasher keeper size h c (d ∷ rest))
            (confirmed hasher keeper size (e ∷ groups)))
        p (Memᴰ.head refl)
  confirmed_there size h c d rest (entry ∷ groups) (Memᴰ.tail m) =
      next-confirmed size _ entry groups (confirmed_there size h c d rest groups m)

  appended_parts :
      {A : Type 0} (f : A → Outcome E (List DuplicateGroup)) (x : A) (xs : List A)
      {out : List DuplicateGroup}
      → appended hasher keeper f (x ∷ xs) ≡ ok out
      → (gs : List DuplicateGroup) × (hs : List DuplicateGroup) × (f x ≡ ok gs)
        × (appended hasher keeper f xs ≡ ok hs)
        × (gs ++ hs ≡ out)
  appended_parts f x xs h =
      let (gs, one, h₁) =
        bind-eq-ok (f x) (λ gs. bind (appended hasher keeper f xs) (λ hs. ok (gs ++ hs))) h in
      let (hs, more, h₂) = bind-eq-ok (appended hasher keeper f xs) (λ hs. ok (gs ++ hs)) h₁ in
      (gs, hs, one, more, ground arith)

  appended_there :
      {A : Type 0} (f : A → Outcome E (List DuplicateGroup)) (a : A) (xs : List A)
      {out : List DuplicateGroup}
      → Memᴰ a xs
      → appended hasher keeper f xs ≡ ok out
      → (gs : List DuplicateGroup) × (f a ≡ ok gs) × ((g : DuplicateGroup) → Memᴰ g gs → Memᴰ g out)
  appended_there f a [] m h = elim m [ ]
  appended_there f a (x ∷ xs) (Memᴰ.head p) h =
      let (gs, hs, one, more, whole) = appended_parts f x xs h in
      (gs, ap f p ∙ one, λ g i. subst (Memᴰ g) whole (here_or_there g gs hs i))
  appended_there f a (x ∷ xs) (Memᴰ.tail t) h =
      let (gs, hs, one, more, whole) = appended_parts f x xs h in
      let (ks, e, in_hs) = appended_there f a xs t more in
      (ks, e, λ g i. subst (Memᴰ g) whole (further_on g gs hs (in_hs g i)))

  -- The members of the groups that are confirmed in one of the inner loops.
  of_partial_there :
      (size : ℕ) (p h : Text) (members : List Candidate) (c d : Candidate) (rest : List Candidate)
      {out : List DuplicateGroup}
      → of_partial hasher keeper size (p, members) ≡ ok out
      → keep (λ (m : Candidate). returns (hasher.full m.path) h) members ≡ c ∷ d ∷ rest
      → Memᴰ (group_of hasher keeper size h c (d ∷ rest)) out
  unfolding of_partial
  of_partial_there size p h members c d rest {out} found alike =
      let enough : ltb (length members) 2 ≡ false = ground (
        arith,
        length-keep (λ (m : Candidate). returns (hasher.full m.path) h) members,
        ap length alike,
      ) in
      let (groups, grouped, e) =
        bind-eq-ok (group_by (λ (m : Candidate). hasher.full m.path) members [])
          (λ groups. ok (confirmed hasher keeper size groups)) (rw enough at found) in
      let all : confirmed hasher keeper size groups ≡ out = ground arith in
      subst (Memᴰ (group_of hasher keeper size h c (d ∷ rest))) all (
        confirmed_there size h c d rest groups (
          group_there h groups (
            members_of-group_by (λ (m : Candidate). hasher.full m.path) h members [] grouped
            ∙ alike)))

  a_first :
      (q : Candidate → Bool) (ms : List Candidate) {c : Candidate} {rest : List Candidate}
      → keep q ms ≡ c ∷ rest
      → (x : Candidate) × (xs : List Candidate) × (ms ≡ x ∷ xs)
  a_first q [] h = cc
  a_first q (x ∷ xs) h = (x, xs, refl)

  -- Whether both digests of a file are these.
  abbrev pub digests : ℕ → Text → Text → Candidate → Bool
  digests size p h c = returns (hasher.partial c.path size) p && returns (hasher.full c.path) h

  of_size_there :
      (size : ℕ) (p h : Text) (sized : List Candidate) (c d : Candidate) (rest : List Candidate)
      {out : List DuplicateGroup}
      → of_size hasher keeper (size, sized) ≡ ok out
      → keep (digests size p h) sized ≡ c ∷ d ∷ rest
      → Memᴰ (group_of hasher keeper size h c (d ∷ rest)) out
  unfolding of_size
  of_size_there size p h sized c d rest found alike =
      let enough : ltb (length sized) 2 ≡ false =
        ground (arith, length-keep (digests size p h) sized, ap length alike) in
      let (groups, grouped, e) =
        bind-eq-ok (group_by (λ (m : Candidate). hasher.partial m.path size) sized [])
          (λ groups. appended hasher keeper (of_partial hasher keeper size) groups)
          (rw enough at found) in
      let in_two =
        keep-keep (λ (m : Candidate). returns (hasher.partial m.path size) p)
          (λ (m : Candidate). returns (hasher.full m.path) h) sized
        ∙ alike in
      let (x, xs, first) = a_first (λ (m : Candidate). returns (hasher.full m.path) h) _ in_two in
      let (gs, partly, in_out) =
        appended_there (of_partial hasher keeper size) (p, x ∷ xs) groups
          (group_there p groups (
            members_of-group_by (λ (m : Candidate). hasher.partial m.path size) p sized [] grouped
            ∙ first))
          e in
      in_out _ (
        of_partial_there size p h (x ∷ xs) c d rest partly
          (ap (keep (λ (m : Candidate). returns (hasher.full m.path) h)) (sym first) ∙ in_two))

  module _ (candidates : List Candidate) (skip_empty : Bool) where
    -- The candidates of this size with these two digests, in their order.
    abbrev pub same_content : ℕ → Text → Text → List Candidate
    same_content size p h =
        keep (λ c. considered hasher keeper skip_empty c && (size == c.size && digests size p h c))
          candidates

    -- A search that does not raise finds all duplicates: whenever two or more of the candidates
    -- that are not skipped as empty have one size and the same partial and full hash, it returns
    -- the group of all of them, in the order of the candidates.
    pub find_duplicates-complete :
        (out : List DuplicateGroup) (size : ℕ) (p h : Text) (c d : Candidate)
        (rest : List Candidate)
        → find_duplicates hasher keeper candidates skip_empty ≡ ok out
        → same_content size p h ≡ c ∷ d ∷ rest
        → Memᴰ (group_of hasher keeper size h c (d ∷ rest)) out
    unfolding find_duplicates
    find_duplicates-complete out size p h c d rest found alike =
        let live = keep (considered hasher keeper skip_empty) candidates in
        let (groups, grouped, e) =
          bind-eq-ok (group_by (λ (m : Candidate). ok m.size) live [])
            (λ by_size. appended hasher keeper (of_size hasher keeper) by_size) found in
        let of_live =
          keep-keep (considered hasher keeper skip_empty)
            (λ m. size == m.size && digests size p h m) candidates
          ∙ alike in
        let of_sized =
          keep-keep (λ (m : Candidate). size == m.size) (digests size p h) live ∙ of_live in
        let (x, xs, first) = a_first (digests size p h) _ of_sized in
        let (gs, sized, in_out) =
          appended_there (of_size hasher keeper) (size, x ∷ xs) groups
            (group_there size groups
              (members_of-group_by (λ (m : Candidate). ok m.size) size live [] grouped ∙ first))
            e in
        in_out _ (
          of_size_there size p h (x ∷ xs) c d rest sized
            (ap (keep (digests size p h)) (sym first) ∙ of_sized))
