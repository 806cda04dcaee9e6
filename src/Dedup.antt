-- ===== src/Dedup.antt =====
-- core/dedup.py: groups of files with the same content. The hasher is a parameter; each of its two
-- stages returns a digest or raises.
pub mod Provider
pub mod Confirmed
pub mod Complete
mod Tests
use fathomline.Prelude.{
  ℕ, zero, suc, ◌+◌, ◌*◌, ◌-◌, Bool, true, false, not, ◌&&◌, ◌||◌, Option, none, some, List, [],
  ◌∷◌, ◌++◌, map, keep, length, if◌then◌else◌, Eq, ◌==◌, ℕ_eq, ltb,
}
use fathomline.Prelude.Json.{Text, Text_eq}
use fathomline.Prelude.Path.{slash}
use fathomline.Prelude.Effect.{Outcome, ok, raised, bind}
use fathomline.Remediation.Plan.{EntryId}

pub record Candidate : Type 0 where
  pub id : EntryId
  pub path : Text
  pub size : ℕ
  pub dev : ℕ

pub record DuplicateGroup : Type 0 where
  pub full_hash : Text
  pub size : ℕ
  pub member_ids : List EntryId
  pub reclaimable_bytes : ℕ
  pub suggested_keeper_id : EntryId

pub record Hasher (E : Type 0) : Type 0 where
  pub partial : Text → ℕ → Outcome E Text
  pub full : Text → Outcome E Text

-- A rule chooses from the first of the members and the others.
abbrev pub KeeperRule : Type 0
KeeperRule = Candidate → List Candidate → Candidate

abbrev depth : Text → ℕ
depth [] = 0
depth (b ∷ t) = let rest = depth t in if b == slash then suc rest else rest

-- The order of Python's strings.
abbrev text_lt : Text → Text → Bool
text_lt [] [] = false
text_lt [] (y ∷ t) = true
text_lt (x ∷ s) [] = false
text_lt (x ∷ s) (y ∷ t) = let rest = text_lt s t in ltb x y || x == y && rest

abbrev before : Candidate → Candidate → Bool
before c d =
    ltb (depth c.path) (depth d.path) || depth c.path == depth d.path && text_lt c.path d.path

-- `min` returns the first of the least.
unfoldable pub keep_shortest_path : KeeperRule
keep_shortest_path c [] = c
keep_shortest_path c (d ∷ rest) = keep_shortest_path (if before d c then d else c) rest

module _ {K : Type 0} ⦃e : Eq K⦄ where
  -- `groups[k].append(c)` on a `defaultdict(list)`, which keeps its keys in the order of insertion.
  unfoldable pub add_to : K → Candidate → List (K × List Candidate) → List (K × List Candidate)
  add_to k c [] = (k, c ∷ []) ∷ []
  add_to k c ((j, cs) ∷ groups) =
      let rest = add_to k c groups in if k == j then (j, cs ++ c ∷ []) ∷ groups else (j, cs) ∷ rest

  module _ {E : Type 0} (key : Candidate → Outcome E K) where
    unfoldable pub group_by :
        List Candidate → List (K × List Candidate) → Outcome E (List (K × List Candidate))
    unfolding add_to
    group_by [] groups = ok groups
    group_by (c ∷ cs) groups = bind (key c) (λ k. group_by cs (add_to k c groups))

module _ {E : Type 0} (hasher : Hasher E) (keeper : KeeperRule) where
  abbrev pub group_of : ℕ → Text → Candidate → List Candidate → DuplicateGroup
  group_of size full_hash c rest = record {
    full_hash = full_hash;
    size = size;
    member_ids = map (λ (m : Candidate). m.id) (c ∷ rest);
    reclaimable_bytes = size * (length (c ∷ rest) - 1);
    suggested_keeper_id = (keeper c rest).id;
  }

  -- The innermost loop: groups of fewer than two are passed over.
  unfoldable pub confirmed : ℕ → List (Text × List Candidate) → List DuplicateGroup
  confirmed size [] = []
  confirmed size ((h, c ∷ d ∷ rest) ∷ groups) = group_of size h c (d ∷ rest) ∷ confirmed size groups
  confirmed size ((h, _) ∷ groups) = confirmed size groups

  abbrev pub appended :
      {A : Type 0}
      → (A → Outcome E (List DuplicateGroup))
      → List A
      → Outcome E (List DuplicateGroup)
  appended f [] = ok []
  appended f (a ∷ rest) = bind (f a) (λ gs. bind (appended f rest) (λ hs. ok (gs ++ hs)))

  unfoldable pub of_partial : ℕ → Text × List Candidate → Outcome E (List DuplicateGroup)
  unfolding group_by confirmed
  of_partial size (_, members) =
      if ltb (length members) 2
      then ok []
      else bind (group_by (λ (c : Candidate). hasher.full c.path) members [])
          (λ groups. ok (confirmed size groups))

  unfoldable pub of_size : ℕ × List Candidate → Outcome E (List DuplicateGroup)
  unfolding group_by of_partial
  of_size (size, sized) =
      if ltb (length sized) 2
      then ok []
      else bind (group_by (λ (c : Candidate). hasher.partial c.path size) sized [])
          (λ groups. appended (of_partial size) groups)

  abbrev pub considered : Bool → Candidate → Bool
  considered skip_empty c = not (skip_empty && c.size == 0)

  unfoldable pub find_duplicates : List Candidate → Bool → Outcome E (List DuplicateGroup)
  unfolding group_by of_size
  find_duplicates candidates skip_empty =
      bind (group_by (λ (c : Candidate). ok c.size) (keep (considered skip_empty) candidates) [])
        (λ by_size. appended of_size by_size)
