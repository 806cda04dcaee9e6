-- ===== src/Remediation/Plan/Building.antt =====
-- What a plan built by core/remediation/plan.py acts on.
use fathomline.Prelude.{
  ◌+◌, Bool, true, false, not, ◌&&◌, Option, none, some, List, [], ◌∷◌, map, keep, find, any, All,
  length, Memᴰ, ◌≡◌, ◌↔◌, ◌≢◌, refl, sym, arith, Bool-cases, inl, inr,
}
use fathomline.Prelude.Json.{Text, Text_eq}
use fathomline.Prelude.Effect.{Outcome, ok, raised}
use fathomline.Remediation.Plan.{
  PlanAction, EntryId, int, text, entry_id_eq, Member, PlanItem, RemediationPlan, new_plan,
  item_for, is_keeper, is_empty, build_plan, plan_for_keeper,
}

pub entry_id_eq_iff : (a b : EntryId) → (entry_id_eq a b ≡ true) ↔ (a ≡ b)
entry_id_eq_iff (int a) (int b) = ground arith
entry_id_eq_iff (text a) (text b) = ground (arith, Text_eq.beq_iff a b)
entry_id_eq_iff (int a) (text b) = ground arith
entry_id_eq_iff (text a) (int b) = ground arith

module _ (full_hash : Text) (action : PlanAction) (keep_id : EntryId) where
  abbrev acted_on : List Member → List PlanItem
  acted_on members = map (item_for full_hash action) (keep (λ m. not (is_keeper keep_id m)) members)

  spares_keeper :
      (members : List Member) → All (λ (i : PlanItem). i.entry_id ≢ keep_id) (acted_on members)
  spares_keeper [] = tt
  spares_keeper (m ∷ members) = elim (Bool-cases (is_keeper keep_id m)) [
    | inl e ↦ rw e (spares_keeper members)
    | inr e ↦ rw e (
        (
          λ p. absurd (ground (arith, (entry_id_eq_iff m.entry_id keep_id).1 p)),
          spares_keeper members,
        ))
  ]

  covers_others :
      (members : List Member)
      → length (acted_on members) + length (keep (is_keeper keep_id) members) ≡ length members
  covers_others [] = omega arith
  covers_others (m ∷ members) = ground (arith, covers_others members)

  find_keeper :
      (members : List Member) (k : Member)
      → find (is_keeper keep_id) members ≡ some k
      → Memᴰ k members × (k.entry_id ≡ keep_id)
  find_keeper [] k h = absurd (cc)
  find_keeper (m ∷ members) k h = elim (Bool-cases (is_keeper keep_id m)) [
    | inl e ↦
        let p : m ≡ k = ground arith in
        (Memᴰ.head (sym p), rw (← p) ((entry_id_eq_iff m.entry_id keep_id).0 e))
    | inr e ↦ let (m', q) = find_keeper members k (ground arith) in (Memᴰ.tail m', q)
  ]

pub record SparesKeeper (members : List Member) (keep_id : EntryId) (full_hash : Text)
    (action : PlanAction) (p : RemediationPlan) : Type 0 where
  pub keeper : Member
  pub keeper_is_member : Memᴰ keeper members
  pub keeper_chosen : keeper.entry_id ≡ keep_id
  pub keeper_path : p.keeper_path ≡ keeper.path
  pub spared : All (λ (i : PlanItem). i.entry_id ≢ keep_id) p.items
  pub others : length p.items + length (keep (is_keeper keep_id) members) ≡ length members
  pub bound : p.items ≡ acted_on full_hash action keep_id members

plan_for_keeper-eq-ok :
    (plan_id created_by : Text) (items : List PlanItem) (k : Option Member) {p : RemediationPlan}
    → plan_for_keeper plan_id created_by items k ≡ ok p
    → (m : Member) × (k ≡ some m) × (p.keeper_path ≡ m.path) × (p.items ≡ items)
unfolding new_plan
plan_for_keeper-eq-ok plan_id created_by items none h = cc
plan_for_keeper-eq-ok plan_id created_by items (some m) h = (m, refl, ground arith, ground arith)

-- A plan that is built spares the operator's keeper: its keeper path is that of a member with the
-- chosen id, no item has that id, there is one item for each member without it, and the items
-- carry the size, the inode and the confirmed hash of those members, in their order.
pub build_plan-SparesKeeper :
    (plan_id created_by : Text) (members : List Member) (keep_id : EntryId) (full_hash : Text)
    (action : PlanAction) {p : RemediationPlan}
    → build_plan plan_id created_by members keep_id full_hash action ≡ ok p
    → SparesKeeper members keep_id full_hash action p
unfolding build_plan
build_plan-SparesKeeper plan_id created_by members keep_id full_hash action h =
    let (k, found, at, same) =
      plan_for_keeper-eq-ok plan_id created_by (acted_on full_hash action keep_id members)
        (find (is_keeper keep_id) members) h in
    let (mem, chosen) = find_keeper full_hash action keep_id members k found in
    record {
      keeper = k;
      keeper_is_member = mem;
      keeper_chosen = chosen;
      keeper_path = at;
      spared = rw same (spares_keeper full_hash action keep_id members);
      others = rw same (covers_others full_hash action keep_id members);
      bound = same;
    }

any_of_find :
    (q : Member → Bool) (members : List Member)
    → any q members ≡ (elim (find q members) [ none ↦ false | some m ↦ true ])
any_of_find q [] = refl
any_of_find q (m ∷ members) = ground (arith, any_of_find q members)

nothing_left :
    (full_hash : Text) (action : PlanAction) (keep_id : EntryId) (members : List Member)
    → is_empty (acted_on full_hash action keep_id members)
      ≡ not (any (λ m. not (is_keeper keep_id m)) members)
nothing_left full_hash action keep_id [] = refl
nothing_left full_hash action keep_id (m ∷ members) =
    ground (arith, nothing_left full_hash action keep_id members)

abbrev pub succeeds {ℓ} : {E A : Type ℓ} → Outcome E A → Bool
succeeds (ok a) = true
succeeds (raised e) = false

-- A plan is built exactly when it has an id and an author, the keeper is among the members and
-- some other member is left to act on.
pub build_plan-succeeds :
    (plan_id created_by : Text) (members : List Member) (keep_id : EntryId) (full_hash : Text)
    (action : PlanAction)
    → succeeds (build_plan plan_id created_by members keep_id full_hash action) ≡ (
        not (is_empty plan_id)
        && not (is_empty created_by)
        && any (is_keeper keep_id) members
        && any (λ m. not (is_keeper keep_id m)) members)
unfolding build_plan new_plan
build_plan-succeeds plan_id created_by members keep_id full_hash action =
    ground (
      arith,
      any_of_find (is_keeper keep_id) members,
      nothing_left full_hash action keep_id members,
    )
