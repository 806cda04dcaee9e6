-- ===== src/Remediation/Plan.antt =====
-- core/remediation/plan.py: the plan and its builder.
pub mod Building
use fathomline.Prelude.{
  ℕ, zero, suc, ◌+◌, ◌/◌, ◌%◌, Bool, true, false, not, Option, none, some, List, [], ◌∷◌, ◌++◌, map,
  keep, find, if◌then◌else◌, Eq, ◌==◌, ℕ_eq, ltb, ◌≡◌, ◌↔◌, refl, arith, list_beq, list_beq_iff,
}
use fathomline.Prelude.Decimal.{decimal, decimal_text}
use fathomline.Prelude.Json.{Text, Text_eq, codes}
use fathomline.Prelude.Effect.{Outcome, ok, raised}

pub data PlanAction : Type 0 where
  quarantine hardlink hard_delete move : PlanAction

abbrev pub action_value : PlanAction → Text
action_value quarantine = codes "quarantine"
action_value hardlink = codes "hardlink"
action_value hard_delete = codes "hard_delete"
action_value move = codes "move"

-- `entry_id: int | str`
pub data EntryId : Type 0 where
  int : ℕ → EntryId
  text : Text → EntryId

abbrev entry_id_eq : EntryId → EntryId → Bool
entry_id_eq (int a) (int b) = a == b
entry_id_eq (text a) (text b) = a == b
entry_id_eq _ _ = false

-- `str(entry_id)`
unfoldable pub str_of : EntryId → Text
unfolding decimal
str_of (int n) = decimal_text n
str_of (text t) = t

pub record Member : Type 0 where
  pub entry_id : EntryId
  pub path : Text
  pub inode : ℕ
  pub size : ℕ

pub record PlanItem : Type 0 where
  pub entry_id : EntryId
  pub path : Text
  pub prior_inode : ℕ
  pub prior_size : ℕ
  pub prior_hash : Option Text
  pub action : PlanAction
  pub dest_rel : Option Text

pub record RemediationPlan : Type 0 where
  pub plan_id : Text
  pub created_by : Text
  pub keeper_path : Text
  pub items : List PlanItem
  pub move_root : Option Text

pub data PlanError : Type 0 where
  keeper_not_member no_actionable_items validation_error : PlanError

abbrev pub is_empty {ℓ} : {A : Type ℓ} → List A → Bool
is_empty [] = true
is_empty (x ∷ xs) = false

-- The constructor of the model class, with its `min_length=1` fields.
unfoldable pub new_plan :
    Text → Text → Text → List PlanItem → Option Text → Outcome PlanError RemediationPlan
new_plan plan_id created_by keeper_path items move_root =
    if is_empty plan_id
    then raised validation_error
    else if is_empty created_by
    then raised validation_error
    else if is_empty items
    then raised validation_error
    else ok (record {
      plan_id = plan_id;
      created_by = created_by;
      keeper_path = keeper_path;
      items = items;
      move_root = move_root;
    })

abbrev pub item_for : Text → PlanAction → Member → PlanItem
item_for full_hash action m = record {
  entry_id = m.entry_id;
  path = m.path;
  prior_inode = m.inode;
  prior_size = m.size;
  prior_hash = some full_hash;
  action = action;
  dest_rel = none;
}

abbrev pub is_keeper : EntryId → Member → Bool
is_keeper keep_id m = entry_id_eq m.entry_id keep_id

abbrev plan_for_keeper :
    Text → Text → List PlanItem → Option Member → Outcome PlanError RemediationPlan
plan_for_keeper plan_id created_by items none = raised keeper_not_member
plan_for_keeper plan_id created_by items (some keeper) =
    if is_empty items
    then raised no_actionable_items
    else new_plan plan_id created_by keeper.path items none

unfoldable pub build_plan :
    Text → Text → List Member → EntryId → Text → PlanAction → Outcome PlanError RemediationPlan
unfolding new_plan
build_plan plan_id created_by members keep_id full_hash action =
    plan_for_keeper plan_id created_by
      (map (item_for full_hash action) (keep (λ m. not (is_keeper keep_id m)) members))
      (find (is_keeper keep_id) members)
