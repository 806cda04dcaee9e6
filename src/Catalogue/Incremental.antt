-- ===== src/Catalogue/Incremental.antt =====
-- core/incremental.py with the upsert of a metadata batch from core/ingest.py: how a delta of the agent
-- changes the rows of one volume, and what the feed of changes is told. An integer is the difference
-- of two naturals. A time of modification is the code of its float, which is only tested for
-- equality.
pub mod Accounting
pub mod Stored
pub mod Renaming
mod Tests
use fathomline.Prelude.{
  ℕ, zero, suc, ◌+◌, ◌*◌, ◌-◌, Bool, true, false, not, ◌&&◌, ◌||◌, Option, none, some, List, [],
  ◌∷◌, ◌++◌, any, keep, length, member, if◌then◌else◌, ◌==◌, ℕ_eq, ltb, Eq,
}
use fathomline.Prelude.Json.{Text}
use fathomline.Prelude.Effect.{Outcome, ok, raised}

-- A row of the catalogue; its key is `(dev, inode)`.
pub record FsEntryRow : Type 0 where
  pub dev : ℕ
  pub inode : ℕ
  pub path : Text
  pub size_logical : ℕ
  pub mtime : ℕ
  pub present : Bool
  pub removed_at : Option ℕ

-- A vetted row of a batch.
pub record BatchRow : Type 0 where
  pub dev : ℕ
  pub inode : ℕ
  pub path : Text
  pub size_logical : ℕ
  pub mtime : ℕ

abbrev pub Key : Type 0
Key = ℕ × ℕ

abbrev pub same_key : Key → Key → Bool
same_key (d, i) (e, j) = d == e && i == j

abbrev pub key_of : FsEntryRow → Key
key_of r = (r.dev, r.inode)

abbrev pub batch_key : BatchRow → Key
batch_key r = (r.dev, r.inode)

-- The row that the unique key finds.
abbrev pub row_at : Key → List FsEntryRow → Option FsEntryRow
row_at k [] = none
row_at k (r ∷ table) = if same_key k (key_of r) then some r else row_at k table

abbrev pub inserted : BatchRow → FsEntryRow
inserted b = record {
  dev = b.dev;
  inode = b.inode;
  path = b.path;
  size_logical = b.size_logical;
  mtime = b.mtime;
  present = true;
  removed_at = none;
}

-- `guard`
abbrev pub differs : BatchRow → FsEntryRow → Bool
differs b r = not (b.mtime == r.mtime) || not (b.size_logical == r.size_logical) || not r.present

-- INSERT ... ON CONFLICT (dev, inode) DO UPDATE ... WHERE guard, for one row of the batch.
unfoldable pub upsert : BatchRow → List FsEntryRow → List FsEntryRow
upsert b [] = inserted b ∷ []
upsert b (r ∷ table) =
    let rest = upsert b table in
    if same_key (batch_key b) (key_of r)
    then (if differs b r then inserted b else r) ∷ table
    else r ∷ rest

unfoldable pub upsert_entries : List BatchRow → List FsEntryRow → List FsEntryRow
unfolding upsert
upsert_entries [] table = table
upsert_entries (b ∷ rows) table = upsert_entries rows (upsert b table)

pub record PriorState : Type 0 where
  pub present : Bool
  pub mtime : ℕ
  pub size_logical : ℕ
  pub path : Text

abbrev pub state_of : FsEntryRow → PriorState
state_of r = record {
  present = r.present;
  mtime = r.mtime;
  size_logical = r.size_logical;
  path = r.path;
}

-- The dictionary by key: the keys are unique in the table.
unfoldable pub snapshot_prior : List ℕ → List FsEntryRow → List (Key × PriorState)
snapshot_prior inodes [] = []
snapshot_prior inodes (r ∷ table) =
    let rest = snapshot_prior inodes table in
    if member r.inode inodes then (key_of r, state_of r) ∷ rest else rest

abbrev pub prior_at : Key → List (Key × PriorState) → Option PriorState
prior_at k [] = none
prior_at k ((j, s) ∷ prior) = if same_key k j then some s else prior_at k prior

pub data ChangeType : Type 0 where
  create modify delete : ChangeType

-- `size_delta` is `grown - shrunk`.
pub record ChangeLog : Type 0 where
  pub path : Text
  pub change_type : ChangeType
  pub grown : ℕ
  pub shrunk : ℕ

unfoldable pub classify : Option PriorState → ℕ → ℕ → Option ChangeType
classify none new_size new_mtime = some create
classify (some before) new_size new_mtime =
    if not before.present
    then some create
    else if not (before.size_logical == new_size) || not (before.mtime == new_mtime)
    then some modify
    else none

abbrev pub old_size : Option PriorState → ℕ
old_size none = 0
old_size (some before) = before.size_logical

abbrev change_of :
    BatchRow → Option PriorState → Option ChangeType → List ChangeLog → List ChangeLog
change_of b before none churn = churn
change_of b before (some change) churn =
    record { path = b.path; change_type = change; grown = b.size_logical; shrunk = old_size before }
    ∷ churn

-- The loop over the upserted rows.
unfoldable pub churn_of : List BatchRow → List (Key × PriorState) → List ChangeLog
unfolding classify
churn_of [] prior = []
churn_of (b ∷ rows) prior =
    let before = prior_at (batch_key b) prior in
    change_of b before (classify before b.size_logical b.mtime) (churn_of rows prior)

-- A removal by `(dev, inode)`, or, from an older agent, by the inode alone.
pub record Removal : Type 0 where
  pub dev : Option ℕ
  pub inode : ℕ

abbrev names : FsEntryRow → Option ℕ → ℕ → Bool
names r none inode = r.inode == inode
names r (some dev) inode = same_key (dev, inode) (key_of r)

-- `_removal_filter`; no key matches no row.
unfoldable pub removal_filter : List Removal → FsEntryRow → Bool
removal_filter keys r = any (λ (k : Removal). names r k.dev k.inode) keys

abbrev pub flips : List Removal → FsEntryRow → Bool
flips keys r = removal_filter keys r && r.present

abbrev pub flipped : ℕ → FsEntryRow → FsEntryRow
flipped when r = record r { present = false; removed_at = some when }

unfoldable pub mark_removed : List Removal → ℕ → List FsEntryRow → ℕ × List FsEntryRow
mark_removed keys when [] = (0, [])
mark_removed keys when (r ∷ table) =
    let rest = mark_removed keys when table in
    if flips keys r then (suc rest.0, flipped when r ∷ rest.1) else (rest.0, r ∷ rest.1)

abbrev pub stamped : ℕ → Option ℕ → Bool
stamped when none = false
stamped when (some t) = t == when

unfoldable pub removal_churn : List Removal → ℕ → List FsEntryRow → List ChangeLog
unfolding removal_filter
removal_churn keys when [] = []
removal_churn keys when (r ∷ table) =
    let rest = removal_churn keys when table in
    if removal_filter keys r && stamped when r.removed_at
    then record { path = r.path; change_type = delete; grown = 0; shrunk = r.size_logical } ∷ rest
    else rest

pub record ReconcileResult : Type 0 where
  pub removed : ℕ
  pub changes_logged : ℕ

-- `reconcile`, on the table that the upsert has left: the result, the table and what is logged.
unfoldable pub reconcile :
    List BatchRow
    → List (Key × PriorState)
    → List Removal
    → Bool
    → ℕ
    → List FsEntryRow
    → ReconcileResult × List FsEntryRow × List ChangeLog
unfolding mark_removed churn_of removal_churn
reconcile rows prior keys log_changes when table =
    let (count, after) = mark_removed keys when table in
    let churn = if log_changes then churn_of rows prior ++ removal_churn keys when after else [] in
    (record { removed = count; changes_logged = length churn }, after, churn)

abbrev inodes_of : List BatchRow → List ℕ
inodes_of [] = []
inodes_of (b ∷ rows) = b.inode ∷ inodes_of rows

-- A metadata batch: the state before is read, the rows are upserted, and the delta is applied.
unfoldable pub ingest_delta :
    List BatchRow
    → List Removal
    → Bool
    → ℕ
    → List FsEntryRow
    → ReconcileResult × List FsEntryRow × List ChangeLog
unfolding snapshot_prior upsert_entries reconcile
ingest_delta rows keys log_changes when table =
    reconcile rows (snapshot_prior (inodes_of rows) table) keys log_changes when
      (upsert_entries rows table)

-- `prune_change_log`, on the rows of the feed with their times; `day` is the length of a day.
pub data RetentionError : Type 0 where
  retention_below_one : RetentionError

unfoldable pub prune_change_log :
    ℕ → ℕ → ℕ → List (ℕ × ChangeLog) → Outcome RetentionError ℕ × List (ℕ × ChangeLog)
prune_change_log day retention_days now feed =
    let left = keep (λ (c : ℕ × ChangeLog). not (ltb (c.0 + retention_days * day) now)) feed in
    if ltb retention_days 1
    then (raised retention_below_one, feed)
    else (ok (length feed - length left), left)
