-- ===== src/Catalogue/Rollup.antt =====
-- core/rollup.py: the totals of every directory beneath the mount point of a volume. A table is the
-- list of its rows, and the rollup of a volume is replaced as a whole.
pub mod Ancestors
pub mod Tidy
pub mod Holding
pub mod Rows
pub mod Distinct
pub mod Totals
pub mod Batches
mod Tests
use fathomline.Prelude.{
  ℕ, zero, suc, ◌+◌, Bool, true, false, not, ◌&&◌, ◌||◌, Option, none, some, List, [], ◌∷◌, ◌++◌,
  map, length, if◌then◌else◌, ◌==◌, ℕ_eq, leb, keep,
}
use fathomline.Prelude.Json.{Text, Text_eq, codes}
use fathomline.Prelude.Path.{slash, split, lstrip, rstrip, strip, starts_with, drop}
use fathomline.Prelude.Dict.{get, put}
use fathomline.Prelude.Effect.{Outcome, ok, raised}

pub record Acc : Type 0 where
  pub total_size_logical : ℕ
  pub total_size_on_disk : ℕ
  pub file_count : ℕ
  pub dir_count : ℕ

abbrev pub no_acc : Acc
no_acc = record { total_size_logical = 0; total_size_on_disk = 0; file_count = 0; dir_count = 0 }

abbrev pub Tally : Type 0
Tally = List (Text × Acc)

-- `defaultdict(_Acc)`, read at a key.
abbrev or_no_acc : Option Acc → Acc
or_no_acc none = no_acc
or_no_acc (some a) = a

unfoldable pub acc_at : Text → Tally → Acc
acc_at path t = or_no_acc (get path t)

-- A row of the table of entries.
pub record Entry : Type 0 where
  pub volume_id : ℕ
  pub present : Bool
  pub path : Text
  pub size_logical : ℕ
  pub size_on_disk : ℕ
  pub is_dir : Bool

-- The loop over the parts of `rel` but the last, with `cur`.
pub ancestors_from : Text → List Text → List Text
ancestors_from cur [] = []
ancestors_from cur (part ∷ []) = []
ancestors_from cur (part ∷ next ∷ parts) =
    (cur ++ (slash ∷ part)) ∷ ancestors_from (cur ++ (slash ∷ part)) (next ∷ parts)

abbrev pub rel_to : Text → Text → Text
rel_to mount path = strip slash (drop (length mount) path)

unfoldable pub ancestor_dirs : Text → Text → List Text
unfolding ancestors_from strip
ancestor_dirs path mount =
    if path == mount || not (starts_with (rstrip slash mount ++ (slash ∷ [])) path)
    then (if path == mount then [] else mount ∷ [])
    else mount ∷ ancestors_from (rstrip slash mount) (split slash (rel_to mount path))

-- `text.count(sep)`
abbrev count : ℕ → Text → ℕ
count sep [] = 0
count sep (b ∷ text) = let n = count sep text in if b == sep then suc n else n

abbrev depth_of : Text → ℕ
depth_of [] = 0
depth_of (b ∷ rel) = suc (count slash (b ∷ rel))

unfoldable depth_within : Text → Text → ℕ
unfolding strip
depth_within mount path = depth_of (rel_to mount path)

unfoldable pub counted : Entry → Acc → Acc
counted e acc = record {
  total_size_logical = acc.total_size_logical + e.size_logical;
  total_size_on_disk = acc.total_size_on_disk + e.size_on_disk;
  file_count = if e.is_dir then acc.file_count else acc.file_count + 1;
  dir_count = if e.is_dir then acc.dir_count + 1 else acc.dir_count;
}

-- The loop over the ancestors of one entry, and the loop over the entries.
unfoldable pub tally_entry : Entry → List Text → Tally → Tally
unfolding counted
tally_entry e [] t = t
tally_entry e (ancestor ∷ ancestors) t =
    tally_entry e ancestors (put ancestor (counted e (acc_at ancestor t)) t)

unfoldable pub tally_all : Text → List Entry → Tally → Tally
unfolding tally_entry ancestor_dirs
tally_all mount [] t = t
tally_all mount (e ∷ entries) t =
    tally_all mount entries (tally_entry e (ancestor_dirs e.path mount) t)

-- `_batched`, with the batch that is being filled.
module _ {A : Type 0} where
  abbrev last_batch : List A → List (List A)
  last_batch [] = []
  last_batch (x ∷ batch) = (x ∷ batch) ∷ []

  unfoldable pub batches_from : ℕ → List A → List A → List (List A)
  batches_from size batch [] = last_batch batch
  batches_from size batch (row ∷ rows) =
      let filled = batch ++ row ∷ [] in
      let closed = batches_from size [] rows in
      let open_still = batches_from size filled rows in
      if leb size (length filled) then filled ∷ closed else open_still

  unfoldable pub batched : List A → ℕ → List (List A)
  unfolding batches_from
  batched rows size = batches_from size [] rows

pub record SubtreeRollup : Type 0 where
  pub path : Text
  pub depth : ℕ
  pub acc : Acc

unfoldable pub rollup_rows : Text → Tally → List SubtreeRollup
unfolding depth_within
rollup_rows mount t =
    map (λ (p : Text × Acc). record { path = p.0; depth = depth_within mount p.0; acc = p.1 }) t

pub record SizeHistory : Type 0 where
  pub total_size_logical : ℕ
  pub total_size_on_disk : ℕ
  pub file_count : ℕ

-- A volume: its mount point, its rollup and the points of its history, beside the table of the entries of
-- all volumes.
pub record Volume : Type 0 where
  pub id : ℕ
  pub mountpoint : Text
  pub entries : List Entry
  pub rollup : List SubtreeRollup
  pub history : List SizeHistory

-- The query: what is present on the volume.
abbrev pub live : Volume → List Entry
live v = keep (λ e. e.volume_id == v.id && e.present) v.entries

abbrev pub insert_batches :
    List (List SubtreeRollup) → List SubtreeRollup → ℕ → List SubtreeRollup × ℕ
insert_batches [] rows inserted = (rows, inserted)
insert_batches (batch ∷ batches) rows inserted =
    insert_batches batches (rows ++ batch) (inserted + length batch)

abbrev pub rollup_insert_chunk : ℕ
rollup_insert_chunk = 5000

-- `recompute_full` on a volume that is there: the number of rows, and the volume.
unfoldable pub recompute_full : Volume → ℕ × Volume
unfolding tally_all batched rollup_rows
recompute_full v =
    let tally = tally_all v.mountpoint (live v) [] in
    let (rows, inserted) =
      insert_batches (batched (rollup_rows v.mountpoint tally) rollup_insert_chunk) [] 0 in
    let root = acc_at v.mountpoint tally in
    (
      inserted,
      record v {
        rollup = rows;
        history =
            v.history
            ++ record {
              total_size_logical = root.total_size_logical;
              total_size_on_disk = root.total_size_on_disk;
              file_count = root.file_count;
            }
              ∷ [];
      },
    )
