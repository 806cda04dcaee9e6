-- ===== src/Catalogue/Incremental/Tests.antt =====
-- Instances for the modules of Incremental: a file that comes back, one that is removed, and one that
-- was renamed.
use fathomline.Prelude.{◌+◌, true, false, none, some, [], ◌∷◌, ◌≡◌, refl}
use fathomline.Prelude.Json.{codes}
use fathomline.Catalogue.Incremental.{FsEntryRow, BatchRow, Removal, ingest_delta}
use fathomline.Catalogue.Incremental.Stored.{stored, grown_by, shrunk_by, resurrected}
use fathomline.Catalogue.Incremental.Accounting.{ingest_delta-stored}
use fathomline.Catalogue.Incremental.Renaming.{renamed_is_ignored}

abbrev gone : FsEntryRow
gone = record {
  dev = 0;
  inode = 5;
  path = codes "/m/a";
  size_logical = 10;
  mtime = 1;
  present = false;
  removed_at = some 3;
}

abbrev there : FsEntryRow
there = record gone { inode = 6; path = codes "/m/b"; present = true; removed_at = none }

abbrev back : BatchRow
back = record { dev = 0; inode = 5; path = codes "/m/a"; size_logical = 12; mtime = 2 }

abbrev removal : Removal
removal = record { dev = some 0; inode = 6 }

ingest_delta-stored_example :
    let (result, after, churn) =
      ingest_delta (back ∷ []) (removal ∷ []) true 4 (gone ∷ there ∷ []) in
    stored after + shrunk_by churn
    ≡ stored (gone ∷ there ∷ []) + grown_by churn + resurrected (back ∷ []) (gone ∷ there ∷ [])
ingest_delta-stored_example =
    ingest_delta-stored (back ∷ []) (removal ∷ []) 4 (gone ∷ there ∷ []) (tt, tt) (refl, (refl, tt))

-- The file `/m/b` under another name.
abbrev moved : BatchRow
moved = record { dev = 0; inode = 6; path = codes "/m/c"; size_logical = 10; mtime = 1 }

renamed_is_ignored_example :
    let (result, after, churn) = ingest_delta (moved ∷ []) [] true 4 (gone ∷ there ∷ []) in
    (after ≡ gone ∷ there ∷ []) × (churn ≡ [])
renamed_is_ignored_example =
    renamed_is_ignored moved there true 4 (gone ∷ there ∷ []) refl refl refl refl
