-- ===== src/Catalogue/Incremental/Renaming.antt =====
-- What core/ingest.py and core/incremental.py make of a file that was renamed.
use fathomline.Prelude.{
  ℕ, Bool, true, false, none, some, List, [], ◌∷◌, ◌++◌, if◌then◌else◌, ==_refl, ℕ_eq, ◌≡◌, refl,
  arith, ap, ◌∙◌, Bool-cases, inl, inr,
}
use fathomline.Catalogue.Incremental.{
  FsEntryRow, BatchRow, same_key, key_of, batch_key, row_at, differs, upsert, upsert_entries,
  state_of, snapshot_prior, prior_at, ChangeLog, classify, churn_of, removal_filter, mark_removed,
  removal_churn, reconcile, ingest_delta,
}
use fathomline.Catalogue.Incremental.Stored.{state?}
use fathomline.Catalogue.Incremental.Accounting.{prior_at-snapshot}

upsert-same :
    (b : BatchRow) (r : FsEntryRow) (table : List FsEntryRow)
    → row_at (batch_key b) table ≡ some r
    → differs b r ≡ false
    → upsert b table ≡ table
unfolding upsert
upsert-same b r [] e h = cc
upsert-same b r (x ∷ table) e h = elim (Bool-cases (same_key (batch_key b) (key_of x))) [
  | inl q ↦
      let is_r : x ≡ r = ground (arith, q, e) in
      let same : differs b x ≡ false = rw is_r h in rw (q, same) refl
  | inr q ↦ rw q (ap (λ t. x ∷ t) (upsert-same b r table (ground (arith, q, e)) h))
]

mark_removed-nil : (when : ℕ) (table : List FsEntryRow) → (mark_removed [] when table).1 ≡ table
unfolding mark_removed removal_filter
mark_removed-nil when [] = refl
mark_removed-nil when (r ∷ table) = ap (λ t. r ∷ t) (mark_removed-nil when table)

removal_churn-nil : (when : ℕ) (table : List FsEntryRow) → removal_churn [] when table ≡ []
unfolding removal_churn removal_filter
removal_churn-nil when [] = refl
removal_churn-nil when (r ∷ table) = removal_churn-nil when table

-- A file that was renamed, with its inode, size and time of modification kept, is not noted: the row
-- keeps its old path and the feed has no change.
pub renamed_is_ignored :
    (b : BatchRow) (r : FsEntryRow) (log_changes : Bool) (when : ℕ) (table : List FsEntryRow)
    → row_at (batch_key b) table ≡ some r
    → r.present ≡ true
    → b.size_logical ≡ r.size_logical
    → b.mtime ≡ r.mtime
    → let (result, after, churn) = ingest_delta (b ∷ []) [] log_changes when table in
      (after ≡ table) × (churn ≡ [])
unfolding ingest_delta reconcile
renamed_is_ignored b r log_changes when table found p z m =
    let unchanged =
      upsert-same b r table found
        (ground (arith, p, z, m, ==_refl r.size_logical, ==_refl r.mtime)) in
    let prior : prior_at (batch_key b) (snapshot_prior (b.inode ∷ []) table) ≡ some (state_of r) =
      prior_at-snapshot (b.inode ∷ []) (batch_key b) table (ground (arith, ==_refl b.inode))
      ∙ ap state? found in
    let quiet : classify (some (state_of r)) b.size_logical b.mtime ≡ none =
      unfold classify in ground (arith, p, z, m, ==_refl r.size_logical, ==_refl r.mtime) in
    (
      (unfold upsert_entries in ap (λ t. (mark_removed [] when t).1) unchanged)
          ∙ mark_removed-nil when table,
      by_feed log_changes (unfold churn_of in rw (prior, quiet) refl)
          (removal_churn-nil when (mark_removed [] when (upsert_entries (b ∷ []) table)).1),
    )
  where
    by_feed :
        (on : Bool) {xs ys : List ChangeLog}
        → xs ≡ []
        → ys ≡ []
        → (if on then xs ++ ys else []) ≡ []
    by_feed true e f = rw (e, f) refl
    by_feed false e f = refl
