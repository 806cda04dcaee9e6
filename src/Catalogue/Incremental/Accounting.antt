-- ===== src/Catalogue/Incremental/Accounting.antt =====
-- Whether the feed of core/incremental.py accounts for the change of what is stored.
use fathomline.Prelude.{
  ℕ, ◌+◌, true, false, List, [], ◌∷◌, member, All, ==_refl, ℕ_eq, ◌≡◌, refl, arith, ◌∙◌, subst,
  Bool-cases, inl, inr,
}
use fathomline.Catalogue.Incremental.{
  FsEntryRow, BatchRow, Key, same_key, key_of, batch_key, row_at, differs, upsert, upsert_entries,
  PriorState, snapshot_prior, prior_at, classify, churn_of, Removal, removal_filter, flips, flipped,
  mark_removed, stamped, removal_churn, reconcile, inodes_of, ingest_delta,
}
use fathomline.Catalogue.Incremental.Stored.{
  stored, grown_by, shrunk_by, grown_by-append, shrunk_by-append, state?, resurrected,
  change_of-sums, upsert-stored, row_at-upsert,
}

-- No two rows of the batch have one key.
abbrev pub KeysApart : List BatchRow → Type 0
KeysApart [] = Unit
KeysApart (b ∷ rows) =
    All (λ (c : BatchRow). same_key (batch_key c) (batch_key b) ≡ false) rows × KeysApart rows

-- The state that was read before is that of the table.
abbrev Agrees : List (Key × PriorState) → List FsEntryRow → List BatchRow → Type 0
Agrees prior table rows =
    All (λ (b : BatchRow). prior_at (batch_key b) prior ≡ state? (row_at (batch_key b) table)) rows

Agrees-upsert :
    (b : BatchRow) (prior : List (Key × PriorState)) (table : List FsEntryRow)
    (rows : List BatchRow)
    → All (λ (c : BatchRow). same_key (batch_key c) (batch_key b) ≡ false) rows
    → Agrees prior table rows
    → Agrees prior (upsert b table) rows
      × (resurrected rows (upsert b table) ≡ resurrected rows table)
Agrees-upsert b prior table [] h a = (tt, refl)
Agrees-upsert b prior table (c ∷ rows) h a =
    let same = row_at-upsert b (batch_key c) table h.0 in
    let (rest, sum) = Agrees-upsert b prior table rows h.1 a.1 in
    ((rw same a.0, rest), rw (same, sum) refl)

upsert_entries-stored :
    (rows : List BatchRow) (prior : List (Key × PriorState)) (table : List FsEntryRow)
    → KeysApart rows
    → Agrees prior table rows
    → stored (upsert_entries rows table) + shrunk_by (churn_of rows prior)
      ≡ stored table + grown_by (churn_of rows prior) + resurrected rows table
unfolding upsert_entries churn_of
upsert_entries-stored [] prior table h a = omega arith
upsert_entries-stored (b ∷ rows) prior table h a =
    let (agrees, sum) = Agrees-upsert b prior table rows h.0 a.1 in
    let later = upsert_entries-stored rows prior (upsert b table) h.1 agrees in
    let one = upsert-stored b table in
    let o = row_at (batch_key b) table in
    let sums =
      change_of-sums b (state? o) (classify (state? o) b.size_logical b.mtime)
        (churn_of rows prior) in
    rw a.0 (omega (arith, later, one, sum, sums.0, sums.1))

-- No row was stamped with this time before.
abbrev pub IsNew : ℕ → List FsEntryRow → Type 0
IsNew when table = All (λ (r : FsEntryRow). stamped when r.removed_at ≡ false) table

upsert-IsNew :
    (when : ℕ) (b : BatchRow) (table : List FsEntryRow)
    → IsNew when table
    → IsNew when (upsert b table)
unfolding upsert
upsert-IsNew when b [] n = (refl, tt)
upsert-IsNew when b (r ∷ table) n = elim (Bool-cases (same_key (batch_key b) (key_of r))) [
  | inl e ↦ elim (Bool-cases (differs b r)) [
    | inl d ↦ rw (e, d) (refl, n.1)
    | inr d ↦ rw (e, d) (n.0, n.1)
  ]
  | inr e ↦ rw e (n.0, upsert-IsNew when b table n.1)
]

upsert_entries-IsNew :
    (when : ℕ) (rows : List BatchRow) (table : List FsEntryRow)
    → IsNew when table
    → IsNew when (upsert_entries rows table)
unfolding upsert_entries
upsert_entries-IsNew when [] table n = n
upsert_entries-IsNew when (b ∷ rows) table n =
    upsert_entries-IsNew when rows (upsert b table) (upsert-IsNew when b table n)

mark_removed-stored :
    (keys : List Removal) (when : ℕ) (table : List FsEntryRow)
    → IsNew when table
    → let after = (mark_removed keys when table).1 in
      (stored after + shrunk_by (removal_churn keys when after) ≡ stored table)
      × (grown_by (removal_churn keys when after) ≡ 0)
unfolding mark_removed removal_churn
mark_removed-stored keys when [] n = (refl, refl)
mark_removed-stored keys when (r ∷ table) n =
    let (total, none_grown) = mark_removed-stored keys when table n.1 in
    let same : removal_filter keys (flipped when r) ≡ removal_filter keys r =
      unfold removal_filter in refl in
    elim (Bool-cases (flips keys r)) [
      | inl f ↦
          let named : removal_filter keys (flipped when r) ≡ true = same ∙ ground (arith, f) in
          rw (f, named, ==_refl when) (ground (arith, f, total), omega (arith, none_grown))
      | inr f ↦ rw (f, n.0) (ground (arith, total), ground (arith, none_grown))
    ]

pub prior_at-snapshot :
    (inodes : List ℕ) (k : Key) (table : List FsEntryRow)
    → member k.1 inodes ≡ true
    → prior_at k (snapshot_prior inodes table) ≡ state? (row_at k table)
unfolding snapshot_prior
prior_at-snapshot inodes k [] m = refl
prior_at-snapshot inodes k (r ∷ table) m =
    let later = prior_at-snapshot inodes k table m in
    elim (Bool-cases (same_key k (key_of r))) [
      | inl e ↦
          let same : k.1 ≡ r.inode = ground (arith, e) in
          let read : member r.inode inodes ≡ true = subst (λ i. member i inodes ≡ true) same m in
          rw (read, e) refl
      | inr e ↦ elim (Bool-cases (member r.inode inodes)) [
        | inl q ↦ rw (q, e) later
        | inr q ↦ rw (q, e) later
      ]
    ]

snapshot-Agrees :
    (inodes : List ℕ) (rows : List BatchRow) (table : List FsEntryRow)
    → ((i : ℕ) → member i (inodes_of rows) ≡ true → member i inodes ≡ true)
    → Agrees (snapshot_prior inodes table) table rows
snapshot-Agrees inodes [] table h = tt
snapshot-Agrees inodes (b ∷ rows) table h = (
  prior_at-snapshot inodes (batch_key b) table (h b.inode (ground (arith, ==_refl b.inode))),
  snapshot-Agrees inodes rows table (λ i m. h i (ground (arith, m))),
)

-- When no two rows of a metadata batch have one key and its time has not been used, what is stored
-- after it, with what the feed says has shrunk, is what was stored before with what the feed says
-- has grown, and with the recorded sizes of the rows that the batch has brought back.
pub ingest_delta-stored :
    (rows : List BatchRow) (keys : List Removal) (when : ℕ) (table : List FsEntryRow)
    → KeysApart rows
    → IsNew when table
    → let (result, after, churn) = ingest_delta rows keys true when table in
      stored after + shrunk_by churn ≡ stored table + grown_by churn + resurrected rows table
unfolding ingest_delta reconcile
ingest_delta-stored rows keys when table apart new =
    let prior = snapshot_prior (inodes_of rows) table in
    let upserted = upsert_entries rows table in
    let agrees = snapshot-Agrees (inodes_of rows) rows table (λ i m. m) in
    let first = upsert_entries-stored rows prior table apart agrees in
    let (total, none_grown) =
      mark_removed-stored keys when upserted (upsert_entries-IsNew when rows table new) in
    let churn = removal_churn keys when (mark_removed keys when upserted).1 in
    omega (
      arith,
      first,
      total,
      none_grown,
      grown_by-append (churn_of rows prior) churn,
      shrunk_by-append (churn_of rows prior) churn,
    )
