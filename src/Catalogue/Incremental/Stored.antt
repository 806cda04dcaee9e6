-- ===== src/Catalogue/Incremental/Stored.antt =====
-- What is stored in the table of core/incremental.py, and what one row of a batch does to it.
use fathomline.Prelude.{
  ℕ, ◌+◌, false, Option, none, some, List, [], ◌∷◌, ◌++◌, if◌then◌else◌, ◌==◌, ℕ_eq, ◌≡◌, refl,
  arith, Bool-cases, inl, inr,
}
use fathomline.Catalogue.Incremental.{
  FsEntryRow, BatchRow, Key, same_key, key_of, batch_key, row_at, inserted, differs, upsert,
  PriorState, state_of, ChangeType, ChangeLog, classify, change_of,
}

-- What is stored: the sizes of the rows that are present.
abbrev pub stored : List FsEntryRow → ℕ
stored [] = 0
stored (r ∷ table) = (if r.present then r.size_logical else 0) + stored table

abbrev pub grown_by : List ChangeLog → ℕ
grown_by [] = 0
grown_by (c ∷ churn) = c.grown + grown_by churn

abbrev pub shrunk_by : List ChangeLog → ℕ
shrunk_by [] = 0
shrunk_by (c ∷ churn) = c.shrunk + shrunk_by churn

pub grown_by-append : (a b : List ChangeLog) → grown_by (a ++ b) ≡ grown_by a + grown_by b
grown_by-append [] b = omega arith
grown_by-append (c ∷ a) b = omega (arith, grown_by-append a b)

pub shrunk_by-append : (a b : List ChangeLog) → shrunk_by (a ++ b) ≡ shrunk_by a + shrunk_by b
shrunk_by-append [] b = omega arith
shrunk_by-append (c ∷ a) b = omega (arith, shrunk_by-append a b)

abbrev pub state? : Option FsEntryRow → Option PriorState
state? none = none
state? (some r) = some (state_of r)

-- The size of a row that had been removed before.
abbrev pub gone_size : Option FsEntryRow → ℕ
gone_size none = 0
gone_size (some r) = if r.present then 0 else r.size_logical

-- What the rows of a batch bring back, as it was recorded.
abbrev pub resurrected : List BatchRow → List FsEntryRow → ℕ
resurrected [] table = 0
resurrected (b ∷ rows) table = gone_size (row_at (batch_key b) table) + resurrected rows table

-- The change for one row, before the changes of the others.
abbrev change_for : BatchRow → Option FsEntryRow → List ChangeLog → List ChangeLog
change_for b o churn = change_of b (state? o) (classify (state? o) b.size_logical b.mtime) churn

pub change_of-sums :
    (b : BatchRow) (s : Option PriorState) (c : Option ChangeType) (churn : List ChangeLog)
    → (grown_by (change_of b s c churn) ≡ grown_by (change_of b s c []) + grown_by churn)
      × (shrunk_by (change_of b s c churn) ≡ shrunk_by (change_of b s c []) + shrunk_by churn)
change_of-sums b s none churn = (omega arith, omega arith)
change_of-sums b s (some c) churn = (omega arith, omega arith)

row-stored :
    (b : BatchRow) (r : FsEntryRow) (rest : ℕ)
    → stored ((if differs b r then inserted b else r) ∷ [])
        + rest
        + shrunk_by (change_for b (some r) [])
      ≡ stored (r ∷ []) + rest + grown_by (change_for b (some r) []) + gone_size (some r)
unfolding classify
row-stored b r rest = elim (Bool-cases r.present) [
  | inl p ↦ elim (Bool-cases (b.mtime == r.mtime)) [
    | inl m ↦ elim (Bool-cases (b.size_logical == r.size_logical)) [
      | inl z ↦ ground (arith, p, m, z)
      | inr z ↦ ground (arith, p, m, z)
    ]
    | inr m ↦ ground (arith, p, m)
  ]
  | inr p ↦ ground (arith, p)
]

pub upsert-stored :
    (b : BatchRow) (table : List FsEntryRow)
    → let o = row_at (batch_key b) table in
      stored (upsert b table) + shrunk_by (change_for b o [])
      ≡ stored table + grown_by (change_for b o []) + gone_size o
unfolding upsert
upsert-stored b [] = unfold classify in omega arith
upsert-stored b (r ∷ table) = elim (Bool-cases (same_key (batch_key b) (key_of r))) [
  | inl e ↦ rw e (omega (arith, row-stored b r (stored table)))
  | inr e ↦ rw e (omega (arith, upsert-stored b table))
]

pub row_at-upsert :
    (b : BatchRow) (k : Key) (table : List FsEntryRow)
    → same_key k (batch_key b) ≡ false
    → row_at k (upsert b table) ≡ row_at k table
unfolding upsert
row_at-upsert b k [] h = rw h refl
row_at-upsert b k (r ∷ table) h =
    let later = row_at-upsert b k table h in
    elim (Bool-cases (same_key (batch_key b) (key_of r))) [
      | inl e ↦
          let other : same_key k (key_of r) ≡ false = ground (arith, e, h) in
          elim (Bool-cases (differs b r)) [
            | inl d ↦ rw (e, d, h, other) refl
            | inr d ↦ rw (e, d, other) refl
          ]
      | inr e ↦ rw (e, later) refl
    ]
