-- ===== src/Catalogue/Rollup/Totals.antt =====
-- The totals of core/rollup.py are sums over the entries beneath a directory.
use mathlib.Core.List.{append_assoc, append-nil}
use fathomline.Prelude.{
  ℕ, ◌+◌, false, not, List, [], ◌∷◌, ◌++◌, keep, length, length-append, member, any, All, ◌≡◌, refl,
  arith, ap, sym, ◌∙◌, Bool-cases, inl, inr, ◌==◌, if◌then◌else◌, ℕ_eq,
}
use fathomline.Prelude.Json.{Text, Text_eq}
use fathomline.Prelude.Dict.{get, put, get-put}
use fathomline.Catalogue.Rollup.{
  Acc, no_acc, Tally, acc_at, Entry, ancestor_dirs, counted, tally_entry, tally_all, SubtreeRollup,
  rollup_rows, SizeHistory, Volume, live, insert_batches, rollup_insert_chunk, recompute_full,
  batched,
}
use fathomline.Catalogue.Rollup.Distinct.{Distinct, IsMount, ancestor_dirs-Distinct}
use fathomline.Catalogue.Rollup.Holding.{holds, ancestor_dirs-holds}
use fathomline.Catalogue.Rollup.Tidy.{IsTidy}
use fathomline.Catalogue.Rollup.Rows.{paths, rollup_rows-Distinct, member-rollup_rows}
use fathomline.Catalogue.Rollup.Batches.{together, batched-Bounded}

acc_at-put :
    (k d : Text) (a : Acc) (t : Tally) → acc_at d (put k a t) ≡ (if d == k then a else acc_at d t)
unfolding acc_at
acc_at-put k d a t = elim (Bool-cases (d == k)) [
  | inl e ↦ rw (get-put k d a t, e) refl
  | inr e ↦ rw (get-put k d a t, e) refl
]

acc_at-tally_entry :
    (e : Entry) (ancestors : List Text) (d : Text) (t : Tally)
    → Distinct ancestors
    → acc_at d (tally_entry e ancestors t)
      ≡ (if member d ancestors then counted e (acc_at d t) else acc_at d t)
unfolding tally_entry
acc_at-tally_entry e [] d t h = refl
acc_at-tally_entry e (a ∷ ancestors) d t h =
    let rest = acc_at-tally_entry e ancestors d (put a (counted e (acc_at a t)) t) h.1 in
    let one = acc_at-put a d (counted e (acc_at a t)) t in
    elim (Bool-cases (d == a)) [
      | inl q ↦
          let same : d ≡ a = (Text_eq.beq_iff d a).0 q in
          let once : member d ancestors ≡ false = rw same h.0 in
          rest ∙ rw (once, one, q) (ap (λ x. counted e (acc_at x t)) (sym same))
      | inr q ↦ rest ∙ rw (one, q) refl
    ]

-- The entries that `_ancestor_dirs` counts for a directory.
abbrev beneath : Text → Text → List Entry → List Entry
beneath mount d entries = keep (λ e. member d (ancestor_dirs e.path mount)) entries

abbrev pub sum_of : (Entry → ℕ) → List Entry → ℕ
sum_of f [] = 0
sum_of f (e ∷ entries) = f e + sum_of f entries

abbrev pub totals_of : List Entry → Acc
totals_of entries = record {
  total_size_logical = sum_of (λ e. e.size_logical) entries;
  total_size_on_disk = sum_of (λ e. e.size_on_disk) entries;
  file_count = length (keep (λ e. not e.is_dir) entries);
  dir_count = length (keep (λ e. e.is_dir) entries);
}

abbrev added : Acc → Acc → Acc
added a b = record {
  total_size_logical = a.total_size_logical + b.total_size_logical;
  total_size_on_disk = a.total_size_on_disk + b.total_size_on_disk;
  file_count = a.file_count + b.file_count;
  dir_count = a.dir_count + b.dir_count;
}

acc_ext :
    {a b : Acc}
    → a.total_size_logical ≡ b.total_size_logical
    → a.total_size_on_disk ≡ b.total_size_on_disk
    → a.file_count ≡ b.file_count
    → a.dir_count ≡ b.dir_count
    → a ≡ b
acc_ext p q r s = λ i. record {
  total_size_logical = p i;
  total_size_on_disk = q i;
  file_count = r i;
  dir_count = s i;
}

counted-added :
    (e : Entry) (a : Acc) (entries : List Entry)
    → added (counted e a) (totals_of entries) ≡ added a (totals_of (e ∷ entries))
unfolding counted
counted-added e a entries = elim (Bool-cases e.is_dir) [
  | inl d ↦ rw d (acc_ext (omega arith) (omega arith) (omega arith) (omega arith))
  | inr d ↦ rw d (acc_ext (omega arith) (omega arith) (omega arith) (omega arith))
]

no_more :
    (d : Text) (entries : List Entry) → added (acc_at d []) (totals_of entries) ≡ totals_of entries
unfolding acc_at get
no_more d entries = acc_ext (omega arith) (omega arith) (omega arith) (omega arith)

acc_at-tally_all :
    (mount d : Text) (entries : List Entry) (t : Tally)
    → IsMount mount
    → acc_at d (tally_all mount entries t)
      ≡ added (acc_at d t) (totals_of (beneath mount d entries))
unfolding tally_all
acc_at-tally_all mount d [] t h = acc_ext (omega arith) (omega arith) (omega arith) (omega arith)
acc_at-tally_all mount d (e ∷ entries) t h =
    let rest = acc_at-tally_all mount d entries (tally_entry e (ancestor_dirs e.path mount) t) h in
    let one =
      acc_at-tally_entry e (ancestor_dirs e.path mount) d t
        (ancestor_dirs-Distinct e.path mount h) in
    elim (Bool-cases (member d (ancestor_dirs e.path mount))) [
      | inl q ↦ rest ∙ rw (one, q) (counted-added e (acc_at d t) (beneath mount d entries))
      | inr q ↦ rest ∙ rw (one, q) refl
    ]

-- What the table of rollups says of a directory; one that has no row has no entries.
abbrev pub total_at : Text → List SubtreeRollup → Acc
total_at d [] = no_acc
total_at d (r ∷ rows) = if d == r.path then r.acc else total_at d rows

total_at-rollup_rows : (mount d : Text) (t : Tally) → total_at d (rollup_rows mount t) ≡ acc_at d t
unfolding rollup_rows acc_at get
total_at-rollup_rows mount d [] = refl
total_at-rollup_rows mount d ((k, a) ∷ t) = elim (Bool-cases (d == k)) [
  | inl e ↦ rw e refl
  | inr e ↦ rw e (total_at-rollup_rows mount d t)
]

insert_batches-together :
    (batches : List (List SubtreeRollup)) (rows : List SubtreeRollup) (n : ℕ)
    → insert_batches batches rows n ≡ (rows ++ together batches, n + length (together batches))
insert_batches-together [] rows n =
    let plus_zero : n ≡ n + 0 = omega arith in λ i. (sym (append-nil rows) i, plus_zero i)
insert_batches-together (batch ∷ batches) rows n =
    let counts : n + length batch + length (together batches)
        ≡ n + length (batch ++ together batches) =
      omega (arith, length-append batch (together batches)) in
    insert_batches-together batches (rows ++ batch) (n + length batch)
    ∙ (λ i. (append_assoc rows batch (together batches) i, counts i))

-- The entries that a directory holds.
abbrev pub held_in : Text → Text → List Entry → List Entry
held_in mount d entries = keep (λ e. holds mount d e.path) entries

abbrev pub AllTidy : Text → List Entry → Type 0
AllTidy mount entries = All (λ (e : Entry). IsTidy mount e.path) entries

module _ (mount d : Text) (h : IsMount mount) where
  beneath-held_in :
      (entries : List Entry)
      → AllTidy mount entries
      → beneath mount d entries ≡ held_in mount d entries
  beneath-held_in [] tidy = refl
  beneath-held_in (e ∷ entries) tidy =
      rw (ancestor_dirs-holds mount e.path d h tidy.0, beneath-held_in entries tidy.1) refl

  any-holds :
      (entries : List Entry)
      → AllTidy mount entries
      → any (λ e. member d (ancestor_dirs e.path mount)) entries
        ≡ any (λ e. holds mount d e.path) entries
  any-holds [] tidy = refl
  any-holds (e ∷ entries) tidy =
      rw (ancestor_dirs-holds mount e.path d h tidy.0, any-holds entries tidy.1) refl

-- What a point of the history says of some entries.
abbrev pub history_point : List Entry → SizeHistory
history_point entries = record {
  total_size_logical = sum_of (λ e. e.size_logical) entries;
  total_size_on_disk = sum_of (λ e. e.size_on_disk) entries;
  file_count = length (keep (λ e. not e.is_dir) entries);
}

abbrev point_of : Acc → SizeHistory
point_of a = record {
  total_size_logical = a.total_size_logical;
  total_size_on_disk = a.total_size_on_disk;
  file_count = a.file_count;
}

acc_at-held_in :
    (v : Volume) (d : Text)
    → IsMount v.mountpoint
    → AllTidy v.mountpoint (live v)
    → acc_at d (tally_all v.mountpoint (live v) []) ≡ totals_of (held_in v.mountpoint d (live v))
acc_at-held_in v d h tidy =
    acc_at-tally_all v.mountpoint d (live v) [] h
    ∙ no_more d (beneath v.mountpoint d (live v))
    ∙ ap totals_of (beneath-held_in v.mountpoint d h (live v) tidy)

-- When the mount point of the volume ends in at most one slash and the paths of its present entries
-- beneath it have one slash after the mount point and none at their end: after a full
-- recomputation, what the table of rollups says of a directory is the sum of the sizes and the
-- numbers of files and directories over the present entries of the volume that it holds, where
-- the mount point holds every path but its own, also one that lies elsewhere, and another
-- directory the paths that go on after it; the table has a row for a directory exactly when it holds
-- such an entry, and never two; the number that is returned is the number of rows; and one point,
-- with the totals of the mount point, has been added to the history.
pub recompute_full-totals :
    (v : Volume) (d : Text)
    → IsMount v.mountpoint
    → AllTidy v.mountpoint (live v)
    → let (inserted, v') = recompute_full v in
      (total_at d v'.rollup ≡ totals_of (held_in v.mountpoint d (live v)))
      × (member d (paths v'.rollup) ≡ any (λ e. holds v.mountpoint d e.path) (live v))
      × Distinct (paths v'.rollup)
      × (inserted ≡ length v'.rollup)
      × (v'.history ≡ v.history ++ history_point (held_in v.mountpoint v.mountpoint (live v)) ∷ [])
unfolding recompute_full
recompute_full-totals v d h tidy =
    let tally = tally_all v.mountpoint (live v) [] in
    let all =
      (batched-Bounded (rollup_rows v.mountpoint tally) rollup_insert_chunk (omega arith)).0 in
    rw
      (
        insert_batches-together (batched (rollup_rows v.mountpoint tally) rollup_insert_chunk) [] 0,
        all,
      )
      (
        total_at-rollup_rows v.mountpoint d tally ∙ acc_at-held_in v d h tidy,
        member-rollup_rows v.mountpoint (live v) d ∙ any-holds v.mountpoint d h (live v) tidy,
        rollup_rows-Distinct v.mountpoint (live v),
        omega arith,
        ap (λ a. v.history ++ point_of a ∷ []) (acc_at-held_in v v.mountpoint h tidy),
      )
