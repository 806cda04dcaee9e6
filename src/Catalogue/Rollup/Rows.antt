-- ===== src/Catalogue/Rollup/Rows.antt =====
-- The rows of the rollup of core/rollup.py: one for each directory that an entry counts for.
use fathomline.Prelude.{
  false, ◌||◌, List, [], ◌∷◌, map, any, member, ◌≡◌, refl, arith, ap, Bool-cases, inl, inr, ◌==◌,
  ℕ_eq,
}
use fathomline.Prelude.Json.{Text, Text_eq}
use fathomline.Prelude.Dict.{put}
use fathomline.Catalogue.Rollup.{
  Acc, Tally, acc_at, Entry, ancestor_dirs, counted, tally_entry, tally_all, SubtreeRollup,
  rollup_rows,
}
use fathomline.Catalogue.Rollup.Distinct.{Distinct}

abbrev keys : Tally → List Text
keys t = map (λ (p : Text × Acc). p.0) t

abbrev pub paths : List SubtreeRollup → List Text
paths rows = map (λ (r : SubtreeRollup). r.path) rows

keys-put :
    (k d : Text) (a : Acc) (t : Tally) → member d (keys (put k a t)) ≡ (d == k || member d (keys t))
unfolding put
keys-put k d a [] = refl
keys-put k d a ((j, b) ∷ t) = elim (Bool-cases (k == j)) [
  | inl e ↦ let same : k ≡ j = (Text_eq.beq_iff k j).0 e in rw (e, same) (ground arith)
  | inr e ↦ rw (e, keys-put k d a t) (ground arith)
]

put-Distinct : (k : Text) (a : Acc) (t : Tally) → Distinct (keys t) → Distinct (keys (put k a t))
unfolding put
put-Distinct k a [] h = (refl, tt)
put-Distinct k a ((j, b) ∷ t) h = elim (Bool-cases (k == j)) [
  | inl e ↦ rw e h
  | inr e ↦
      let other : (j == k) ≡ false = ground (arith, e, Text_eq.beq_iff k j, Text_eq.beq_iff j k) in
      rw e (rw (keys-put k j a t, other) h.0, put-Distinct k a t h.1)
]

tally_entry-Distinct :
    (e : Entry) (ancestors : List Text) (t : Tally)
    → Distinct (keys t)
    → Distinct (keys (tally_entry e ancestors t))
unfolding tally_entry
tally_entry-Distinct e [] t h = h
tally_entry-Distinct e (a ∷ ancestors) t h =
    tally_entry-Distinct e ancestors _ (put-Distinct a (counted e (acc_at a t)) t h)

tally_all-Distinct :
    (mount : Text) (entries : List Entry) (t : Tally)
    → Distinct (keys t)
    → Distinct (keys (tally_all mount entries t))
unfolding tally_all
tally_all-Distinct mount [] t h = h
tally_all-Distinct mount (e ∷ entries) t h =
    tally_all-Distinct mount entries _ (tally_entry-Distinct e (ancestor_dirs e.path mount) t h)

keys-tally_entry :
    (e : Entry) (ancestors : List Text) (d : Text) (t : Tally)
    → member d (keys (tally_entry e ancestors t)) ≡ (member d ancestors || member d (keys t))
unfolding tally_entry
keys-tally_entry e [] d t = refl
keys-tally_entry e (a ∷ ancestors) d t = ground (
  arith,
  keys-tally_entry e ancestors d (put a (counted e (acc_at a t)) t),
  keys-put a d (counted e (acc_at a t)) t,
)

keys-tally_all :
    (mount d : Text) (entries : List Entry) (t : Tally)
    → member d (keys (tally_all mount entries t))
      ≡ (any (λ e. member d (ancestor_dirs e.path mount)) entries || member d (keys t))
unfolding tally_all
keys-tally_all mount d [] t = refl
keys-tally_all mount d (e ∷ entries) t = ground (
  arith,
  keys-tally_all mount d entries (tally_entry e (ancestor_dirs e.path mount) t),
  keys-tally_entry e (ancestor_dirs e.path mount) d t,
)

paths-rollup_rows : (mount : Text) (t : Tally) → paths (rollup_rows mount t) ≡ keys t
unfolding rollup_rows
paths-rollup_rows mount [] = refl
paths-rollup_rows mount (p ∷ t) = ap (λ ks. p.0 ∷ ks) (paths-rollup_rows mount t)

module _ (mount : Text) (entries : List Entry) where
  abbrev rows : List SubtreeRollup
  rows = rollup_rows mount (tally_all mount entries [])

  -- No directory has two rows.
  pub rollup_rows-Distinct : Distinct (paths rows)
  rollup_rows-Distinct =
      rw (paths-rollup_rows mount (tally_all mount entries []))
        (tally_all-Distinct mount entries [] tt)

  -- A directory has a row when it is named for some entry.
  pub member-rollup_rows :
      (d : Text) → member d (paths rows) ≡ any (λ e. member d (ancestor_dirs e.path mount)) entries
  member-rollup_rows d =
      rw (paths-rollup_rows mount (tally_all mount entries []))
        (ground (arith, keys-tally_all mount d entries []))
