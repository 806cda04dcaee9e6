-- ===== src/Coordinator/Leases.antt =====
-- How the statements of core/scan_coordinator.py change the numbers of active leases.
use fathomline.Prelude.{
  ℕ, ◌+◌, ◌≤◌, Bool, false, List, [], ◌∷◌, ◌++◌, map, keep, length, ◌≡◌, refl, arith, Bool-cases,
  inl, inr, ℕ_eq,
}
use fathomline.Coordinator.{
  ScanLease, active_heavy, held_by, expire_stale, expire_row, release_row, release_lease,
}

abbrev pub count : (ScanLease → Bool) → List ScanLease → ℕ
count p rows = length (keep p rows)

pub count-append :
    (p : ScanLease → Bool) (xs ys : List ScanLease) → count p (xs ++ ys) ≡ count p xs + count p ys
count-append p [] ys = omega arith
count-append p (x ∷ xs) ys = ground (arith, count-append p xs ys)

pub count-more :
    (p : ScanLease → Bool) (rows : List ScanLease) (l : ScanLease)
    → p l ≡ false
    → count p (rows ++ l ∷ []) ≡ count p rows
count-more p rows l h = ground (arith, count-append p rows (l ∷ []))

count-map :
    (p : ScanLease → Bool) (f : ScanLease → ScanLease)
    → ((l : ScanLease) → p l ≡ false → p (f l) ≡ false)
    → (rows : List ScanLease) → count p (map f rows) ≤ count p rows
count-map p f less [] = omega arith
count-map p f less (x ∷ xs) = ground (arith, less x, count-map p f less xs)

count-none :
    (p : ScanLease → Bool) (f : ScanLease → ScanLease)
    → ((l : ScanLease) → p (f l) ≡ false)
    → (rows : List ScanLease) → count p (map f rows) ≡ 0
count-none p f less [] = refl
count-none p f less (x ∷ xs) = ground (arith, less x, count-none p f less xs)

pub expire-count :
    (p : ScanLease → Bool) (now : ℕ) (rows : List ScanLease)
    → ((l : ScanLease) → p l ≡ false → p (expire_row now l) ≡ false)
    → count p (expire_stale now rows) ≤ count p rows
unfolding expire_stale
expire-count p now rows less = count-map p (expire_row now) less rows

pub release-count :
    (p : ScanLease → Bool) (host_id now : ℕ) (rows : List ScanLease)
    → ((l : ScanLease) → p l ≡ false → p (release_row host_id now l) ≡ false)
    → count p (release_lease host_id now rows).1 ≤ count p rows
unfolding release_lease
release-count p host_id now rows less = count-map p (release_row host_id now) less rows

pub release-none :
    (host_id now : ℕ) (rows : List ScanLease)
    → count (held_by host_id) (release_lease host_id now rows).1 ≡ 0
unfolding release_lease
release-none host_id now rows =
    count-none (held_by host_id) (release_row host_id now) row_released rows
  where
    row_released : (l : ScanLease) → held_by host_id (release_row host_id now l) ≡ false
    row_released l = elim (Bool-cases (held_by host_id l)) [
      | inl e ↦ rw e (ground arith)
      | inr e ↦ rw e e
    ]

pub expire_row-heavy :
    (now : ℕ) (l : ScanLease) → active_heavy l ≡ false → active_heavy (expire_row now l) ≡ false
expire_row-heavy now l h = ground arith

pub expire_row-held :
    (now host_id : ℕ) (l : ScanLease)
    → held_by host_id l ≡ false
    → held_by host_id (expire_row now l) ≡ false
expire_row-held now host_id l h = ground arith

pub release_row-heavy :
    (host_id now : ℕ) (l : ScanLease)
    → active_heavy l ≡ false
    → active_heavy (release_row host_id now l) ≡ false
release_row-heavy host_id now l h = ground arith

pub release_row-held :
    (host_id now other : ℕ) (l : ScanLease)
    → held_by other l ≡ false
    → held_by other (release_row host_id now l) ≡ false
release_row-held host_id now other l h = ground arith
