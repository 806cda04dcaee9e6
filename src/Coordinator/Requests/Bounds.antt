-- ===== src/Coordinator/Requests/Bounds.antt =====
-- A bound on a number of rows that the requests of core/scan_coordinator.py keep, whatever the order of
-- their statements.
use fathomline.Prelude.{
  ℕ, zero, suc, ◌+◌, ◌-◌, ◌≤◌, ◌<◌, Bool, false, Option, none, some, List, [], ◌∷◌, length,
  if◌then◌else◌, ℕ_eq, ltb, ◌≡◌, arith, Bool-cases, inl, inr, ◌⊎◌,
}
use fathomline.Coordinator.{ScanLease, CoordinatorSettings, Catalogue, release_lease}
use fathomline.Coordinator.Leases.{count}
use fathomline.Coordinator.Requests.{
  Stage, to_expire, Request, CoordinatorState, proceed, kept, proceed_at, Event, asks_for_lease,
  goes_on, reports_run, step, steps,
}

-- What a request may still add to a number of rows, which is zero or one.
module _ (p : ScanLease → Bool) (claim : Request → Stage → Bool) where
  abbrev claims : Request → ℕ
  claims r = if claim r r.stage then 1 else 0

  abbrev total : List Request → ℕ
  total [] = 0
  total (r ∷ requests) = claims r + total requests

  total-length : (requests : List Request) → total requests ≤ length requests
  total-length [] = omega arith
  total-length (r ∷ requests) = ground (arith, total-length requests)

  abbrev pub left_claims : Option Request → ℕ
  left_claims none = 0
  left_claims (some r) = claims r

  -- A statement uses up a claim, or leaves fewer rows than the limit.
  abbrev pub Moves : ℕ → ℕ → ℕ → ℕ → ℕ → Type 0
  Moves limit n c n' c' = (n' + c' ≤ n + c) ⊎ (n' < limit)

  abbrev pub Proceeds : CoordinatorSettings → ℕ → Type 0
  Proceeds settings limit =
      (tables : Catalogue) (r : Request) (s : Stage) (rows : List ScanLease)
      → let (left, rows') = proceed settings tables r s rows in
        Moves limit (count p rows) (if claim r s then 1 else 0) (count p rows') (left_claims left)

  abbrev pub Releases : Type 0
  Releases =
      (host_id now : ℕ) (rows : List ScanLease)
      → count p (release_lease host_id now rows).1 ≤ count p rows

  abbrev pub Idle : Type 0
  Idle =
      (h now : ℕ) → claim (record { host_id = h; now = now; stage = to_expire }) to_expire ≡ false

  module _ (settings : CoordinatorSettings) (limit : ℕ) (proceeds : Proceeds settings limit) where
    kept_next :
        (left : Option Request) (r : Request) (requests : List Request) (n n' : ℕ)
        → Moves limit n (claims r) n' (left_claims left)
        → (length (kept left requests) ≤ suc (length requests))
          × Moves limit n (total (r ∷ requests)) n' (total (kept left requests))
    kept_next none r requests n n' (inl m) = (omega arith, inl (omega (arith, m)))
    kept_next none r requests n n' (inr m) = (omega arith, inr m)
    kept_next (some q) r requests n n' (inl m) = (omega arith, inl (omega (arith, m)))
    kept_next (some q) r requests n n' (inr m) = (omega arith, inr m)

    behind :
        (r : Request) (requests requests' : List Request) (n n' : ℕ)
        → (length requests' ≤ length requests) × Moves limit n (total requests) n' (total requests')
        → (length (r ∷ requests') ≤ length (r ∷ requests))
          × Moves limit n (total (r ∷ requests)) n' (total (r ∷ requests'))
    behind r requests requests' n n' (l, inl m) = (omega (arith, l), inl (omega (arith, m)))
    behind r requests requests' n n' (l, inr m) = (omega (arith, l), inr m)

    proceed_at-Moves :
        (tables : Catalogue) (i : ℕ) (requests : List Request) (rows : List ScanLease)
        → let (requests', rows') = proceed_at settings tables i requests rows in
          (length requests' ≤ length requests)
          × Moves limit (count p rows) (total requests) (count p rows') (total requests')
    unfolding proceed_at
    proceed_at-Moves tables i [] rows = (omega arith, inl (omega arith))
    proceed_at-Moves tables zero (r ∷ requests) rows =
        let (left, rows') = proceed settings tables r r.stage rows in
        kept_next left r requests (count p rows) (count p rows') (proceeds tables r r.stage rows)
    proceed_at-Moves tables (suc i) (r ∷ requests) rows =
        let (requests', rows') = proceed_at settings tables i requests rows in
        behind r requests requests' (count p rows) (count p rows')
          (proceed_at-Moves tables i requests rows)

    module _ (workers : ℕ) (releases : Releases) (idle : Idle) where
      pub record Bounded (s : CoordinatorState) : Type 0 where
        pub few : length s.requests ≤ workers
        pub bound : count p s.rows + total s.requests ≤ limit + workers - 1

      moved :
          (n n' : ℕ) (requests requests' : List Request)
          → length requests ≤ workers
          → n + total requests ≤ limit + workers - 1
          → (length requests' ≤ length requests)
            × Moves limit n (total requests) n' (total requests')
          → (length requests' ≤ workers) × (n' + total requests' ≤ limit + workers - 1)
      moved n n' requests requests' few b (l, inl m) = (omega (arith, l, few), omega (arith, m, b))
      moved n n' requests requests' few b (l, inr m) =
          (omega (arith, l, few), omega (arith, m, l, few, total-length requests'))

      step-Bounded :
          (s : CoordinatorState) (e : Event) → Bounded s → Bounded (step settings workers s e)
      unfolding step
      step-Bounded s (asks_for_lease h now) b =
          elim (Bool-cases (ltb (length s.requests) workers)) [
            | inl room ↦
                rw room (record {
                  few = ground (arith, room);
                  bound = ground (arith, idle h now, b.bound);
                })
            | inr full ↦ rw full b
          ]
      step-Bounded s (goes_on i) b =
          let (few, bound) =
            moved (count p s.rows) _ s.requests _ b.few b.bound
              (proceed_at-Moves s.tables i s.requests s.rows) in
          record { few = few; bound = bound }
      step-Bounded s (reports_run h now n) b = record {
        few = b.few;
        bound = omega (arith, b.bound, releases h now s.rows);
      }

      pub steps-Bounded :
          (s : CoordinatorState) (events : List Event)
          → Bounded s
          → Bounded (steps settings workers s events)
      unfolding steps
      steps-Bounded s [] b = b
      steps-Bounded s (e ∷ events) b =
          steps-Bounded (step settings workers s e) events (step-Bounded s e b)
