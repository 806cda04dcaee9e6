-- ===== src/Coordinator/Tests.antt =====
-- Instances for the modules about leases: every host is heavy, and one heavy scan may run.
use fathomline.Prelude.{ℕ, ◌+◌, ◌-◌, ◌≤◌, none, List, [], ◌∷◌, ◌≡◌, refl, arith}
use fathomline.Coordinator.{
  ScanLease, CoordinatorSettings, Catalogue, active_heavy, held_by, expire_stale, release_lease,
  host_is_heavy, request_lease,
}
use fathomline.Coordinator.Leases.{count}
use fathomline.Coordinator.Requests.{
  Event, asks_for_lease, goes_on, started, proceed, proceed_at, step, steps,
}
use fathomline.Coordinator.Requests.Limits.{state_of, uninterrupted, steps-bounded}

abbrev settings : CoordinatorSettings
settings = record {
  heavy_entries = 100;
  max_concurrent_heavy = 1;
  retry_after = 60;
  lease_ttl = 600;
}

abbrev tables : Catalogue
tables = record { host_name = λ h. none; last_run = λ h. none }

-- Hosts 1 and 2 ask at the same time, and both count before either inserts.
abbrev both : List Event
both =
    asks_for_lease 1 0
    ∷ asks_for_lease 2 0
    ∷ goes_on 0
    ∷ goes_on 0
    ∷ goes_on 0
    ∷ goes_on 1
    ∷ goes_on 1
    ∷ goes_on 1
    ∷ goes_on 0
    ∷ goes_on 1
    ∷ goes_on 0
    ∷ goes_on 0
    ∷ []

-- Two heavy scans run where the setting allows one.
both_granted : count active_heavy (steps settings 2 (started tables) both).rows ≡ 2
unfolding steps step proceed_at proceed expire_stale release_lease host_is_heavy
both_granted = refl

steps-bounded_example :
    let rows = (steps settings 2 (started tables) both).rows in
    (count active_heavy rows ≤ 1 + (2 - 1))
    × ((h : ℕ) → count (held_by h) rows ≤ 2)
    × ((table : List ScanLease) (host_id now : ℕ)
        → steps settings 2 (state_of tables ([], table)) (uninterrupted host_id now)
          ≡ state_of tables ([], (request_lease settings tables host_id now table).1))
steps-bounded_example = steps-bounded settings 2 tables both (omega arith)
