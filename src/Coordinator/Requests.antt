-- ===== src/Coordinator/Requests.antt =====
-- core/scan_coordinator.py: requests for leases that are under way at the same time. `request_lease`
-- awaits the database between its statements, and takes no lock: another request may come in
-- between any two of them. A statement takes effect at once, for every request.
pub mod Bounds
pub mod Limits
use fathomline.Prelude.{
  ℕ, zero, suc, Bool, true, false, not, Option, none, some, List, [], ◌∷◌, ◌++◌, keep, length,
  if◌then◌else◌, ◌==◌, ℕ_eq, ltb,
}
use fathomline.Coordinator.{
  ScanLease, CoordinatorSettings, Catalogue, active_heavy, expire_stale, release_lease,
  host_is_heavy, granted_row, deferred_row,
}

-- Which statement of `request_lease` a request has come to.
pub data Stage : Type 0 where
  to_expire to_release to_weigh to_count : Stage
  to_insert : ScanLease → Stage

pub record Request : Type 0 where
  pub host_id : ℕ
  pub now : ℕ
  pub stage : Stage

abbrev pub at_stage : Stage → Request → Request
at_stage s r = record r { stage = s }

-- The rows, what is known of the runs, and the requests under way.
pub record CoordinatorState : Type 0 where
  pub rows : List ScanLease
  pub tables : Catalogue
  pub requests : List Request

abbrev pub kept : Option Request → List Request → List Request
kept none requests = requests
kept (some r) requests = r ∷ requests

module _ (settings : CoordinatorSettings) (tables : Catalogue) where
  abbrev pub weighed : Request → Bool → Stage
  weighed r heavy =
      if heavy then to_count else to_insert (granted_row settings tables r.host_id false r.now)

  -- Without a lease to blame the indexing of the empty list raises, and the request is gone.
  abbrev pub put_off : Request → List ScanLease → Option Request
  put_off r [] = none
  put_off r (l ∷ others) = some (at_stage (to_insert (deferred_row settings tables r.host_id l)) r)

  abbrev pub counted : Request → List ScanLease → Option Request
  counted r others =
      if ltb (length others) settings.max_concurrent_heavy
      then some (at_stage (to_insert (granted_row settings tables r.host_id true r.now)) r)
      else put_off r others

  -- One statement of a request: what is left of the request, and the rows.
  unfoldable pub proceed : Request → Stage → List ScanLease → Option Request × List ScanLease
  unfolding expire_stale release_lease host_is_heavy
  proceed r to_expire rows = (some (at_stage to_release r), expire_stale r.now rows)
  proceed r to_release rows = (some (at_stage to_weigh r), (release_lease r.host_id r.now rows).1)
  proceed r to_weigh rows =
      (some (at_stage (weighed r (host_is_heavy settings tables r.host_id)) r), rows)
  proceed r to_count rows = (counted r (keep (λ l. active_heavy l) rows), rows)
  proceed r (to_insert row) rows = (none, rows ++ row ∷ [])

  -- The next statement of the request at a place in the list.
  unfoldable pub proceed_at : ℕ → List Request → List ScanLease → List Request × List ScanLease
  unfolding proceed
  proceed_at n [] rows = ([], rows)
  proceed_at zero (r ∷ requests) rows =
      let (left, rows') = proceed r r.stage rows in (kept left requests, rows')
  proceed_at (suc n) (r ∷ requests) rows =
      let (requests', rows') = proceed_at n requests rows in (r ∷ requests', rows')

-- What agents and the database make the coordinator do.
pub data Event : Type 0 where
  asks_for_lease : ℕ → ℕ → Event
  goes_on : ℕ → Event
  reports_run : ℕ → ℕ → ℕ → Event

abbrev with_run : ℕ → ℕ → Catalogue → Catalogue
with_run host_id entries_seen tables = record tables {
  last_run = λ h. if h == host_id then some entries_seen else tables.last_run h;
}

-- At most `workers` requests are under way; one more has to wait, and asks again. A run that is reported
-- is the host's last one from then on, and releases the host's leases.
module _ (settings : CoordinatorSettings) (workers : ℕ) where
  unfoldable pub step : CoordinatorState → Event → CoordinatorState
  unfolding proceed_at release_lease
  step s (asks_for_lease host_id now) =
      if ltb (length s.requests) workers
      then record s {
        requests = record { host_id = host_id; now = now; stage = to_expire } ∷ s.requests;
      }
      else s
  step s (goes_on n) =
      let (requests, rows) = proceed_at settings s.tables n s.requests s.rows in
      record { rows = rows; tables = s.tables; requests = requests }
  step s (reports_run host_id now entries_seen) = record s {
    rows = (release_lease host_id now s.rows).1;
    tables = with_run host_id entries_seen s.tables;
  }

  unfoldable pub steps : CoordinatorState → List Event → CoordinatorState
  unfolding step
  steps s [] = s
  steps s (e ∷ events) = steps (step s e) events

-- Before anything has happened.
abbrev pub started : Catalogue → CoordinatorState
started tables = record { rows = []; tables = tables; requests = [] }
