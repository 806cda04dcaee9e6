-- ===== src/Coordinator.antt =====
-- core/scan_coordinator.py: leases for heavy scans. The table of leases is the list of its rows in
-- the order in which a SELECT returns them; its generated columns, the id and `granted_at`, are left
-- out. `request_lease` here is one request that nothing else comes in between of; Requests has the
-- statements of several requests in any order.
pub mod Leases
pub mod Requests
pub mod Deciding
mod Tests
use fathomline.Prelude.{
  ℕ, ◌+◌, Bool, true, false, not, ◌&&◌, Option, none, some, List, [], ◌∷◌, ◌++◌, map, keep, length,
  if◌then◌else◌, ◌==◌, ℕ_eq, ltb, leb,
}
use fathomline.Prelude.Json.{Text, codes}
use fathomline.Remediation.Plan.{EntryId, int, str_of}

pub data LeaseStatus : Type 0 where
  active deferred released expired : LeaseStatus

pub record ScanLease : Type 0 where
  pub host_id : ℕ
  pub is_heavy : Bool
  pub status : LeaseStatus
  pub expires_at : Option ℕ
  pub released_at : Option ℕ
  pub reason : Option Text
  pub blocking_host_id : Option ℕ
  pub retry_after_seconds : Option ℕ

pub record LeaseDecision : Type 0 where
  pub granted : Bool
  pub status : LeaseStatus
  pub reason : Option Text
  pub retry_after_seconds : Option ℕ
  pub blocking_host : Option Text

pub record CoordinatorSettings : Type 0 where
  pub heavy_entries : ℕ
  pub max_concurrent_heavy : ℕ
  pub retry_after : ℕ
  pub lease_ttl : ℕ

-- The tables that are only read: the name of a host, and the entries that its last run has seen.
pub record Catalogue : Type 0 where
  pub host_name : ℕ → Option Text
  pub last_run : ℕ → Option ℕ

abbrev pub is_active : ScanLease → Bool
is_active l = elim (l.status) [ active ↦ true | _ ↦ false ]

abbrev pub active_heavy : ScanLease → Bool
active_heavy l = is_active l && l.is_heavy

abbrev pub held_by : ℕ → ScanLease → Bool
held_by host_id l = l.host_id == host_id && is_active l

-- `expires_at <= now`, which is not true of NULL.
abbrev past : Option ℕ → ℕ → Bool
past none now = false
past (some t) now = leb t now

abbrev expire_row : ℕ → ScanLease → ScanLease
expire_row now l = if is_active l && past l.expires_at now then record l { status = expired } else l

unfoldable pub expire_stale : ℕ → List ScanLease → List ScanLease
expire_stale now rows = map (λ l. expire_row now l) rows

abbrev release_row : ℕ → ℕ → ScanLease → ScanLease
release_row host_id now l =
    if held_by host_id l then record l { status = released; released_at = some now } else l

-- The number of rows that the UPDATE matched, and the table after it.
unfoldable pub release_lease : ℕ → ℕ → List ScanLease → ℕ × List ScanLease
release_lease host_id now rows =
    (length (keep (λ l. held_by host_id l) rows), map (λ l. release_row host_id now l) rows)

module _ (settings : CoordinatorSettings) (tables : Catalogue) where
  abbrev heavy_run : Option ℕ → Bool
  heavy_run none = true
  heavy_run (some entries_seen) = leb settings.heavy_entries entries_seen

  unfoldable pub host_is_heavy : ℕ → Bool
  host_is_heavy host_id = heavy_run (tables.last_run host_id)

  abbrev pub granted_row : ℕ → Bool → ℕ → ScanLease
  granted_row host_id heavy now = record {
    host_id = host_id;
    is_heavy = heavy;
    status = active;
    expires_at = some (now + settings.lease_ttl);
    released_at = none;
    reason = none;
    blocking_host_id = none;
    retry_after_seconds = none;
  }

  unfoldable pub grant : ℕ → Bool → ℕ → List ScanLease → List ScanLease
  grant host_id heavy now rows = rows ++ granted_row host_id heavy now ∷ []

  abbrev yes : LeaseDecision
  yes = record {
    granted = true;
    status = active;
    reason = none;
    retry_after_seconds = none;
    blocking_host = none;
  }

  abbrev named : ℕ → Option Text → Text
  named id none = codes "host " ++ str_of (int id)
  named id (some name) = name

  abbrev because : Text → Text
  because blocking =
      codes "a heavy scan on "
      ++ blocking
      ++ codes " is in progress; deferring to avoid overloading the core"

  -- The row of a request that is deferred for the lease `l`.
  abbrev pub deferred_row : ℕ → ScanLease → ScanLease
  deferred_row host_id l = record {
    host_id = host_id;
    is_heavy = true;
    status = deferred;
    expires_at = none;
    released_at = none;
    reason = some (because (named l.host_id (tables.host_name l.host_id)));
    blocking_host_id = some l.host_id;
    retry_after_seconds = some settings.retry_after;
  }

  -- The first of the active heavy leases blocks; without one, the indexing of the empty list
  -- raises, which `none` stands for.
  unfoldable pub defer : ℕ → List ScanLease → List ScanLease → Option LeaseDecision × List ScanLease
  defer host_id [] rows = (none, rows)
  defer host_id (l ∷ others) rows =
      let blocking = named l.host_id (tables.host_name l.host_id) in
      (
        some (record {
          granted = false;
          status = deferred;
          reason = some (because blocking);
          retry_after_seconds = some settings.retry_after;
          blocking_host = some blocking;
        }),
        rows ++ deferred_row host_id l ∷ [],
      )

  -- The part of `request_lease` after the stale leases and the host's own are out of the way.
  unfoldable pub decide : ℕ → ℕ → List ScanLease → Option LeaseDecision × List ScanLease
  unfolding host_is_heavy grant defer
  decide host_id now rows =
      let others = keep (λ l. active_heavy l) rows in
      if not (host_is_heavy host_id)
      then (some yes, grant host_id false now rows)
      else if ltb (length others) settings.max_concurrent_heavy
      then (some yes, grant host_id true now rows)
      else defer host_id others rows

  unfoldable pub request_lease : ℕ → ℕ → List ScanLease → Option LeaseDecision × List ScanLease
  unfolding decide release_lease expire_stale
  request_lease host_id now rows =
      decide host_id now (release_lease host_id now (expire_stale now rows)).1
