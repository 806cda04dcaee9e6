-- ===== src/Coordinator/Deciding.antt =====
-- What `request_lease` of core/scan_coordinator.py decides.
use fathomline.Prelude.{
  ℕ, ◌≤◌, Bool, true, false, not, ◌||◌, some, List, [], ◌∷◌, ◌++◌, keep, length, ◌≡◌, refl, arith,
  Bool-cases, inl, inr, ℕ_eq, ltb,
}
use fathomline.Coordinator.{
  ScanLease, LeaseDecision, CoordinatorSettings, Catalogue, active_heavy, expire_stale,
  release_lease, host_is_heavy, grant, granted_row, defer, decide, request_lease,
}
use fathomline.Coordinator.Leases.{count}

module _ (settings : CoordinatorSettings) (tables : Catalogue) where
  -- The table when `request_lease` comes to decide.
  abbrev pub cleared : ℕ → ℕ → List ScanLease → List ScanLease
  cleared host_id now rows = (release_lease host_id now (expire_stale now rows)).1

  -- With a limit of at least one, a request is always decided. It is granted exactly when the host's
  -- scan is light or fewer heavy leases than the limit are active, once the stale leases and those
  -- of the host are out of the way; then the host's lease, for the whole time to live, is the one
  -- row that is added.
  pub request_lease-decides :
      (host_id now : ℕ) (rows : List ScanLease)
      → 1 ≤ settings.max_concurrent_heavy
      → let r = request_lease settings tables host_id now rows in
        let heavy = host_is_heavy settings tables host_id in
        let free =
          ltb (count active_heavy (cleared host_id now rows)) settings.max_concurrent_heavy in
        ((d : LeaseDecision) × (r.0 ≡ some d) × (d.granted ≡ (not heavy || free)))
        × ((not heavy || free) ≡ true
            → r.1 ≡ cleared host_id now rows ++ granted_row settings tables host_id heavy now ∷ [])
  unfolding request_lease decide grant defer
  request_lease-decides host_id now rows some_room =
      let t = cleared host_id now rows in
      by_case t (host_is_heavy settings tables host_id) refl (keep active_heavy t) refl
    where
      by_case :
          (t : List ScanLease) (heavy : Bool)
          → host_is_heavy settings tables host_id ≡ heavy
          → (others : List ScanLease) → keep active_heavy t ≡ others
          → let r = decide settings tables host_id now t in
            let free = ltb (length others) settings.max_concurrent_heavy in
            ((d : LeaseDecision) × (r.0 ≡ some d) × (d.granted ≡ (not heavy || free)))
            × ((not heavy || free) ≡ true
                → r.1 ≡ t ++ granted_row settings tables host_id heavy now ∷ [])
      by_case t false h others o = rw h ((_, refl, refl), λ e. refl)
      by_case t true h others o =
          elim (Bool-cases (ltb (length others) settings.max_concurrent_heavy)) [
            | inl free ↦ rw (h, o, free) ((_, refl, refl), λ e. refl)
            | inr full ↦ rw (h, o, full) (deferred_for others full)
          ]
        where
          deferred_for :
              (others : List ScanLease)
              → ltb (length others) settings.max_concurrent_heavy ≡ false
              → let r = defer settings tables host_id others t in
                ((d : LeaseDecision) × (r.0 ≡ some d) × (d.granted ≡ false))
                × (false ≡ true → r.1 ≡ t ++ granted_row settings tables host_id true now ∷ [])
          deferred_for [] full = absurd (ground arith)
          deferred_for (l ∷ others) full = ((_, refl, refl), λ e. cc)
