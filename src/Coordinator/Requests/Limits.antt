-- ===== src/Coordinator/Requests/Limits.antt =====
-- How far the requests of core/scan_coordinator.py that come in between of each other can exceed the
-- limit, and that one that runs alone does what `request_lease` says.
use fathomline.Prelude.{
  ℕ, ◌+◌, ◌-◌, ◌≤◌, ◌<◌, Bool, true, false, List, [], ◌∷◌, keep, ◌==◌, ℕ_eq, ltb, ◌≡◌, refl, arith,
  Bool-cases, inl, inr, subst,
}
use fathomline.Coordinator.{
  ScanLease, CoordinatorSettings, Catalogue, active_heavy, held_by, expire_stale, release_lease,
  host_is_heavy, request_lease, decide, grant, defer,
}
use fathomline.Coordinator.Leases.{
  count, count-append, expire-count, release-count, release-none, expire_row-heavy, expire_row-held,
  release_row-heavy, release_row-held,
}
use fathomline.Coordinator.Requests.{
  Stage, to_expire, to_release, to_weigh, to_count, to_insert, Request, CoordinatorState, put_off,
  proceed, kept, proceed_at, Event, asks_for_lease, goes_on, step, steps, started,
}
use fathomline.Coordinator.Requests.Bounds.{Proceeds, left_claims, steps-Bounded}

-- A request may still add an active heavy lease when it has decided on one.
abbrev adds_heavy : Request → Stage → Bool
adds_heavy r (to_insert row) = active_heavy row
adds_heavy r _ = false

-- A request of the host may add an active lease once it has released the host's own.
abbrev adds_held : ℕ → Request → Stage → Bool
adds_held h r to_expire = false
adds_held h r to_release = false
adds_held h r to_weigh = r.host_id == h
adds_held h r to_count = r.host_id == h
adds_held h r (to_insert row) = held_by h row

abbrev pub state_of : Catalogue → List Request × List ScanLease → CoordinatorState
state_of tables (requests, rows) = record { rows = rows; tables = tables; requests = requests }

-- A request whose statements come one directly after the other.
abbrev pub uninterrupted : ℕ → ℕ → List Event
uninterrupted host_id now =
    asks_for_lease host_id now ∷ goes_on 0 ∷ goes_on 0 ∷ goes_on 0 ∷ goes_on 0 ∷ goes_on 0 ∷ []

module _ (settings : CoordinatorSettings) where
  put_off-heavy :
      (tables : Catalogue) (r : Request) (others : List ScanLease)
      → left_claims active_heavy adds_heavy (put_off settings tables r others) ≡ 0
  put_off-heavy tables r [] = refl
  put_off-heavy tables r (l ∷ others) = refl

  put_off-held :
      (h : ℕ) (tables : Catalogue) (r : Request) (others : List ScanLease)
      → left_claims (held_by h) (adds_held h) (put_off settings tables r others) ≡ 0
  put_off-held h tables r [] = refl
  put_off-held h tables r (l ∷ others) = ground arith

  proceed-heavy : Proceeds active_heavy adds_heavy settings settings.max_concurrent_heavy
  unfolding proceed
  proceed-heavy tables r to_expire rows =
      inl (omega (arith, expire-count active_heavy r.now rows (expire_row-heavy r.now)))
  proceed-heavy tables r to_release rows = inl (
      omega (
        arith,
        release-count active_heavy r.host_id r.now rows (release_row-heavy r.host_id r.now),
      ))
  proceed-heavy tables r to_weigh rows =
      elim (Bool-cases (host_is_heavy settings tables r.host_id)) [
        | inl heavy ↦ rw heavy (inl (omega arith))
        | inr light ↦ rw light (inl (omega arith))
      ]
  proceed-heavy tables r to_count rows =
      elim (Bool-cases (ltb (count active_heavy rows) settings.max_concurrent_heavy)) [
        | inl free ↦ inr (ground (arith, free))
        | inr full ↦ rw (full, put_off-heavy tables r (keep active_heavy rows)) (inl (omega arith))
      ]
  proceed-heavy tables r (to_insert row) rows =
      inl (ground (arith, count-append active_heavy rows (row ∷ [])))

  proceed-held : (h : ℕ) → Proceeds (held_by h) (adds_held h) settings 1
  unfolding proceed
  proceed-held h tables r to_expire rows =
      inl (omega (arith, expire-count (held_by h) r.now rows (expire_row-held r.now h)))
  proceed-held h tables r to_release rows = elim (Bool-cases (r.host_id == h)) [
    | inl same ↦
        let e : r.host_id ≡ h = ground (arith, same) in
        inr (
          subst (λ k. count (held_by k) (release_lease r.host_id r.now rows).1 < 1) e
            (omega (arith, release-none r.host_id r.now rows)))
    | inr other ↦ rw other (
        inl (
          omega (
            arith,
            release-count (held_by h) r.host_id r.now rows (release_row-held r.host_id r.now h),
          )))
  ]
  proceed-held h tables r to_weigh rows =
      elim (Bool-cases (host_is_heavy settings tables r.host_id)) [
        | inl heavy ↦ rw heavy (inl (omega arith))
        | inr light ↦ rw light (inl (ground arith))
      ]
  proceed-held h tables r to_count rows =
      elim (Bool-cases (ltb (count active_heavy rows) settings.max_concurrent_heavy)) [
        | inl free ↦ rw free (inl (ground arith))
        | inr full ↦ rw (full, put_off-held h tables r (keep active_heavy rows)) (inl (omega arith))
      ]
  proceed-held h tables r (to_insert row) rows =
      inl (ground (arith, count-append (held_by h) rows (row ∷ [])))

  put_off_or_gone :
      (tables : Catalogue) (r : Request) (others rows : List ScanLease)
      → let requests = kept (put_off settings tables r others) [] in
        let (requests', rows') = proceed_at settings tables 0 requests rows in
        state_of tables (requests', rows')
        ≡ state_of tables ([], (defer settings tables r.host_id others rows).1)
  unfolding proceed_at proceed defer
  put_off_or_gone tables r [] rows = refl
  put_off_or_gone tables r (l ∷ others) rows = refl

  -- A request that nothing comes in between of, in the order in which its statements stand, leaves the
  -- rows that `request_lease` leaves, and nothing under way.
  steps-alone :
      (workers : ℕ) (tables : Catalogue) (rows : List ScanLease) (host_id now : ℕ)
      → 0 < workers
      → steps settings workers (state_of tables ([], rows)) (uninterrupted host_id now)
        ≡ state_of tables ([], (request_lease settings tables host_id now rows).1)
  unfolding steps step proceed_at proceed request_lease decide grant
  steps-alone workers tables rows host_id now some_worker =
      let room : ltb 0 workers ≡ true = ground (arith, some_worker) in
      let r : Request = record { host_id = host_id; now = now; stage = to_count } in
      let cleared = (release_lease host_id now (expire_stale now rows)).1 in
      rw room (elim (Bool-cases (host_is_heavy settings tables host_id)) [
        | inr light ↦ rw light refl
        | inl heavy ↦
            elim (Bool-cases (ltb (count active_heavy cleared) settings.max_concurrent_heavy)) [
              | inl free ↦ rw (heavy, free) refl
              | inr full ↦
                  rw (heavy, full) (put_off_or_gone tables r (keep active_heavy cleared) cleared)
            ]
      ])

  -- However agents ask for leases and report their runs, at whatever times and with whatever counts
  -- of entries, and in whatever order the statements of the requests that are under way come, of
  -- which there are never more than `workers` (a statement takes effect at once, for all): from an
  -- empty table on, the active heavy leases are at most as many as the setting allows and one less
  -- than the workers, so no more than the setting when only one request is served at a time; no host
  -- has more active leases than there are workers; and a request that nothing comes in between of
  -- leaves the rows that `request_lease` leaves, and nothing under way.
  pub steps-bounded :
      (workers : ℕ) (tables : Catalogue) (events : List Event)
      → 0 < workers
      → let rows = (steps settings workers (started tables) events).rows in
        (count active_heavy rows ≤ settings.max_concurrent_heavy + (workers - 1))
        × ((h : ℕ) → count (held_by h) rows ≤ workers)
        × ((table : List ScanLease) (host_id now : ℕ)
            → steps settings workers (state_of tables ([], table)) (uninterrupted host_id now)
              ≡ state_of tables ([], (request_lease settings tables host_id now table).1))
  steps-bounded workers tables events some_worker =
      let heavy =
        steps-Bounded active_heavy adds_heavy settings settings.max_concurrent_heavy proceed-heavy
          workers (λ h now rows. release-count active_heavy h now rows (release_row-heavy h now))
          (λ h now. refl) (started tables) events
          (record { few = omega arith; bound = omega arith }) in
      (
        omega (arith, heavy.bound, some_worker),
        λ h.
            let held =
              steps-Bounded (held_by h) (adds_held h) settings 1 (proceed-held h) workers
                (λ g now rows. release-count (held_by h) g now rows (release_row-held g now h))
                (λ g now. refl) (started tables) events
                (record { few = omega arith; bound = omega arith }) in
            omega (arith, held.bound),
        λ table host_id now. steps-alone workers tables table host_id now some_worker,
      )
