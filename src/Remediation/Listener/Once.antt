-- ===== src/Remediation/Listener/Once.antt =====
-- The listener of agent/actor/listener.py over time: a signed job is carried out once.
use fathomline.Prelude.{
  ℕ, Bool, true, Option, none, some, List, [], ◌∷◌, ◌≡◌, refl, arith, ap, ◌∙◌, member, member-head,
}
use fathomline.Prelude.Json.{Text, Text_eq}
use fathomline.Prelude.Effect.{Outcome, ok, raised}
use fathomline.Remediation.Os.{Os}
use fathomline.Remediation.Job.{
  JobMode, dry_run, execute, ActionJob, DispatchJob, action, scan, SignedJob, nonce_of,
}
use fathomline.Remediation.Dispatch.{dispatch_dry_run, dispatch_execute}
use fathomline.Remediation.Signing.{VerifyError, verify_job}
use fathomline.Remediation.Signing.Replay.{Accepts, accepted}
use fathomline.Remediation.Listener.{
  Agent, Listener, Dispatcher, ScanDispatcher, unverified, handle, route, run_action,
  with_dispatcher, dry_run_result, execute_result, Arrival,
}
use fathomline.Remediation.Listener.Safety.{
  dispatch_scan-SameFiles, piped, handle-accepted, handle-refused,
}

module _ (os : Os) (l : Listener os) where
  run_action-ledger :
      (d : Dispatcher os) (mode : JobMode) (job : ActionJob) (confirm : Bool) (s : Agent os)
      → (run_action os d mode job confirm s).1.ledger ≡ s.ledger
  run_action-ledger d dry_run job confirm s =
      ap (λ (t : Agent os). t.ledger)
        (piped os l (dispatch_dry_run os d.env d.hasher job) (dry_run_result os job) s)
  run_action-ledger d execute job confirm s =
      ap (λ (t : Agent os). t.ledger)
        (piped os l (dispatch_execute os d.env d.hasher job confirm) (execute_result os job) s)

  with_dispatcher-ledger :
      (o : Option (Dispatcher os)) (job : ActionJob) (confirm : Bool) (s : Agent os)
      → (with_dispatcher os l o job confirm s).1.ledger ≡ s.ledger
  with_dispatcher-ledger none job confirm s = refl
  with_dispatcher-ledger (some d) job confirm s = run_action-ledger d job.mode job confirm s

  route-ledger :
      (j : DispatchJob) (confirm : Bool) (s : Agent os) (o : Option ScanDispatcher)
      → l.scan_dispatcher ≡ o
      → (route os l confirm j s).1.ledger ≡ s.ledger
  route-ledger (action job) confirm s o e = with_dispatcher-ledger l.dispatcher job confirm s
  route-ledger (scan job) confirm s none e = rw e refl
  route-ledger (scan job) confirm s (some d) e = rw e (dispatch_scan-SameFiles os d job s).1

  -- The agent after some arrivals, one after the other.
  unfoldable pub handle_all : List Arrival → Agent os → Agent os
  handle_all [] s = s
  handle_all (a ∷ arrivals) s = handle_all arrivals (handle os l a.signed a.confirm_blast a.now s).1

  -- The ledger of a state after a call has the nonces that it had, and that of an accepted job.
  grows :
      (a : Arrival) (s : Agent os) (n : Text)
      → member n s.ledger ≡ true
      → member n (handle os l a.signed a.confirm_blast a.now s).1.ledger ≡ true
  grows a s n h = by_answer (verify_job l.verify_signature l.host_id a.signed a.now s.ledger).0 refl
    where
      by_answer :
          (r : Outcome VerifyError DispatchJob)
          → (verify_job l.verify_signature l.host_id a.signed a.now s.ledger).0 ≡ r
          → member n (handle os l a.signed a.confirm_blast a.now s).1.ledger ≡ true
      by_answer (raised e) r = rw (handle-refused os l a.signed a.confirm_blast a.now s e r) h
      by_answer (ok j) r =
          let acc = (accepted l.verify_signature l.host_id a.signed a.now s.ledger r).0 in
          rw
            (
              handle-accepted os l a.signed a.confirm_blast a.now s acc,
              route-ledger a.signed.job a.confirm_blast
                  (record s { ledger = nonce_of a.signed.job ∷ s.ledger }) l.scan_dispatcher refl,
            )
            (ground (arith, h))

  all_grow :
      (arrivals : List Arrival) (s : Agent os) (n : Text)
      → member n s.ledger ≡ true
      → member n (handle_all arrivals s).ledger ≡ true
  unfolding handle_all
  all_grow [] s n h = h
  all_grow (a ∷ arrivals) s n h = all_grow arrivals _ n (grows a s n h)

  known_refused :
      (signed : SignedJob) (confirm : Bool) (now : ℕ) (s : Agent os)
      → member (nonce_of signed.job) s.ledger ≡ true
      → (e : VerifyError) × (handle os l signed confirm now s ≡ (raised (unverified e), s))
  known_refused signed confirm now s h =
      by_answer (verify_job l.verify_signature l.host_id signed now s.ledger).0 refl
    where
      by_answer :
          (r : Outcome VerifyError DispatchJob)
          → (verify_job l.verify_signature l.host_id signed now s.ledger).0 ≡ r
          → (e : VerifyError) × (handle os l signed confirm now s ≡ (raised (unverified e), s))
      by_answer (raised e) r = (e, handle-refused os l signed confirm now s e r)
      by_answer (ok j) r =
          absurd (
            ground
              (arith, h, (accepted l.verify_signature l.host_id signed now s.ledger r).0.fresh))

  -- Once a signed job has been accepted, and whatever has arrived since, it is refused whenever it
  -- arrives again, confirmed or not, and leaves the whole agent as it was: its files, its audit
  -- chain, its ledger and the scans that it has started.
  pub handle-handle_all :
      (signed : SignedJob) (confirm : Bool) (now : ℕ) (s : Agent os) (arrivals : List Arrival)
      (confirm' : Bool) (now' : ℕ)
      → Accepts l.verify_signature l.host_id signed now s.ledger
      → let s' = handle_all arrivals (handle os l signed confirm now s).1 in
        (e : VerifyError) × (handle os l signed confirm' now' s' ≡ (raised (unverified e), s'))
  handle-handle_all signed confirm now s arrivals confirm' now' a =
      let first = handle-accepted os l signed confirm now s a in
      let ledger : (handle os l signed confirm now s).1.ledger ≡ nonce_of signed.job ∷ s.ledger =
        ap (λ p. p.1.ledger) first
        ∙ route-ledger signed.job confirm (record s { ledger = nonce_of signed.job ∷ s.ledger })
            l.scan_dispatcher refl in
      known_refused signed confirm' now' _ (
        all_grow arrivals _ (nonce_of signed.job)
          (rw ledger (member-head (nonce_of signed.job) s.ledger)))
