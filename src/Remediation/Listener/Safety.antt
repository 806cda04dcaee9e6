-- ===== src/Remediation/Listener/Safety.antt =====
-- What the listener of agent/actor/listener.py lets happen to the files, and when.
use fathomline.Prelude.{
  ℕ, Bool, true, false, Option, none, some, ◌∷◌, ◌≡◌, refl, ap, ◌∙◌, Bool-cases, inl, inr, ◌⊎◌,
}
use fathomline.Prelude.Json.{Text_eq}
use fathomline.Prelude.Effect.{Outcome, ok, raised, Effect, and_then, pure, ◌>>=◌}
use fathomline.Paths.{PathSafetyError}
use fathomline.Paths.Scope.{in_scope}
use fathomline.Remediation.Os.{Os}
use fathomline.Remediation.Job.{
  JobMode, dry_run, execute, ActionJob, ScanJob, DispatchJob, action, scan, SignedJob, nonce_of,
}
use fathomline.Remediation.Mutation.{Fault}
use fathomline.Remediation.Executor.{World}
use fathomline.Remediation.Dispatch.{dispatch_dry_run, dispatch_execute}
use fathomline.Remediation.Dispatch.Disabled.{dispatch_dry_run-same, dispatch_execute-same}
use fathomline.Remediation.Signing.{VerifyError, verify_job}
use fathomline.Remediation.Signing.Replay.{
  Accepts, accepted, verify_job-Accepts, verify_job-refused,
}
use fathomline.Remediation.Listener.{
  Agent, Listener, Dispatcher, ScanDispatcher, JobResult, ListenerError, unverified, handle,
  verified, route, run_action, with_dispatcher, with_scanner, dispatch_scan, in_world, lifted,
  execute_result, run_scan, demand_in_scope,
}

module _ (os : Os) where
  -- What stays of an agent when only a scan may be started.
  abbrev SameFiles : Agent os → Agent os → Type 0
  SameFiles s s' = (s'.world ≡ s.world) × (s'.ledger ≡ s.ledger)

  and_then-SameFiles :
      {A B : Type 0} (r : Outcome ListenerError A) (f : A → Effect (Agent os) ListenerError B)
      (s s' : Agent os)
      → SameFiles s s'
      → ((a : A) → SameFiles s (f a s').1)
      → SameFiles s (and_then r f s').1
  and_then-SameFiles (ok a) f s s' h k = k a
  and_then-SameFiles (raised e) f s s' h k = h

  demand-same : (o : Outcome PathSafetyError Bool) (s : Agent os) → (demand_in_scope os o s).1 ≡ s
  demand-same (raised e) s = refl
  demand-same (ok true) s = refl
  demand-same (ok false) s = refl

  pub dispatch_scan-SameFiles :
      (d : ScanDispatcher) (job : ScanJob) (s : Agent os) → SameFiles s (dispatch_scan os d job s).1
  unfolding dispatch_scan
  dispatch_scan-SameFiles d job s =
      let o = in_scope d.places d.parents d.config job.root in
      let same = demand-same o s in
      and_then-SameFiles (demand_in_scope os o s).0 _ s (demand_in_scope os o s).1
        (ap (λ (t : Agent os). t.world) same, ap (λ (t : Agent os). t.ledger) same)
        (λ _.
          and_then-SameFiles (run_scan os d job (demand_in_scope os o s).1).0 _ s
            (run_scan os d job (demand_in_scope os o s).1).1
            (ap (λ (t : Agent os). t.world) same, ap (λ (t : Agent os). t.ledger) same)
            (λ summary.
              (ap (λ (t : Agent os). t.world) same, ap (λ (t : Agent os). t.ledger) same)))

  module _ (l : Listener os) where
    -- Why the files may have changed.
    pub record Authorised (signed : SignedJob) (now : ℕ) (s s' : Agent os) : Type 0 where
      pub job : ActionJob
      pub parts : Dispatcher os
      pub of_job : signed.job ≡ action job
      pub executes : job.mode ≡ execute
      pub present : l.dispatcher ≡ some parts
      pub enabled : parts.env.settings.write_enabled ≡ true
      pub accepts : Accepts l.verify_signature l.host_id signed now s.ledger
      pub spent : s'.ledger ≡ nonce_of signed.job ∷ s.ledger

    -- A job that is accepted is carried out with its nonce spent.
    pub handle-accepted :
        (signed : SignedJob) (confirm : Bool) (now : ℕ) (s : Agent os)
        → Accepts l.verify_signature l.host_id signed now s.ledger
        → handle os l signed confirm now s
          ≡ route os l confirm signed.job (record s { ledger = nonce_of signed.job ∷ s.ledger })
    unfolding handle verified
    handle-accepted signed confirm now s a =
        rw ((verify_job-Accepts l.verify_signature l.host_id signed now s.ledger).1 a) refl

    -- A job that is not leaves the agent as it was.
    pub handle-refused :
        (signed : SignedJob) (confirm : Bool) (now : ℕ) (s : Agent os) (e : VerifyError)
        → (verify_job l.verify_signature l.host_id signed now s.ledger).0 ≡ raised e
        → handle os l signed confirm now s ≡ (raised (unverified e), s)
    unfolding handle verified
    handle-refused signed confirm now s e h =
        rw (h, verify_job-refused l.verify_signature l.host_id signed now s.ledger h) refl

    -- What the executor's part of the world is after a job, and nothing else has changed.
    pub piped :
        {A : Type 0} (m : Effect (World os) Fault A) (f : A → JobResult) (s : Agent os)
        → ((in_world os m >>= λ a. pure (f a)) s).1 ≡ record s { world = (m s.world).1 }
    piped {A = A} m f s = by_outcome (m s.world).0 (m s.world).1
      where
        by_outcome :
            (r : Outcome Fault A) (w : World os)
            → (and_then (lifted os r) (λ a. pure (f a)) (record s { world = w })).1
              ≡ record s { world = w }
        by_outcome (ok a) w = refl
        by_outcome (raised e) w = refl

    dry_run-same :
        (d : Dispatcher os) (job : ActionJob) (confirm : Bool) (s : Agent os)
        → (run_action os d dry_run job confirm s).1.world ≡ s.world
    dry_run-same d job confirm s =
        ap (λ (t : Agent os). t.world) (piped (dispatch_dry_run os d.env d.hasher job) _ s)
        ∙ dispatch_dry_run-same os d.env d.hasher job s.world

    execute-cases :
        (d : Dispatcher os) (job : ActionJob) (confirm : Bool) (s : Agent os)
        → let s' = (run_action os d execute job confirm s).1 in
          (s'.world ≡ s.world) ⊎ ((d.env.settings.write_enabled ≡ true) × (s'.ledger ≡ s.ledger))
    execute-cases d job confirm s =
        let run =
          piped (dispatch_execute os d.env d.hasher job confirm) (execute_result os job) s in
        elim (Bool-cases d.env.settings.write_enabled) [
          | inl e ↦ inr (e, ap (λ (t : Agent os). t.ledger) run)
          | inr e ↦ inl (
              ap (λ (t : Agent os). t.world) run
              ∙ dispatch_execute-same os d.env d.hasher e job confirm s.world)
        ]

    -- The cases of `route` for a job that was accepted.
    module _ (signed : SignedJob) (confirm : Bool) (now : ℕ) (s : Agent os)
        (a : Accepts l.verify_signature l.host_id signed now s.ledger) where
      spent_state : Agent os
      spent_state = record s { ledger = nonce_of signed.job ∷ s.ledger }

      Fine : Agent os → Type 0
      Fine s' = (s'.world ≡ s.world) ⊎ Authorised signed now s s'

      by_parts :
          (job : ActionJob) (mode : JobMode) (d : Dispatcher os)
          → signed.job ≡ action job
          → job.mode ≡ mode
          → l.dispatcher ≡ some d
          → Fine (run_action os d mode job confirm spent_state).1
      unfolding spent_state Fine
      by_parts job dry_run d e m p = inl (dry_run-same d job confirm spent_state)
      by_parts job execute d e m p = elim (execute-cases d job confirm spent_state) [
        | inl same ↦ inl same
        | inr (enabled, ledger) ↦ inr (record {
          job = job;
          parts = d;
          of_job = e;
          executes = m;
          present = p;
          enabled = enabled;
          accepts = a;
          spent = ledger;
        })
      ]

      by_dispatcher :
          (job : ActionJob) (o : Option (Dispatcher os))
          → signed.job ≡ action job
          → l.dispatcher ≡ o
          → Fine (with_dispatcher os l o job confirm spent_state).1
      unfolding spent_state Fine
      by_dispatcher job none e p = inl refl
      by_dispatcher job (some d) e p = by_parts job job.mode d e refl p

      by_scanner :
          (job : ScanJob) (o : Option ScanDispatcher) → Fine (with_scanner os l o job spent_state).1
      unfolding spent_state Fine
      by_scanner job none = inl refl
      by_scanner job (some d) = inl (dispatch_scan-SameFiles d job spent_state).0

      by_job : (j : DispatchJob) → signed.job ≡ j → Fine (route os l confirm j spent_state).1
      unfolding spent_state Fine
      by_job (scan job) e = by_scanner job l.scan_dispatcher
      by_job (action job) e = by_dispatcher job l.dispatcher e refl

    -- Whatever job arrives, and whether it is refused, returns or stops on an error, the files and
    -- the executor's audit chain are as they were, unless the job's signature verified, it was
    -- addressed to this host, in its time window and not replayed, it is an execute job, the
    -- listener has a write path and writing is enabled; and then the job's nonce is spent.
    pub handle-Authorised :
        (signed : SignedJob) (confirm : Bool) (now : ℕ) (s : Agent os)
        → let s' = (handle os l signed confirm now s).1 in
          (s'.world ≡ s.world) ⊎ Authorised signed now s s'
    handle-Authorised signed confirm now s =
        by_answer (verify_job l.verify_signature l.host_id signed now s.ledger).0 refl
      where
        by_answer :
            (r : Outcome VerifyError DispatchJob)
            → (verify_job l.verify_signature l.host_id signed now s.ledger).0 ≡ r
            → let s' = (handle os l signed confirm now s).1 in
              (s'.world ≡ s.world) ⊎ Authorised signed now s s'
        by_answer (raised e) h = rw (handle-refused signed confirm now s e h) (inl refl)
        by_answer (ok j) h =
            let a = (accepted l.verify_signature l.host_id signed now s.ledger h).0 in
            rw (handle-accepted signed confirm now s a)
              (unfold spent_state Fine in by_job signed confirm now s a signed.job refl)
