-- ===== src/Remediation/Dispatch/Clean.antt =====
-- What the actor of agent/actor/dispatch.py executes of a job in which some items have drifted.
use fathomline.Prelude.{
  Bool, true, false, ◌&&◌, Option, none, some, List, [], ◌∷◌, any, ◌≡◌, refl, ap, ◌∙◌, sym, arith,
  ◌==◌, ==_refl, Bool-cases, inl, inr,
}
use fathomline.Prelude.Json.{Text, Text_eq}
use fathomline.Prelude.Dict.{has}
use fathomline.Prelude.Effect.{Outcome, ok, raised, bind-eq-ok}
use fathomline.Remediation.Plan.{str_of, PlanItem, RemediationPlan, is_empty}
use fathomline.Remediation.Os.{Os}
use fathomline.Remediation.Drift.{Drift}
use fathomline.Remediation.Mutation.{Fault}
use fathomline.Remediation.Job.{ActionJob}
use fathomline.Remediation.Planner.{
  VerifyReport, Hasher, verify_item, noted, verify_items, dry_run_verify,
}
use fathomline.Remediation.Planner.Report.{drift_found, drifts, dry_run_verify-has}
use fathomline.Remediation.Executor.{World, Surroundings, execute_with_audit}
use fathomline.Remediation.Dispatch.{
  plan_from_job, item_drifted, clean_items, aborted_results, verify_now, execute_clean,
  execute_plan, dispatch_execute,
}

clean_items-nil : (items : List PlanItem) → clean_items [] items ≡ items
unfolding has
clean_items-nil [] = refl
clean_items-nil (i ∷ items) = ap (λ rest. i ∷ rest) (clean_items-nil items)

module _ (os : Os) (fs : os.Fs) (hasher : Option (Hasher os)) where
  no_drift :
      (r : Outcome Fault (Option Drift)) {reason : Option Drift}
      → r ≡ ok reason
      → drift_found r ≡ false
      → r ≡ ok none
  no_drift (ok none) e h = refl
  no_drift (ok (some d)) e h = cc
  no_drift (raised f) e h = cc

  verify_again :
      (items : List PlanItem) (report before : VerifyReport) {out : VerifyReport}
      → verify_items os fs items hasher true before ≡ ok out
      → ((k : Text)
          → has k report ≡ false
          → any (λ (i : PlanItem). k == str_of i.entry_id && drifts os fs hasher true i) items
            ≡ false)
      → verify_items os fs (clean_items report items) hasher true [] ≡ ok []
  unfolding verify_items
  verify_again [] report before h complete = refl
  verify_again (i ∷ items) report before h complete =
      let (reason, found, rest) =
        bind-eq-ok (verify_item os fs i hasher true)
          (λ reason. verify_items os fs items hasher true (noted os i reason before)) h in
      let again =
        verify_again items report (noted os i reason before) rest
          (λ k c. ground (arith, complete k c)) in
      elim (Bool-cases (item_drifted report i)) [
        | inl bad ↦ rw bad again
        | inr good ↦
            let still : verify_item os fs i hasher true ≡ ok none =
              no_drift (verify_item os fs i hasher true) found
                (ground (arith, complete (str_of i.entry_id) good, ==_refl (str_of i.entry_id))) in
            rw (good, still) again
      ]

  verify_clean :
      (plan : RemediationPlan) (report : VerifyReport)
      → dry_run_verify os fs plan hasher true ≡ ok report
      → dry_run_verify os fs (record plan { items = clean_items report plan.items }) hasher true
        ≡ ok []
  unfolding dry_run_verify
  verify_clean plan report h =
      verify_again plan.items report [] h
        (λ k absent. sym (dry_run_verify-has os fs hasher true k plan h) ∙ absent)

module _ (os : Os) (env : Surroundings) (hasher : Option (Hasher os)) where
  abbrev pub clean_part : ActionJob → VerifyReport → RemediationPlan
  clean_part job report = record (plan_from_job job) {
    items = clean_items report (plan_from_job job).items;
  }

  by_clean :
      (job : ActionJob) (report : VerifyReport) (clean : List PlanItem) (confirm : Bool)
      (w : World os)
      → is_empty clean ≡ false
      → dry_run_verify os w.fs (record (plan_from_job job) { items = clean }) hasher true ≡ ok []
      → execute_clean os env hasher (plan_from_job job) report clean confirm w
        ≡ execute_with_audit os env (record (plan_from_job job) { items = clean }) [] confirm w
  unfolding execute_clean verify_now
  by_clean job report [] confirm w some_left again = cc
  by_clean job report (i ∷ clean) confirm w some_left again = rw again

  -- When the first dry run of a job does not raise and leaves items clean, the job is executed for
  -- exactly these items, as a plan with which the dry run finds nothing wrong, whether others have
  -- drifted or not.
  pub dispatch_execute-clean :
      (job : ActionJob) (report : VerifyReport) (confirm : Bool) (w : World os)
      → dry_run_verify os w.fs (plan_from_job job) hasher true ≡ ok report
      → is_empty (clean_items report job.items) ≡ false
      → dispatch_execute os env hasher job confirm w
        ≡ execute_with_audit os env (clean_part job report) [] confirm w
  unfolding dispatch_execute verify_now execute_plan execute_clean plan_from_job
  dispatch_execute-clean job [] confirm w h some_left = rw (h, clean_items-nil job.items)
  dispatch_execute-clean job (d ∷ report) confirm w h some_left = rw h (
      by_clean job (d ∷ report) (clean_items (d ∷ report) job.items) confirm w some_left
        (verify_clean os w.fs hasher (plan_from_job job) (d ∷ report) h))

  -- When the first dry run of a job does not raise, has found drift and leaves no item clean,
  -- nothing is executed: the world is as it was and the results are one aborted entry for each
  -- item that the report names.
  pub dispatch_execute-aborted :
      (job : ActionJob) (report : VerifyReport) (confirm : Bool) (w : World os)
      → dry_run_verify os w.fs (plan_from_job job) hasher true ≡ ok report
      → is_empty report ≡ false
      → is_empty (clean_items report job.items) ≡ true
      → dispatch_execute os env hasher job confirm w
        ≡ (ok (record { results = aborted_results report job.items; audit = [] }), w)
  unfolding dispatch_execute verify_now execute_plan execute_clean plan_from_job
  dispatch_execute-aborted job report confirm w h drift none_left =
      rw (h, drift) (abort (clean_items report job.items) none_left)
    where
      abort :
          (clean : List PlanItem)
          → is_empty clean ≡ true
          → execute_clean os env hasher (plan_from_job job) report clean confirm w
            ≡ (ok (record { results = aborted_results report job.items; audit = [] }), w)
      abort [] e = refl
      abort (i ∷ clean) e = cc
