-- ===== src/Remediation/Dispatch/Disabled.antt =====
-- What agent/actor/dispatch.py does where writing is not enabled.
use fathomline.Prelude.{
  Bool, true, false, Option, List, [], ◌∷◌, ◌≡◌, refl, ap, Bool-cases, inl, inr,
}
use fathomline.Prelude.Effect.{Outcome, ok, raised, Effect, and_then}
use fathomline.Remediation.Plan.{PlanItem, RemediationPlan}
use fathomline.Remediation.Os.{Os}
use fathomline.Remediation.Mutation.{Fault}
use fathomline.Remediation.Job.{ActionJob}
use fathomline.Remediation.Planner.{VerifyReport, report_ok, Hasher, dry_run_verify}
use fathomline.Remediation.Executor.{World, Surroundings, execute_with_audit}
use fathomline.Remediation.Executor.Guards.{execute_with_audit-refused}
use fathomline.Remediation.Dispatch.{
  plan_from_job, clean_items, verify_now, execute_clean, execute_plan, dispatch_execute,
  dispatch_dry_run,
}

module _ (os : Os) (env : Surroundings) (hasher : Option (Hasher os)) where
  and_then-same :
      {A B : Type 0} (r : Outcome Fault A) (f : A → Effect (World os) Fault B) (w : World os)
      → ((a : A) → (f a w).1 ≡ w)
      → (and_then r f w).1 ≡ w
  and_then-same (ok a) f w h = h a
  and_then-same (raised e) f w h = refl

  -- A dry run changes nothing.
  pub dispatch_dry_run-same :
      (job : ActionJob) (w : World os) → (dispatch_dry_run os env hasher job w).1 ≡ w
  unfolding dispatch_dry_run verify_now
  dispatch_dry_run-same job w = refl

  module _ (disabled : env.settings.write_enabled ≡ false) where
    executed-same :
        (plan : RemediationPlan) (report : VerifyReport) (confirm : Bool) (w : World os)
        → (execute_with_audit os env plan report confirm w).1 ≡ w
    executed-same plan report confirm w =
        ap (λ p. p.1) (execute_with_audit-refused os env plan report confirm w (rw disabled refl))

    clean-same :
        (plan : RemediationPlan) (report : VerifyReport) (clean : List PlanItem) (confirm : Bool)
        (w : World os)
        → (execute_clean os env hasher plan report clean confirm w).1 ≡ w
    unfolding execute_clean verify_now
    clean-same plan report [] confirm w = refl
    clean-same plan report (i ∷ clean) confirm w =
        and_then-same (dry_run_verify os w.fs (record plan { items = i ∷ clean }) hasher true) _ w
          (λ again. executed-same (record plan { items = i ∷ clean }) again confirm w)

    plan-same :
        (plan : RemediationPlan) (confirm : Bool) (report : VerifyReport) (w : World os)
        → (execute_plan os env hasher plan confirm report w).1 ≡ w
    unfolding execute_plan
    plan-same plan confirm report w = elim (Bool-cases (report_ok report)) [
      | inl e ↦ rw e (executed-same plan report confirm w)
      | inr e ↦ rw e (clean-same plan report (clean_items report plan.items) confirm w)
    ]

    -- An execution of a job changes nothing.
    pub dispatch_execute-same :
        (job : ActionJob) (confirm : Bool) (w : World os)
        → (dispatch_execute os env hasher job confirm w).1 ≡ w
    unfolding dispatch_execute verify_now
    dispatch_execute-same job confirm w =
        and_then-same (dry_run_verify os w.fs (plan_from_job job) hasher true) _ w
          (λ report. plan-same (plan_from_job job) confirm report w)
