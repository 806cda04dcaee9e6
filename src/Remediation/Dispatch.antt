-- ===== src/Remediation/Dispatch.antt =====
-- agent/actor/dispatch.py: what the actor does with a verified remediation job. A job has been
-- validated when it was read, so its plan id and its items are not empty.
pub mod Clean
pub mod Disabled
use fathomline.Prelude.{
  Bool, true, false, not, Option, none, some, List, [], ◌∷◌, map, keep, if◌then◌else◌,
}
use fathomline.Prelude.Json.{Text, Text_eq, codes}
use fathomline.Prelude.Dict.{has, get}
use fathomline.Prelude.Effect.{Outcome, ok, raised, Effect, pure, asks, ◌>>=◌}
use fathomline.Audit.{AuditRecord}
use fathomline.Remediation.Plan.{action_value, str_of, PlanItem, RemediationPlan, is_empty}
use fathomline.Remediation.Os.{Os}
use fathomline.Remediation.Drift.{Drift, drift_text}
use fathomline.Remediation.Mutation.{aborted_drift, Fault}
use fathomline.Remediation.Job.{ActionJob}
use fathomline.Remediation.Planner.{VerifyReport, report_ok, Hasher, dry_run_verify}
use fathomline.Remediation.Executor.{
  World, Surroundings, ExecResult, ExecOutcome, execute_with_audit,
}

unfoldable pub plan_from_job : ActionJob → RemediationPlan
plan_from_job job = record {
  plan_id = job.plan_id;
  created_by = codes "orchestrator";
  keeper_path = job.keeper_path;
  items = job.items;
  move_root = job.move_root;
}

abbrev pub item_drifted : VerifyReport → PlanItem → Bool
item_drifted report i = has (str_of i.entry_id) report

abbrev pub clean_items : VerifyReport → List PlanItem → List PlanItem
clean_items report items = keep (λ i. not (item_drifted report i)) items

abbrev aborted_for : PlanItem → Option Drift → List ExecResult → List ExecResult
aborted_for i none rest = rest
aborted_for i (some reason) rest =
    record {
      entry_id = str_of i.entry_id;
      action = action_value i.action;
      status = aborted_drift;
      detail = drift_text reason;
    }
    ∷ rest

-- One aborted result for each item that the report names.
pub aborted_results : VerifyReport → List PlanItem → List ExecResult
aborted_results report [] = []
aborted_results report (i ∷ items) =
    aborted_for i (get (str_of i.entry_id) report) (aborted_results report items)

module _ (os : Os) (env : Surroundings) (hasher : Option (Hasher os)) where
  abbrev Act : Type 0 → Type 0
  Act = Effect (World os) Fault

  -- `verify_hash` has its default here.
  pub verify_now : RemediationPlan → Act VerifyReport
  verify_now plan w = (dry_run_verify os w.fs plan hasher true, w)

  unfoldable pub dispatch_dry_run : ActionJob → Act VerifyReport
  unfolding verify_now plan_from_job
  dispatch_dry_run job = verify_now (plan_from_job job)

  execute_clean : RemediationPlan → VerifyReport → List PlanItem → Bool → Act ExecOutcome
  unfolding verify_now aborted_results
  execute_clean plan report [] confirm =
      pure (record { results = aborted_results report plan.items; audit = [] })
  execute_clean plan report (i ∷ clean) confirm = do
    again ← verify_now (record plan { items = i ∷ clean })
    execute_with_audit os env (record plan { items = i ∷ clean }) again confirm

  execute_plan : RemediationPlan → Bool → VerifyReport → Act ExecOutcome
  unfolding execute_clean
  execute_plan plan confirm report =
      if not (report_ok report)
      then execute_clean plan report (clean_items report plan.items) confirm
      else execute_with_audit os env plan report confirm

  unfoldable pub dispatch_execute : ActionJob → Bool → Act ExecOutcome
  unfolding execute_plan plan_from_job
  dispatch_execute job confirm = do
    report ← verify_now (plan_from_job job)
    execute_plan (plan_from_job job) confirm report
