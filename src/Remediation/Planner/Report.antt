-- ===== src/Remediation/Planner/Report.antt =====
-- What the report of agent/actor/planner.py says of a plan.
use fathomline.Prelude.{
  Bool, true, false, ◌&&◌, ◌||◌, Option, none, some, List, [], ◌∷◌, any, ◌≡◌, ap, ◌∙◌, arith, ◌==◌,
}
use fathomline.Prelude.Json.{Text, Text_eq}
use fathomline.Prelude.Dict.{has, has-put}
use fathomline.Prelude.Effect.{Outcome, ok, bind-eq-ok}
use fathomline.Remediation.Plan.{str_of, PlanItem, RemediationPlan}
use fathomline.Remediation.Os.{Os}
use fathomline.Remediation.Drift.{Drift}
use fathomline.Remediation.Mutation.{Fault}
use fathomline.Remediation.Planner.{
  VerifyReport, Hasher, verify_item, noted, verify_items, dry_run_verify,
}

-- Whether the item's own check has found drift.
abbrev pub drift_found : Outcome Fault (Option Drift) → Bool
drift_found (ok (some d)) = true
drift_found _ = false

module _ (os : Os) (fs : os.Fs) (hasher : Option (Hasher os)) (verify_hash : Bool) where
  abbrev pub drifts : PlanItem → Bool
  drifts item = drift_found (verify_item os fs item hasher verify_hash)

  has-noted :
      (k : Text) (item : PlanItem) (reason : Option Drift) (report : VerifyReport)
      → has k (noted os item reason report)
        ≡ (k == str_of item.entry_id && drift_found (ok reason) || has k report)
  has-noted k item none report = ground arith
  has-noted k item (some d) report = rw has-put (ground arith)

  verify_items-has :
      (k : Text) (items : List PlanItem) (report : VerifyReport) {out : VerifyReport}
      → verify_items os fs items hasher verify_hash report ≡ ok out
      → has k out
        ≡ (any (λ (i : PlanItem). k == str_of i.entry_id && drifts i) items || has k report)
  unfolding verify_items
  verify_items-has k [] report h = ground arith
  verify_items-has k (item ∷ items) report {out} h =
      let (reason, found, rest) =
        bind-eq-ok (verify_item os fs item hasher verify_hash)
          (λ reason. verify_items os fs items hasher verify_hash (noted os item reason report)) h in
      verify_items-has k items (noted os item reason report) rest
      ∙ ap (λ b. any (λ (i : PlanItem). k == str_of i.entry_id && drifts i) items || b)
          (has-noted k item reason report)
      ∙ ground (arith, found)

  -- A dry run that does not raise reports an id exactly when the check of some item with that id
  -- has found drift.
  pub dry_run_verify-has :
      (k : Text) (plan : RemediationPlan) {report : VerifyReport}
      → dry_run_verify os fs plan hasher verify_hash ≡ ok report
      → has k report ≡ any (λ (i : PlanItem). k == str_of i.entry_id && drifts i) plan.items
  unfolding dry_run_verify has
  dry_run_verify-has k plan h = ground (arith, verify_items-has k plan.items [] h)
