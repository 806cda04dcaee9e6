-- ===== src/Remediation/Executor.antt =====
-- agent/actor/executor.py: the guarded executor. The file system, blake3, the JSON writer, the
-- clock and the sink of the audit chain are parameters.
pub mod Guards
pub mod Runs
pub mod Reports
pub mod Deletes
mod Tests
use fathomline.Prelude.{
  ℕ, Bool, true, false, not, ◌&&◌, ◌||◌, Option, none, some, List, [], ◌∷◌, ◌++◌, keep, any, length,
  if◌then◌else◌, Eq, ◌==◌, ℕ_eq, ltb,
}
use fathomline.Prelude.Json.{Text, Text_eq, codes, Json, num, obj, member, end, opt_str}
use fathomline.Prelude.Path.{slash, split, rstrip, front_of, last_of}
use fathomline.Prelude.Effect.{
  Outcome, ok, raised, Effect, pure, raise, demand, asks, ◌>>=◌, ◌>>◌, and_then,
}
use fathomline.Audit.{AuditRecord, AuditChain, Codec, append}
use fathomline.Remediation.Plan.{
  is_empty, PlanAction, quarantine, hardlink, hard_delete, move, action_value, int, str_of,
  PlanItem, RemediationPlan,
}
use fathomline.Remediation.Os.{Os, Stat, Opened, Made, fd, made, exists}
use fathomline.Remediation.Drift.{
  Drift, drift_text, missing, became_symlink, inode_changed, size_changed, hash_unreadable,
  hash_changed, no_hash_anchor,
}
use fathomline.Remediation.Recheck.{recheck}
use fathomline.Remediation.Mutation.{
  Status, status_text, aborted_drift, Fault, remediation_disabled, blast_radius, audit_refused,
  drifted_plan, os_error, Settings, mutate,
}

pub record ExecResult : Type 0 where
  pub entry_id : Text
  pub action : Text
  pub status : Status
  pub detail : Text

pub record ExecOutcome : Type 0 where
  pub results : List ExecResult
  pub audit : List AuditRecord

-- What stands in the world that the executor changes: the files, and its in-memory audit chain.
pub record World (os : Os) : Type 0 where
  pub fs : os.Fs
  pub chain : AuditChain

-- The audit chain is given the time of each record by the clock, as it stands when the chain has
-- come so far, and its sink may raise.
pub record Surroundings : Type 0 where
  pub codec : Codec
  pub sink : List AuditRecord → AuditRecord → Bool
  pub now : AuditChain → Text
  pub settings : Settings

module _ (os : Os) (env : Surroundings) where
  abbrev Act : Type 0 → Type 0
  Act = Effect (World os) Fault

  abbrev before_state : PlanItem → Json
  before_state item = obj (
      member (codes "hash") (opt_str item.prior_hash) (
        member (codes "inode") (num item.prior_inode)
          (member (codes "size") (num item.prior_size) end)))

  abbrev logged :
      World os → Option (AuditChain × AuditRecord) → Outcome Fault AuditRecord × World os
  logged w none = (raised audit_refused, w)
  logged w (some (c, r)) = (ok r, record w { chain = c })

  pub audit_item : PlanItem → Text → Act AuditRecord
  audit_item item result w = logged w (
      append env.codec env.sink w.chain (env.now w.chain) env.settings.actor
        (action_value item.action) item.path (before_state item) result)

  pub run_mutation : ℕ → Text → RemediationPlan → PlanItem → Act (Status × Text)
  unfolding mutate
  run_mutation dir name plan item w =
      let (r, fs') = mutate os env.settings w.fs dir name plan item item.action in
      (r, record w { fs = fs' })

  -- The record of the result, and what is returned for the item.
  pub conclude : PlanItem → AuditRecord → Status × Text → Act (ExecResult × List AuditRecord)
  unfolding audit_item
  conclude item pending done = do
    final ← audit_item item (status_text done.0)
    pure (
      record {
        entry_id = str_of item.entry_id;
        action = action_value item.action;
        status = done.0;
        detail = done.1;
      },
      pending ∷ final ∷ [],
    )

  pub act_checked :
      ℕ → Text → RemediationPlan → PlanItem → Option Drift → Act (ExecResult × List AuditRecord)
  unfolding conclude run_mutation
  act_checked dir name plan item (some drift) = pure (
    record {
      entry_id = str_of item.entry_id;
      action = action_value item.action;
      status = aborted_drift;
      detail = drift_text drift;
    },
    [],
  )
  act_checked dir name plan item none = do
    pending ← audit_item item (codes "pending")
    done ← run_mutation dir name plan item
    conclude item pending done

  pub act_in : RemediationPlan → PlanItem → Opened → Act (ExecResult × List AuditRecord)
  unfolding act_checked recheck
  act_in plan item (Opened.refused e) w = raise (os_error e) w
  act_in plan item (fd dir) w =
      act_checked dir (os.name item.path) plan item
        (recheck os env.codec w.fs dir (os.name item.path) item) w

  -- `_act`
  unfoldable pub act : RemediationPlan → PlanItem → Act (ExecResult × List AuditRecord)
  unfolding act_in
  act plan item w = act_in plan item (os.open_directory w.fs (os.parent item.path)) w

  -- The loop of `execute_with_audit`.
  unfoldable pub act_all : RemediationPlan → List PlanItem → Act ExecOutcome
  unfolding act
  act_all plan [] = pure (record { results = []; audit = [] })
  act_all plan (item ∷ items) = do
    (one, records) ← act plan item
    rest ← act_all plan items
    pure (record { results = one ∷ rest.results; audit = records ++ rest.audit })

  abbrev prepared : Option ℕ × os.Fs → World os → Outcome Fault (Unit {0}) × World os
  prepared (none, fs) w = (ok tt, record w { fs = fs })
  prepared (some e, fs) w = (raised (os_error e), record w { fs = fs })

  -- `self._quarantine_dir.mkdir(...)` and `.chmod(0o700)`.
  pub prepare_quarantine : Act (Unit {0})
  prepare_quarantine w = prepared (os.make_private_directory w.fs env.settings.quarantine_dir) w

  -- The run itself, behind the refusals.
  pub carry_out : RemediationPlan → Act ExecOutcome
  unfolding prepare_quarantine act_all
  carry_out plan = prepare_quarantine >> act_all plan plan.items

  -- `drifted` is the report's dictionary of drifted items.
  unfoldable pub execute_with_audit : RemediationPlan → List (Text × Drift) → Bool → Act ExecOutcome
  unfolding carry_out
  execute_with_audit plan drifted confirm_blast w =
      if not env.settings.write_enabled
      then (raised remediation_disabled, w)
      else if not (is_empty drifted)
      then (raised (drifted_plan drifted), w)
      else if ltb env.settings.blast_cap (length plan.items) && not confirm_blast
      then (raised blast_radius, w)
      else carry_out plan w
