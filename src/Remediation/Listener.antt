-- ===== src/Remediation/Listener.antt =====
-- agent/actor/listener.py and the ScanDispatcher of agent/actor/dispatch.py: what the actor does with
-- a signed job that it has pulled. The runner of a scan is a parameter, which may raise.
pub mod Safety
pub mod Once
mod Tests
use fathomline.Prelude.{
  ℕ, zero, suc, ◌+◌, Bool, true, false, not, Option, none, some, List, [], ◌∷◌, ◌++◌, map,
  if◌then◌else◌, ◌==◌, find,
}
use fathomline.Prelude.Json.{Text, Text_eq, codes}
use fathomline.Prelude.Dict.{put}
use fathomline.Prelude.Decimal.{decimal, decimal_text}
use fathomline.Prelude.Effect.{Outcome, ok, raised, Effect, pure, raise, ◌>>=◌, ◌>>◌}
use fathomline.Audit.{AuditRecord}
use fathomline.Paths.{Places, PathSafetyError}
use fathomline.Paths.Scope.{AgentScopes, in_scope}
use fathomline.Remediation.Os.{Os}
use fathomline.Remediation.Drift.{Drift, drift_text}
use fathomline.Remediation.Mutation.{Status, status_text, aborted_drift, Fault}
use fathomline.Remediation.Job.{
  JobMode, dry_run, execute, mode_text, scan_mode_text, ActionJob, ScanJob, DispatchJob, action,
  scan, ledger_ref, SignedJob,
}
use fathomline.Remediation.Nonce.{Ledger}
use fathomline.Remediation.Planner.{VerifyReport, Hasher}
use fathomline.Remediation.Executor.{World, Surroundings, ExecResult, ExecOutcome}
use fathomline.Remediation.Dispatch.{dispatch_dry_run, dispatch_execute}
use fathomline.Remediation.Signing.{VerifyError, verify_job}

-- A row of a result as it is sent to the core, where the status is a text.
pub record ResultRow : Type 0 where
  pub entry_id : Text
  pub action : Text
  pub status : Text
  pub detail : Text

pub record JobResult : Type 0 where
  pub mode : Text
  pub plan_id : Text
  pub drift : List (Text × Text)
  pub results : List ResultRow
  pub audit : List AuditRecord

pub record ScopeOutcome : Type 0 where
  pub root : Text
  pub entries_seen : ℕ
  pub rows_changed : ℕ
  pub error : Option Text
  pub fullbit_hashed : ℕ
  pub fullbit_error : Option Text

pub record AgentRunSummary : Type 0 where
  pub scopes : List ScopeOutcome
  pub pushed : ℕ

pub data ListenerError : Type 0 where
  unverified : VerifyError → ListenerError
  scan_out_of_scope scan_unavailable remediation_unavailable scan_raised : ListenerError
  path_error : PathSafetyError → ListenerError
  executor_fault : Fault → ListenerError

-- The agent: the ledger of nonces, its files with the executor's audit chain, and the scans that
-- were started, the last first.
pub record Agent (os : Os) : Type 0 where
  pub ledger : Ledger
  pub world : World os
  pub scans : List ScanJob

abbrev row_of : ExecResult → ResultRow
row_of r = record {
  entry_id = r.entry_id;
  action = r.action;
  status = status_text r.status;
  detail = r.detail;
}

abbrev is_aborted : Status → Bool
is_aborted aborted_drift = true
is_aborted _ = false

-- `{r.entry_id: r.detail for r in results if r.status == "aborted_drift"}`
unfoldable drift_of_results : List (Text × Text) → List ExecResult → List (Text × Text)
drift_of_results d [] = d
drift_of_results d (r ∷ results) =
    drift_of_results (if is_aborted r.status then put r.entry_id r.detail d else d) results

abbrev drift_texts : VerifyReport → List (Text × Text)
drift_texts report = map (λ (p : Text × Drift). (p.0, drift_text p.1)) report

abbrev fullbit_text : Option Text → Text
fullbit_text none = []
fullbit_text (some e) = codes " fullbit_error=" ++ e

unfoldable scan_detail : ScanJob → AgentRunSummary → ScopeOutcome → Text
unfolding decimal
scan_detail job summary s =
    codes "mode="
    ++ (scan_mode_text job.mode
        ++ (codes " entries_seen="
            ++ (decimal_text s.entries_seen
                ++ (codes " rows_changed="
                    ++ (decimal_text s.rows_changed
                        ++ (codes " pushed="
                            ++ (decimal_text summary.pushed
                                ++ (codes " fullbit_hashed="
                                    ++ (decimal_text s.fullbit_hashed
                                        ++ fullbit_text s.fullbit_error)))))))))

-- The status and the detail of a scan.
abbrev scan_failed : Option Text → Text × Text → Text × Text
scan_failed none completed = completed
scan_failed (some e) completed = (codes "failed", codes "scan error: " ++ e)

abbrev scan_outcome : ScanJob → AgentRunSummary → Option ScopeOutcome → Text × Text
scan_outcome job summary none =
    (codes "failed", codes "scan produced no outcome for the requested root")
scan_outcome job summary (some s) =
    scan_failed s.error (codes "completed", scan_detail job summary s)

-- The parts that a listener is built with.
pub record Dispatcher (os : Os) : Type 0 where
  pub env : Surroundings
  pub hasher : Option (Hasher os)

pub record ScanDispatcher : Type 0 where
  pub places : Places
  pub parents : Text → List Text
  pub config : AgentScopes
  pub scan_runner : ScanJob → Option AgentRunSummary

pub record Listener (os : Os) : Type 0 where
  pub dispatcher : Option (Dispatcher os)
  pub verify_signature : SignedJob → Bool
  pub host_id : Text
  pub scan_dispatcher : Option ScanDispatcher

module _ (os : Os) where
  abbrev Handles : Type 0 → Type 0
  Handles = Effect (Agent os) ListenerError

  abbrev lifted : {A : Type 0} → Outcome Fault A → Outcome ListenerError A
  lifted (ok a) = ok a
  lifted (raised e) = raised (executor_fault e)

  abbrev in_world : {A : Type 0} → Effect (World os) Fault A → Handles A
  in_world m s = (lifted (m s.world).0, record s { world = (m s.world).1 })

  abbrev run_scan : ScanDispatcher → ScanJob → Handles AgentRunSummary
  run_scan d job s = (ran (d.scan_runner job), record s { scans = job ∷ s.scans })
    where
      ran : Option AgentRunSummary → Outcome ListenerError AgentRunSummary
      ran none = raised scan_raised
      ran (some summary) = ok summary

  abbrev demand_in_scope : Outcome PathSafetyError Bool → Handles (Unit {0})
  demand_in_scope (raised e) s = (raised (path_error e), s)
  demand_in_scope (ok false) s = (raised scan_out_of_scope, s)
  demand_in_scope (ok true) s = (ok _, s)

  unfoldable pub dispatch_scan : ScanDispatcher → ScanJob → Handles JobResult
  unfolding scan_detail ledger_ref
  dispatch_scan d job = demand_in_scope (in_scope d.places d.parents d.config job.root) >> do
    summary ← run_scan d job
    let outcome =
        scan_outcome job summary (find (λ (s : ScopeOutcome). s.root == job.root) summary.scopes)
    pure (record {
      mode = codes "dry_run";
      plan_id = ledger_ref (scan job);
      drift = [];
      results =
          record {
            entry_id = job.root;
            action = codes "scan_now";
            status = outcome.0;
            detail = outcome.1;
          }
          ∷ [];
      audit = [];
    })

  abbrev dry_run_result : ActionJob → VerifyReport → JobResult
  dry_run_result job report = record {
    mode = codes "dry_run";
    plan_id = job.plan_id;
    drift = drift_texts report;
    results = [];
    audit = [];
  }

  pub execute_result : ActionJob → ExecOutcome → JobResult
  unfolding drift_of_results
  execute_result job outcome = record {
    mode = codes "execute";
    plan_id = job.plan_id;
    drift = drift_of_results [] outcome.results;
    results = map row_of outcome.results;
    audit = outcome.audit;
  }

  abbrev run_action : Dispatcher os → JobMode → ActionJob → Bool → Handles JobResult
  run_action d dry_run job confirm_blast = do
    report ← in_world (dispatch_dry_run os d.env d.hasher job)
    pure (dry_run_result job report)
  run_action d execute job confirm_blast = do
    outcome ← in_world (dispatch_execute os d.env d.hasher job confirm_blast)
    pure (execute_result job outcome)

  module _ (l : Listener os) where
    abbrev answered : Outcome VerifyError DispatchJob → Outcome ListenerError DispatchJob
    answered (ok job) = ok job
    answered (raised e) = raised (unverified e)

    pub verified : SignedJob → ℕ → Handles DispatchJob
    verified signed now s =
        let (answer, seen) = verify_job l.verify_signature l.host_id signed now s.ledger in
        (answered answer, record s { ledger = seen })

    abbrev with_scanner : Option ScanDispatcher → ScanJob → Handles JobResult
    with_scanner none job = raise scan_unavailable
    with_scanner (some d) job = dispatch_scan d job

    abbrev with_dispatcher : Option (Dispatcher os) → ActionJob → Bool → Handles JobResult
    with_dispatcher none job confirm_blast = raise remediation_unavailable
    with_dispatcher (some d) job confirm_blast = run_action d job.mode job confirm_blast

    abbrev route : Bool → DispatchJob → Handles JobResult
    route confirm_blast (scan job) = with_scanner l.scan_dispatcher job
    route confirm_blast (action job) = with_dispatcher l.dispatcher job confirm_blast

    unfoldable pub handle : SignedJob → Bool → ℕ → Handles JobResult
    unfolding verified
    handle signed confirm_blast now = do job ← verified signed now; route confirm_blast job

-- A job as it arrives: whether a human confirmed its size, and the time.
pub record Arrival : Type 0 where
  pub signed : SignedJob
  pub confirm_blast : Bool
  pub now : ℕ
