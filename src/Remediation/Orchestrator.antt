-- ===== src/Remediation/Orchestrator.antt =====
-- core/remediation/orchestrator.py: plans are built, and signed jobs for them are dispatched, with
-- the intent on the audit log first. The signer, the source of nonces, the clock and the channel to
-- the agent are parameters.
pub mod Dispatching
pub mod Planning
mod Tests
use fathomline.Prelude.{
  ℕ, ◌+◌, Bool, true, false, not, ◌&&◌, Option, none, some, List, [], ◌∷◌, map, keep, length, any,
  all, if◌then◌else◌, ltb,
}
use fathomline.Prelude.Json.{Text, Text_eq, codes, Json, str, num, arr, obj, member, end, items_of}
use fathomline.Prelude.Dict.{has}
use fathomline.Prelude.Effect.{Outcome, ok, raised, Effect, pure, raise, ◌>>=◌, ◌>>◌}
use fathomline.Paths.{PathSafetyError, Places, validate_config_path}
use fathomline.Audit.{AuditRecord, AuditChain, Codec, append, splice}
use fathomline.Remediation.Plan.{
  PlanAction, EntryId, str_of, Member, PlanItem, RemediationPlan, PlanError, build_plan, is_empty,
}
use fathomline.Remediation.Drift.{Drift}
use fathomline.Remediation.Job.{
  JobMode, dry_run, execute, ScanMode, scan_mode_text, ActionJob, ScanJob, DispatchJob, action,
  scan, nonce_of, ledger_ref, SignedJob,
}
use fathomline.Remediation.Planner.{VerifyReport, report_ok}
use fathomline.Remediation.Dispatch.{item_drifted, clean_items}

pub record GroupMember : Type 0 where
  pub entry_id : EntryId
  pub host_id : ℕ
  pub volume_id : ℕ
  pub path : Text
  pub inode : ℕ
  pub size : ℕ

pub data DispatchError : Type 0 where
  unsafe_path audit_refused blast_cap_exceeded dispatch_failed : DispatchError
  plan_refused : PlanError → DispatchError

-- `(entry_id, action, status)`
abbrev pub ExecResultLike : Type 0
ExecResultLike = Text × Text × Text

pub record ExecuteOutcome : Type 0 where
  pub results : List ExecResultLike
  pub audit : List AuditRecord

-- The world of the orchestrator: its audit chain, how many nonces it has drawn, and the jobs that
-- it has sent.
pub record Desk : Type 0 where
  pub chain : AuditChain
  pub drawn : ℕ
  pub sent : List SignedJob

pub record Office : Type 0 where
  pub codec : Codec
  pub sink : List AuditRecord → AuditRecord → Bool
  pub stamp : AuditChain → Text
  pub sign : DispatchJob → SignedJob
  pub blast_cap : ℕ
  pub job_ttl : ℕ
  pub clock : ℕ → ℕ
  pub fresh_nonce : ℕ → Text
  pub places : Places

abbrev texts_json : List Text → Json
texts_json ts = arr (items_of (map str ts))

abbrev result_json : ExecResultLike → Json
result_json (id, act, outcome) = texts_json (id ∷ act ∷ outcome ∷ [])

module _ (o : Office) (sorted : List Text → List Text) where
  abbrev Work : Type 0 → Type 0
  Work = Effect Desk DispatchError

  abbrev logged : Desk → Option (AuditChain × AuditRecord) → Outcome DispatchError (Unit {0}) × Desk
  logged d none = (raised audit_refused, d)
  logged d (some (c, r)) = (ok tt, record d { chain = c })

  unfoldable pub audit : Text → Text → Text → Json → Text → Work (Unit {0})
  audit actor what target before result d =
      logged d (append o.codec o.sink d.chain (o.stamp d.chain) actor what target before result)

  pub splice_all : List AuditRecord → Work (Unit {0})
  splice_all [] = pure tt
  splice_all (r ∷ rs) = (λ d. logged d (splice o.codec o.sink d.chain r)) >> splice_all rs

  abbrev passes : Outcome PathSafetyError Text → Bool
  passes (ok path) = true
  passes (raised e) = false

  abbrev pub is_safe : GroupMember → Bool
  is_safe m = passes (validate_config_path o.places m.path false false false)

  abbrev pub all_safe : List GroupMember → Bool
  all_safe members = all (λ m. is_safe m) members

  abbrev of_plan : Outcome PlanError RemediationPlan → Work RemediationPlan
  of_plan (ok p) = pure p
  of_plan (raised e) = raise (plan_refused e)

  unfoldable pub build :
      Text → List GroupMember → EntryId → Text → Text → PlanAction → Work RemediationPlan
  unfolding audit
  build plan_id members keep_id full_hash created_by act =
      if not (all_safe members) then raise unsafe_path else do
        plan ← of_plan (
            build_plan plan_id created_by
              (map
                (λ (m : GroupMember). record {
                  entry_id = m.entry_id;
                  path = m.path;
                  inode = m.inode;
                  size = m.size;
                })
                members)
              keep_id full_hash act)
        audit created_by (codes "remediation.plan.build") plan.plan_id
            (obj (
              member (codes "blast") (num (length plan.items))
                (member (codes "keeper") (str plan.keeper_path) end)))
            (codes "built")
        pure plan

  -- `secrets.token_hex(16)` and the clock are read once for each job.
  pub make_job : RemediationPlan → JobMode → Text → Work DispatchJob
  make_job plan mode host_id d = (
    ok (
        action (record {
          plan_id = plan.plan_id;
          mode = mode;
          nonce = o.fresh_nonce d.drawn;
          issued_at = o.clock d.drawn;
          expires_at = o.clock d.drawn + o.job_ttl;
          host_id = host_id;
          keeper_path = plan.keeper_path;
          items = plan.items;
          move_root = plan.move_root;
        })),
    record d { drawn = d.drawn + 1 },
  )

  pub make_scan_job : Text → Text → ScanMode → Work DispatchJob
  make_scan_job host_id root mode d = (
    ok (
        scan (record {
          nonce = o.fresh_nonce d.drawn;
          issued_at = o.clock d.drawn;
          expires_at = o.clock d.drawn + o.job_ttl;
          host_id = host_id;
          root = root;
          mode = mode;
        })),
    record d { drawn = d.drawn + 1 },
  )

  abbrev answer : {A : Type 0} → Option A → Work A
  answer none = raise dispatch_failed
  answer (some a) = pure a

  -- A job is handed to the channel, which answers or raises.
  pub send : {A : Type 0} → (SignedJob → Option A) → SignedJob → Work A
  send channel signed d = answer (channel signed) (record d { sent = signed ∷ d.sent })

  unfoldable pub dispatch_scan :
      Text → Text → Text → ScanMode → (SignedJob → Option (Unit {0})) → Work Text
  unfolding make_scan_job audit send
  dispatch_scan created_by host_id root mode enqueue = do
    job ← make_scan_job host_id root mode
    audit created_by (codes "scan.dispatch") (ledger_ref job)
        (obj (
          member (codes "host") (str host_id) (
            member (codes "mode") (str (scan_mode_text mode)) (
              member (codes "nonce") (str (nonce_of job)) (member (codes "root") (str root) end)))))
        (codes "enqueued")
    send enqueue (o.sign job)
    pure (nonce_of job)

  unfoldable pub dispatch_dry_run :
      RemediationPlan → Text → (SignedJob → Option VerifyReport) → Work VerifyReport
  unfolding make_job audit send
  dispatch_dry_run plan host_id dispatch = do
    job ← make_job plan dry_run host_id
    audit plan.created_by (codes "remediation.dry_run.dispatch") plan.plan_id
        (obj (
          member (codes "items") (num (length plan.items))
            (member (codes "nonce") (str (nonce_of job)) end)))
        (codes "dispatched")
    report ← send dispatch (o.sign job)
    audit plan.created_by (codes "remediation.dry_run.result") plan.plan_id
        (obj (
          member (codes "drifted") (texts_json (sorted (map (λ (e : Text × Drift). e.0) report)))
            end))
        (if report_ok report then codes "ok" else codes "drift")
    pure report

  -- The rest of `execute`, for the items that have not drifted.
  pub execute_live :
      RemediationPlan
      → VerifyReport
      → List PlanItem
      → Text
      → (SignedJob → Option ExecuteOutcome)
      → Work (List ExecResultLike)
  unfolding make_job audit send splice_all
  execute_live plan verify live host_id dispatch = do
    job ← make_job (record plan { items = live }) execute host_id
    audit plan.created_by (codes "remediation.execute.dispatch") plan.plan_id
        (obj (
          member (codes "dropped_drifted")
            (texts_json (sorted (map (λ (e : Text × Drift). e.0) verify)))
            (member (codes "items") (num (length live))
              (member (codes "nonce") (str (nonce_of job)) end))))
        (codes "dispatched")
    outcome ← send dispatch (o.sign job)
    splice_all outcome.audit
    audit plan.created_by (codes "remediation.execute.result") plan.plan_id
        (obj (member (codes "results") (arr (items_of (map result_json outcome.results))) end))
        (codes "completed")
    pure outcome.results

  unfoldable pub dispatch_job :
      RemediationPlan
      → VerifyReport
      → Text
      → Bool
      → (SignedJob → Option ExecuteOutcome)
      → Work (List ExecResultLike)
  unfolding audit execute_live
  dispatch_job plan verify host_id confirm_blast dispatch =
      let live = clean_items verify plan.items in
      if is_empty live
      then (do
        audit plan.created_by (codes "remediation.execute.skip") plan.plan_id
            (obj (member (codes "reason") (str (codes "all items drifted")) end)) (codes "noop")
        pure [])
      else if ltb o.blast_cap (length live) && not confirm_blast
      then raise blast_cap_exceeded
      else execute_live plan verify live host_id dispatch
