-- ===== src/Remediation/Orchestrator/Dispatching.antt =====
-- What the orchestrator of core/remediation/orchestrator.py sends to an agent, and what stands on
-- its audit log by then.
use fathomline.Prelude.{
  ◌+◌, Bool, true, false, not, ◌&&◌, ◌||◌, Option, none, some, List, [], ◌∷◌, ◌++◌, ◌≡◌, ◌⊎◌, inl,
  inr, refl, arith, Bool-cases, ap, sym, ◌∙◌, length, ltb,
}
use mathlib.Core.List.{append_assoc, append-nil}
use fathomline.Prelude.Json.{Text, codes, Json}
use fathomline.Prelude.Effect.{and_then, pure, ◌>>=◌, ◌>>◌, Keeps, Keeps-bind}
use fathomline.Audit.{AuditRecord, AuditChain}
use fathomline.Audit.Building.{append-cases, splice-cases, IsLinked}
use fathomline.Remediation.Plan.{PlanItem, RemediationPlan, is_empty}
use fathomline.Remediation.Job.{JobMode, DispatchJob, dry_run, execute, action, SignedJob}
use fathomline.Remediation.Planner.{VerifyReport}
use fathomline.Remediation.Dispatch.{clean_items}
use fathomline.Remediation.Orchestrator.{
  Desk, Office, ExecuteOutcome, ExecResultLike, audit, splice_all, send, answer, make_job,
  execute_live, dispatch_job, dispatch_dry_run, Work,
}

module _ (o : Office) (sorted : List Text → List Text) where
  -- Nothing was sent since, and the log was only added to, by records linked to it.
  record Grown (d d' : Desk) : Type 0 where
    same_sent : d'.sent ≡ d.sent
    later : List AuditRecord
    on_log : d'.chain.emitted ≡ d.chain.emitted ++ later
    linked : IsLinked o.codec d.chain → IsLinked o.codec d'.chain

  stays : (d : Desk) → Grown d d
  stays d = record { same_sent = refl; later = []; on_log = sym (append-nil _); linked = λ l. l }

  longer :
      (d d' : Desk) (c : AuditChain) (r : AuditRecord)
      → Grown d d'
      → c.emitted ≡ d'.chain.emitted ++ r ∷ []
      → (IsLinked o.codec d'.chain → IsLinked o.codec c)
      → Grown d (record d' { chain = c })
  longer d d' c r g e l = record {
    same_sent = g.same_sent;
    later = g.later ++ r ∷ [];
    on_log = e ∙ ap (λ t. t ++ r ∷ []) g.on_log ∙ append_assoc d.chain.emitted g.later (r ∷ []);
    linked = λ k. l (g.linked k);
  }

  audit-Grown :
      (d : Desk) (actor what target : Text) (before : Json) (result : Text)
      → Keeps (Grown d) (audit o sorted actor what target before result)
  unfolding audit
  audit-Grown d actor what target before result w g =
      elim (append-cases o.codec o.sink w.chain (o.stamp w.chain) actor what target before result) [
        | inl e ↦ rw e g
        | inr (c, r, e, a) ↦ rw e (longer d w c r g a.longer a.keeps_links)
      ]

  splice_all-Grown : (d : Desk) (rs : List AuditRecord) → Keeps (Grown d) (splice_all o sorted rs)
  unfolding splice_all
  splice_all-Grown d [] w g = g
  splice_all-Grown d (r ∷ rs) w g = elim (splice-cases o.codec o.sink w.chain r) [
    | inl e ↦ rw e g
    | inr (c, r', e, more, l) ↦ rw e (splice_all-Grown d rs _ (longer d w c r' g more l))
  ]

  -- One job was sent, and a record of it was the first that was added to the log.
  pub record Announced (signed : SignedJob) (actor what target : Text) (sent : List SignedJob)
      (chain : AuditChain) (d' : Desk) : Type 0 where
    pub one_sent : d'.sent ≡ signed ∷ sent
    pub intent : AuditRecord
    pub later : List AuditRecord
    pub on_log : d'.chain.emitted ≡ chain.emitted ++ intent ∷ later
    pub of_actor : intent.actor ≡ actor
    pub of_action : intent.action ≡ what
    pub of_target : intent.target ≡ target
    pub linked : IsLinked o.codec chain → IsLinked o.codec d'.chain

  -- `raise` before anything was logged or sent, or a job that was announced.
  abbrev pub Sends : SignedJob → Text → Text → Text → Desk → Desk → Type 0
  Sends signed actor what target d d' =
      ((d'.sent ≡ d.sent) × (d'.chain ≡ d.chain))
      ⊎ Announced signed actor what target d.sent d.chain d'

  after_sending :
      {A B : Type 0} (channel : SignedJob → Option A) (signed : SignedJob)
      (rest : A → Work o sorted B) (d : Desk)
      → ((base : Desk) (a : A) → Keeps (Grown base) (rest a))
      → Grown (record d { sent = signed ∷ d.sent }) ((send o sorted channel signed >>= rest) d).1
  unfolding send
  after_sending {A} {B} channel signed rest d keeps =
      let base = record d { sent = signed ∷ d.sent } in by_answer (channel signed)
    where
      by_answer :
          (r : Option A)
          → let base = record d { sent = signed ∷ d.sent } in
            Grown base (and_then (answer o sorted r base).0 rest (answer o sorted r base).1).1
      by_answer none = stays _
      by_answer (some a) = keeps _ a _ (stays _)

  announced :
      {A B : Type 0} (actor what target : Text) (before : Json) (result : Text)
      (channel : SignedJob → Option A) (signed : SignedJob) (rest : A → Work o sorted B) (d : Desk)
      → ((base : Desk) (a : A) → Keeps (Grown base) (rest a))
      → Sends signed actor what target d
          ((audit o sorted actor what target before result
              >> (send o sorted channel signed >>= rest))
            d).1
  unfolding audit
  announced actor what target before result channel signed rest d keeps =
      elim (append-cases o.codec o.sink d.chain (o.stamp d.chain) actor what target before result) [
        | inl e ↦ inl (rw e refl, rw e refl)
        | inr (c, r, e, a) ↦
            let g = after_sending channel signed rest (record d { chain = c }) keeps in
            inr (
              rw e (record {
                one_sent = g.same_sent;
                intent = r;
                later = g.later;
                on_log =
                    g.on_log
                    ∙ ap (λ t. t ++ g.later) a.longer
                    ∙ append_assoc d.chain.emitted (r ∷ []) g.later;
                of_actor = a.actor_of;
                of_action = a.action_of;
                of_target = a.target_of;
                linked = λ l. g.linked (a.keeps_links l);
              }))
      ]

  -- The job that the items are dispatched with.
  abbrev pub job_for : RemediationPlan → JobMode → List PlanItem → Text → Desk → DispatchJob
  job_for plan mode items host_id d = action (record {
    plan_id = plan.plan_id;
    mode = mode;
    nonce = o.fresh_nonce d.drawn;
    issued_at = o.clock d.drawn;
    expires_at = o.clock d.drawn + o.job_ttl;
    host_id = host_id;
    keeper_path = plan.keeper_path;
    items = items;
    move_root = plan.move_root;
  })

  execute_live-Sends :
      (plan : RemediationPlan) (verify : VerifyReport) (live : List PlanItem) (host_id : Text)
      (dispatch : SignedJob → Option ExecuteOutcome) (d : Desk)
      → Sends
          (o.sign (job_for plan execute live host_id d))
          plan.created_by
          (codes "remediation.execute.dispatch")
          plan.plan_id
          d
          (execute_live o sorted plan verify live host_id dispatch d).1
  unfolding execute_live make_job
  execute_live-Sends plan verify live host_id dispatch d =
      announced plan.created_by (codes "remediation.execute.dispatch") plan.plan_id _ _ dispatch
        (o.sign (job_for plan execute live host_id d)) _ (record d { drawn = d.drawn + 1 })
        (λ base outcome.
          Keeps-bind (Grown base) (splice_all o sorted outcome.audit) _
            (splice_all-Grown base outcome.audit)
            (λ _.
              Keeps-bind (Grown base) (audit o sorted _ _ _ _ _) _ (audit-Grown base _ _ _ _ _)
                (λ _ w g. g)))

  skipped :
      (plan : RemediationPlan) (d : Desk) (what target : Text) (before : Json) (result : Text)
      (rest : Work o sorted (List ExecResultLike))
      → ((base : Desk) → Keeps (Grown base) rest)
      → ((audit o sorted plan.created_by what target before result >> rest) d).1.sent ≡ d.sent
  skipped plan d what target before result rest keeps =
      let g =
        Keeps-bind (Grown d) (audit o sorted plan.created_by what target before result) (λ _. rest)
          (audit-Grown d _ _ _ _ _) (λ _. keeps d) d (stays d) in
      g.same_sent

  -- `dispatch_job` sends nothing, or it sends one signed job, for the plan's items that the dry
  -- run has not found drifted, of which there is at least one and, unless somebody confirmed it,
  -- no more than the cap; the record of the dispatch was the first that was added to the log,
  -- which still verifies if it did before.
  pub dispatch_job-Announced :
      (plan : RemediationPlan) (verify : VerifyReport) (host_id : Text) (confirm : Bool)
      (dispatch : SignedJob → Option ExecuteOutcome) (d : Desk)
      → let d' = (dispatch_job o sorted plan verify host_id confirm dispatch d).1 in
        let live = clean_items verify plan.items in
        (d'.sent ≡ d.sent)
        ⊎ ((is_empty live ≡ false)
            × ((confirm || not (ltb o.blast_cap (length live))) ≡ true)
            × Announced
                (o.sign (job_for plan execute live host_id d))
                plan.created_by
                (codes "remediation.execute.dispatch")
                plan.plan_id
                d.sent
                d.chain
                d')
  unfolding dispatch_job
  dispatch_job-Announced plan verify host_id confirm dispatch d =
      let live = clean_items verify plan.items in
      elim (Bool-cases (is_empty live)) [
        | inl none_left ↦ inl (rw none_left (skipped plan d _ _ _ _ (pure []) (λ base w g. g)))
        | inr some_left ↦ elim (Bool-cases (ltb o.blast_cap (length live) && not confirm)) [
          | inl over ↦ inl (rw (some_left, over) refl)
          | inr within ↦ elim (execute_live-Sends plan verify live host_id dispatch d) [
            | inl same ↦ inl (rw (some_left, within) same.0)
            | inr sent ↦ inr (rw (some_left, within) (refl, ground arith, sent))
          ]
        ]
      ]

  -- A dry run is dispatched with nothing logged and nothing sent, or with the signed job for all
  -- items of the plan and, as the first record added to the log, the record of the dispatch.
  pub dispatch_dry_run-Announced :
      (plan : RemediationPlan) (host_id : Text) (dispatch : SignedJob → Option VerifyReport)
      (d : Desk)
      → Sends
          (o.sign (job_for plan dry_run plan.items host_id d))
          plan.created_by
          (codes "remediation.dry_run.dispatch")
          plan.plan_id
          d
          (dispatch_dry_run o sorted plan host_id dispatch d).1
  unfolding dispatch_dry_run make_job
  dispatch_dry_run-Announced plan host_id dispatch d =
      announced plan.created_by (codes "remediation.dry_run.dispatch") plan.plan_id _ _ dispatch
        (o.sign (job_for plan dry_run plan.items host_id d)) _ (record d { drawn = d.drawn + 1 })
        (λ base report.
          Keeps-bind (Grown base) (audit o sorted _ _ _ _ _) _ (audit-Grown base _ _ _ _ _)
            (λ _ w g. g))
