-- ===== src/Remediation/Executor/Guards.antt =====
-- What the executor of agent/actor/executor.py may touch, and what has to hold before it does.
use fathomline.Prelude.{
  ℕ, Bool, true, false, not, ◌&&◌, ◌||◌, Option, none, some, List, [], ◌∷◌, ◌++◌, length, ltb, ◌≡◌,
  ◌⊎◌, inl, inr, refl, arith, ap, ◌∙◌, sym, if◌then◌else◌,
}
use mathlib.Core.List.{append_assoc, append-nil}
use fathomline.Prelude.Json.{Text, codes}
use fathomline.Prelude.Effect.{Outcome, ok, raised, and_then}
use fathomline.Audit.{AuditRecord, AuditChain}
use fathomline.Audit.Building.{Appended, append-cases}
use fathomline.Remediation.Plan.{action_value, PlanItem, RemediationPlan, is_empty}
use fathomline.Remediation.Os.{Os, Opened, fd}
use fathomline.Remediation.Drift.{Drift}
use fathomline.Remediation.Recheck.{recheck}
use fathomline.Remediation.Mutation.{
  Status, status_text, audit_refused, Fault, remediation_disabled, drifted_plan, blast_radius,
  mutate,
}
use fathomline.Remediation.Executor.{
  carry_out, World, Surroundings, act, act_in, act_checked, conclude, audit_item, before_state,
  run_mutation, execute_with_audit,
}

module _ (os : Os) (env : Surroundings) where
  -- The three conditions under which a run may begin.
  abbrev pub may_begin : RemediationPlan → List (Text × Drift) → Bool → Bool
  may_begin plan drifted confirm =
      env.settings.write_enabled
      && is_empty drifted
      && (confirm || not (ltb env.settings.blast_cap (length plan.items)))

  abbrev pub refusal : List (Text × Drift) → Fault
  refusal drifted =
      if not env.settings.write_enabled
      then remediation_disabled
      else if not (is_empty drifted)
      then drifted_plan drifted
      else blast_radius

  -- A run is refused, with the files and the audit log as they were, whenever writing is disabled,
  -- the dry run has found drift, or the plan has more items than the cap and nobody confirmed
  -- that; the first of these that applies is what is raised.
  pub execute_with_audit-refused :
      (plan : RemediationPlan) (drifted : List (Text × Drift)) (confirm : Bool) (w : World os)
      → may_begin plan drifted confirm ≡ false
      → execute_with_audit os env plan drifted confirm w ≡ (raised (refusal drifted), w)
  unfolding execute_with_audit
  execute_with_audit-refused plan drifted confirm w h = ground arith

  -- One record is on the log, or the sink raised and nothing has changed.
  pub audit_item-cases :
      (item : PlanItem) (result : Text) (w : World os)
      → (audit_item os env item result w ≡ (raised audit_refused, w))
        ⊎ ((c : AuditChain) × (r : AuditRecord) × (audit_item os env item result w
              ≡ (ok r, record w { chain = c }))
            × Appended env.codec env.sink w.chain c r env.settings.actor
                (action_value item.action)
                item.path
                (before_state os env item)
                result)
  unfolding audit_item
  audit_item-cases item result w =
      elim (append-cases env.codec env.sink w.chain (env.now w.chain) env.settings.actor
        (action_value item.action) item.path (before_state os env item) result) [
          | inl e ↦ inl (rw e)
          | inr (c, r, e, a) ↦ inr (c, r, rw e, a)
        ]

  -- Otherwise the run is carried out.
  pub execute_with_audit-begun :
      (plan : RemediationPlan) (drifted : List (Text × Drift)) (confirm : Bool) (w : World os)
      → may_begin plan drifted confirm ≡ true
      → execute_with_audit os env plan drifted confirm w ≡ carry_out os env plan w
  unfolding execute_with_audit
  execute_with_audit-begun plan drifted confirm w h = ground arith

  -- Why the files could be touched for an item: its directory was open, the check through that
  -- directory had just found no drift, and a record of the intent was on the log before.
  pub record Cleared (plan : RemediationPlan) (item : PlanItem) (w w' : World os) : Type 0 where
    pub dir : ℕ
    pub intent : AuditRecord
    pub later : List AuditRecord
    pub opened : os.open_directory w.fs (os.parent item.path) ≡ fd dir
    pub no_drift : recheck os env.codec w.fs dir (os.name item.path) item ≡ none
    pub on_log : w'.chain.emitted ≡ w.chain.emitted ++ intent ∷ later
    pub of_action : intent.action ≡ action_value item.action
    pub of_target : intent.target ≡ item.path
    pub of_result : intent.result ≡ codes "pending"

  conclude-keeps :
      (item : PlanItem) (pending : AuditRecord) (done : Status × Text) (w : World os)
      → let w' = (conclude os env item pending done w).1 in
        (w'.fs ≡ w.fs)
        × ((later : List AuditRecord) × (w'.chain.emitted ≡ w.chain.emitted ++ later))
  unfolding conclude
  conclude-keeps item pending done w = elim (audit_item-cases item (status_text done.0) w) [
    | inl e ↦ (rw e, ([], rw (e, append-nil)))
    | inr (c, r, e, a) ↦ (rw e, (r ∷ [], rw e a.longer))
  ]

  then_conclude :
      (r : Outcome Fault (Status × Text)) (item : PlanItem) (pending : AuditRecord) (w : World os)
      → let w' = (and_then r (conclude os env item pending) w).1 in
        (w'.fs ≡ w.fs)
        × ((later : List AuditRecord) × (w'.chain.emitted ≡ w.chain.emitted ++ later))
  then_conclude (ok done) item pending w = conclude-keeps item pending done w
  then_conclude (raised f) item pending w = (refl, ([], sym (append-nil _)))

  checked-Cleared :
      (dir : ℕ) (plan : RemediationPlan) (item : PlanItem) (w : World os)
      → os.open_directory w.fs (os.parent item.path) ≡ fd dir
      → recheck os env.codec w.fs dir (os.name item.path) item ≡ none
      → let w' = (act_checked os env dir (os.name item.path) plan item none w).1 in
        (w' ≡ w) ⊎ Cleared plan item w w'
  unfolding act_checked run_mutation
  checked-Cleared dir plan item w o n = elim (audit_item-cases item (codes "pending") w) [
    | inl e ↦ inl (rw e)
    | inr (c, r, e, a) ↦
        let m = mutate os env.settings w.fs dir (os.name item.path) plan item item.action in
        let (_, (later, l)) = then_conclude m.0 item r (record { fs = m.1; chain = c }) in
        inr (
          rw e (record {
            dir = dir;
            intent = r;
            later = later;
            opened = o;
            no_drift = n;
            on_log =
                l ∙ ap (λ t. t ++ later) a.longer ∙ append_assoc w.chain.emitted (r ∷ []) later;
            of_action = a.action_of;
            of_target = a.target_of;
            of_result = a.result_of;
          }))
  ]

  by_drift :
      (dir : ℕ) (plan : RemediationPlan) (item : PlanItem) (w : World os) (d : Option Drift)
      → os.open_directory w.fs (os.parent item.path) ≡ fd dir
      → recheck os env.codec w.fs dir (os.name item.path) item ≡ d
      → let w' = (act_checked os env dir (os.name item.path) plan item d w).1 in
        (w' ≡ w) ⊎ Cleared plan item w w'
  unfolding act_checked
  by_drift dir plan item w (some d) o n = inl refl
  by_drift dir plan item w none o n = checked-Cleared dir plan item w o n

  by_opened :
      (plan : RemediationPlan) (item : PlanItem) (w : World os) (o : Opened)
      → os.open_directory w.fs (os.parent item.path) ≡ o
      → let w' = (act_in os env plan item o w).1 in (w' ≡ w) ⊎ Cleared plan item w w'
  unfolding act_in
  by_opened plan item w (Opened.refused e) o = inl refl
  by_opened plan item w (fd dir) o =
      by_drift dir plan item w (recheck os env.codec w.fs dir (os.name item.path) item) o refl

  -- Acting on an item leaves the world as it was, or the item was cleared: its directory could be
  -- opened, the check through it found no drift in the file as it stood, and the record of the
  -- intent, naming the action and the path, was on the log before anything else was added to it.
  pub act-Cleared :
      (plan : RemediationPlan) (item : PlanItem) (w : World os)
      → let w' = (act os env plan item w).1 in (w' ≡ w) ⊎ Cleared plan item w w'
  unfolding act
  act-Cleared plan item w =
      by_opened plan item w (os.open_directory w.fs (os.parent item.path)) refl
