-- ===== src/Remediation/Executor/Runs.antt =====
-- What holds of a whole run of the executor of agent/actor/executor.py.
use fathomline.Prelude.{
  ℕ, Bool, Option, none, some, List, [], ◌∷◌, ◌++◌, ◌≡◌, inl, inr, Bool-cases, ap, ◌∙◌,
}
use fathomline.Prelude.Json.{Text, codes}
use fathomline.Prelude.Effect.{
  Outcome, ok, raised, and_then, pure, ◌>>=◌, Keeps, Keeps-bind, >>=-eq-ok, >>=-ok, >>=-raised,
}
use fathomline.Audit.{AuditRecord}
use fathomline.Audit.Building.{IsLinked}
use fathomline.Remediation.Plan.{PlanItem, RemediationPlan}
use fathomline.Remediation.Os.{Os, Opened, fd}
use fathomline.Remediation.Drift.{Drift}
use fathomline.Remediation.Recheck.{recheck}
use fathomline.Remediation.Mutation.{Fault, os_error, Status, status_text, mutate}
use fathomline.Remediation.Executor.{
  World, Surroundings, ExecResult, ExecOutcome, act, act_all, act_in, act_checked, conclude,
  run_mutation, prepared, prepare_quarantine, carry_out, execute_with_audit,
}
use fathomline.Remediation.Executor.Guards.{
  may_begin, execute_with_audit-begun, execute_with_audit-refused, audit_item-cases,
}

module _ (os : Os) (env : Surroundings) where
  abbrev pub Linked : World os → Type 0
  Linked w = IsLinked env.codec w.chain

  conclude-Linked :
      (item : PlanItem) (pending : AuditRecord) (r : Outcome Fault (Status × Text)) (w : World os)
      → Linked w
      → Linked (and_then r (conclude os env item pending) w).1
  unfolding conclude
  conclude-Linked item pending (raised f) w l = l
  conclude-Linked item pending (ok done) w l =
      elim (audit_item-cases os env item (status_text done.0) w) [
        | inl e ↦ rw e l
        | inr (c, r, e, a) ↦ rw e (a.keeps_links l)
      ]

  act_checked-Linked :
      (dir : ℕ) (name : Text) (plan : RemediationPlan) (item : PlanItem) (d : Option Drift)
      (w : World os)
      → Linked w
      → Linked (act_checked os env dir name plan item d w).1
  unfolding act_checked run_mutation
  act_checked-Linked dir name plan item (some d) w l = l
  act_checked-Linked dir name plan item none w l =
      elim (audit_item-cases os env item (codes "pending") w) [
        | inl e ↦ rw e l
        | inr (c, r, e, a) ↦
            let m = mutate os env.settings w.fs dir name plan item item.action in
            rw e (conclude-Linked item r m.0 (record { fs = m.1; chain = c }) (a.keeps_links l))
      ]

  act_in-Linked :
      (plan : RemediationPlan) (item : PlanItem) (o : Opened) (w : World os)
      → Linked w
      → Linked (act_in os env plan item o w).1
  unfolding act_in
  act_in-Linked plan item (Opened.refused e) w l = l
  act_in-Linked plan item (fd dir) w l =
      act_checked-Linked dir (os.name item.path) plan item
        (recheck os env.codec w.fs dir (os.name item.path) item) w l

  act-Linked :
      (plan : RemediationPlan) (item : PlanItem) (w : World os)
      → Linked w
      → Linked (act os env plan item w).1
  unfolding act
  act-Linked plan item w l =
      act_in-Linked plan item (os.open_directory w.fs (os.parent item.path)) w l

  abbrev with_one : ExecResult × List AuditRecord → ExecOutcome → ExecOutcome
  with_one one rest = record { results = one.0 ∷ rest.results; audit = one.1 ++ rest.audit }

  act_all-Linked :
      (plan : RemediationPlan) (items : List PlanItem) → Keeps Linked (act_all os env plan items)
  unfolding act_all
  act_all-Linked plan [] = λ w l. l
  act_all-Linked plan (item ∷ items) =
      Keeps-bind Linked (act os env plan item)
        (λ one. act_all os env plan items >>= λ rest. pure (with_one one rest))
        (act-Linked plan item)
        (λ one.
          Keeps-bind Linked (act_all os env plan items) (λ rest. pure (with_one one rest))
            (act_all-Linked plan items) (λ rest w l. l))

  prepared-Linked :
      (r : Option ℕ × os.Fs) (w : World os) → Linked w → Linked (prepared os env r w).1
  prepared-Linked (none, fs) w l = l
  prepared-Linked (some e, fs) w l = l

  prepare_quarantine-Linked : Keeps Linked (prepare_quarantine os env)
  unfolding prepare_quarantine
  prepare_quarantine-Linked w l =
      prepared-Linked (os.make_private_directory w.fs env.settings.quarantine_dir) w l

  carry_out-Linked : (plan : RemediationPlan) → Keeps Linked (carry_out os env plan)
  unfolding carry_out
  carry_out-Linked plan =
      Keeps-bind Linked (prepare_quarantine os env) (λ _. act_all os env plan plan.items)
        prepare_quarantine-Linked (λ _. act_all-Linked plan plan.items)

  -- A run keeps the actor's audit chain one that `verify_chain` accepts, with its head at the last
  -- record, if it was one before; whether the run is refused, returns, or stops on an error in the
  -- middle.
  pub execute_with_audit-Linked :
      (plan : RemediationPlan) (drifted : List (Text × Drift)) (confirm : Bool) (w : World os)
      → IsLinked env.codec w.chain
      → IsLinked env.codec (execute_with_audit os env plan drifted confirm w).1.chain
  execute_with_audit-Linked plan drifted confirm w l =
      elim (Bool-cases (may_begin os env plan drifted confirm)) [
        | inl e ↦
            rw (execute_with_audit-begun os env plan drifted confirm w e)
              (carry_out-Linked plan w l)
        | inr e ↦ rw (execute_with_audit-refused os env plan drifted confirm w e) l
      ]

  act-stops :
      (plan : RemediationPlan) (item : PlanItem) (w : World os) {e : ℕ}
      → os.open_directory w.fs (os.parent item.path) ≡ Opened.refused e
      → act os env plan item w ≡ (raised (os_error e), w)
  unfolding act act_in
  act-stops plan item w gone = rw gone

  -- When the items before one have been acted on without an exception and the parent directory of
  -- that one cannot be opened, the OSError leaves the whole run: the world is the one that the
  -- items before it have made, the items after it are not reached, and the results and audit
  -- records of the items before it are not returned.
  pub act_all-stops :
      (plan : RemediationPlan) (before : List PlanItem) (item : PlanItem) (after : List PlanItem)
      (w w' : World os) {o : ExecOutcome} {e : ℕ}
      → act_all os env plan before w ≡ (ok o, w')
      → os.open_directory w'.fs (os.parent item.path) ≡ Opened.refused e
      → act_all os env plan (before ++ item ∷ after) w ≡ (raised (os_error e), w')
  unfolding act_all
  act_all-stops plan [] item after w w' ran gone =
      let same : w ≡ w' = ap (λ p. p.1) ran in
      rw same (
        >>=-raised (act os env plan item)
          (λ one. act_all os env plan after >>= λ rest. pure (with_one one rest)) w'
          (act-stops plan item w' gone))
  act_all-stops plan (x ∷ before) item after w w' ran gone =
      let (one, w₁, first, then) =
        >>=-eq-ok (act os env plan x)
          (λ one. act_all os env plan before >>= λ rest. pure (with_one one rest)) w ran in
      let (rest, w₂, second, last) =
        >>=-eq-ok (act_all os env plan before) (λ rest. pure (with_one one rest)) w₁ then in
      let at_end : act_all os env plan before w₁ ≡ (ok rest, w') =
        second ∙ ap (λ (v : World os). (ok rest, v)) (ap (λ p. p.1) last) in
      >>=-ok (act os env plan x)
        (λ one. act_all os env plan (before ++ item ∷ after) >>= λ rest. pure (with_one one rest)) w
        first
      ∙ >>=-raised (act_all os env plan (before ++ item ∷ after)) (λ rest. pure (with_one one rest))
          w₁ (act_all-stops plan before item after w₁ w' at_end gone)
