-- ===== src/Remediation/Executor/Reports.antt =====
-- What a run of the executor of agent/actor/executor.py that returns has reported, and put on its log.
use fathomline.Prelude.{List, [], ◌∷◌, ◌++◌, ◌≡◌, ◌⊎◌}
use fathomline.Prelude.Json.{Text, codes}
use fathomline.Prelude.Effect.{Outcome, ok, raised}
use fathomline.Audit.{AuditRecord}
use fathomline.Remediation.Plan.{PlanItem, action_value, str_of}
use fathomline.Remediation.Os.{Os}
use fathomline.Remediation.Drift.{Drift}
use fathomline.Remediation.Mutation.{Fault, status_text, aborted_drift}
use fathomline.Remediation.Executor.{World, Surroundings, ExecResult, ExecOutcome}

-- A record about an item.
pub record IsAbout (item : PlanItem) (result : Text) (r : AuditRecord) : Type 0 where
  pub of_action : r.action ≡ action_value item.action
  pub of_target : r.target ≡ item.path
  pub of_result : r.result ≡ result

-- The result of an item, and the records of it: none when it was found drifted by the last check, and else
-- one of the intent and one of the status that is reported.
abbrev pub Accounts : PlanItem → ExecResult → List AuditRecord → Type 0
Accounts item result records =
    (result.entry_id ≡ str_of item.entry_id)
    × (result.action ≡ action_value item.action)
    × (((result.status ≡ aborted_drift) × (records ≡ []))
        ⊎ ((intent : AuditRecord) × (final : AuditRecord) × (records ≡ intent ∷ final ∷ [])
            × IsAbout item (codes "pending") intent
            × IsAbout item (status_text result.status) final))

-- One result for each item, in the order of the plan, with the records one after another.
abbrev pub AccountsAll : List PlanItem → List ExecResult → List AuditRecord → Type 0
AccountsAll [] [] audit = audit ≡ []
AccountsAll [] (result ∷ results) audit = ⊥
AccountsAll (item ∷ items) [] audit = ⊥
AccountsAll (item ∷ items) (result ∷ results) audit =
    (records : List AuditRecord) × (rest : List AuditRecord) × (audit ≡ records ++ rest)
    × Accounts item result records
    × AccountsAll items results rest

module _ (os : Os) (env : Surroundings) where
  abbrev Acted : Type 0
  Acted = Outcome Fault (ExecResult × List AuditRecord) × World os

  -- If it returned.
  Accounted : PlanItem → World os → Acted → Type 0
  Accounted item w (raised f, w') = Unit
  Accounted item w (ok (result, records), w') =
      Accounts item result records × (w'.chain.emitted ≡ w.chain.emitted ++ records)

  abbrev Ran : Type 0
  Ran = Outcome Fault ExecOutcome × World os

  AccountedAll : List PlanItem → World os → Ran → Type 0
  AccountedAll items w (raised f, w') = Unit
  AccountedAll items w (ok o, w') =
      AccountsAll items o.results o.audit × (w'.chain.emitted ≡ w.chain.emitted ++ o.audit)

  abbrev with_first : ExecResult × List AuditRecord → ExecOutcome → ExecOutcome
  with_first one rest = record { results = one.0 ∷ rest.results; audit = one.1 ++ rest.audit }
