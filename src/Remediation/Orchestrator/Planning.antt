-- ===== src/Remediation/Orchestrator/Planning.antt =====
-- What `build` of core/remediation/orchestrator.py lets through.
use fathomline.Prelude.{
  true, false, List, [], ◌∷◌, ◌++◌, map, All, ◌≡◌, arith, Bool-cases, inl, inr, ap, subst, sym, ◌∙◌,
}
use fathomline.Prelude.Json.{Text, Json, codes}
use fathomline.Prelude.Effect.{Outcome, ok, raised, pure, ◌>>◌, >>=-eq-ok}
use fathomline.Paths.{validate_config_path, has_nul_byte, is_absolute}
use fathomline.Audit.{AuditRecord}
use fathomline.Audit.Building.{append-cases}
use fathomline.Remediation.Plan.{PlanAction, EntryId, Member, RemediationPlan, PlanError}
use fathomline.Remediation.Plan.Building.{SparesKeeper, build_plan-SparesKeeper}
use fathomline.Remediation.Orchestrator.{GroupMember, Desk, Office, all_safe, of_plan, audit, build}

abbrev pub as_member : GroupMember → Member
as_member m = record { entry_id = m.entry_id; path = m.path; inode = m.inode; size = m.size }

module _ (o : Office) (sorted : List Text → List Text) where
  abbrev pub IsPlainPath : GroupMember → Type 0
  IsPlainPath m = (has_nul_byte m.path ≡ false) × (is_absolute m.path ≡ true)

  safe-IsPlainPath :
      (members : List GroupMember) → all_safe o sorted members ≡ true → All IsPlainPath members
  unfolding validate_config_path
  safe-IsPlainPath [] h = tt
  safe-IsPlainPath (m ∷ members) h =
      ((ground arith, ground arith), safe-IsPlainPath members (ground arith))

  -- What holds of a plan that was built, of its members, and of the log.
  pub record Planned (members : List GroupMember) (keep_id : EntryId) (full_hash created_by : Text)
      (act : PlanAction) (d d' : Desk) (plan : RemediationPlan) : Type 0 where
    pub plain_paths : All IsPlainPath members
    pub spares : SparesKeeper (map (λ m. as_member m) members) keep_id full_hash act plan
    pub same_sent : d'.sent ≡ d.sent
    pub entry : AuditRecord
    pub on_log : d'.chain.emitted ≡ d.chain.emitted ++ entry ∷ []
    pub of_actor : entry.actor ≡ created_by
    pub of_action : entry.action ≡ codes "remediation.plan.build"
    pub of_target : entry.target ≡ plan.plan_id

  audit-eq-ok :
      (actor what target : Text) (before : Json) (result : Text) (plan plan' : RemediationPlan)
      (d d' : Desk)
      → (audit o sorted actor what target before result >> pure plan) d ≡ (ok plan', d')
      → (r : AuditRecord) × (plan ≡ plan')
        × (d'.sent ≡ d.sent)
        × (d'.chain.emitted ≡ d.chain.emitted ++ r ∷ [])
        × (r.actor ≡ actor)
        × (r.action ≡ what)
        × (r.target ≡ target)
  unfolding audit
  audit-eq-ok actor what target before result plan plan' d d' h =
      elim (append-cases o.codec o.sink d.chain (o.stamp d.chain) actor what target before result) [
        | inl e ↦ absurd (ground (arith, rw e at h))
        | inr (c, r, e, a) ↦
            let done : pure plan (record d { chain = c }) ≡ (ok plan', d') = rw e at h in
            let same : record d { chain = c } ≡ d' = ap (λ p. p.1) done in
            (
              r,
              ground (arith, ap (λ p. p.0) done),
              ap (λ (v : Desk). v.sent) (sym same),
              ap (λ (v : Desk). v.chain.emitted) (sym same) ∙ a.longer,
              a.actor_of,
              a.action_of,
              a.target_of,
            )
      ]

  of_plan-eq-ok :
      (r : Outcome PlanError RemediationPlan) (d d₁ : Desk) {plan : RemediationPlan}
      → of_plan o sorted r d ≡ (ok plan, d₁)
      → (r ≡ ok plan) × (d ≡ d₁)
  of_plan-eq-ok (ok p) d d₁ h = (ground (arith, ap (λ x. x.0) h), ap (λ x. x.1) h)
  of_plan-eq-ok (raised e) d d₁ h = absurd (ground (arith, ap (λ x. x.0) h))

  -- When `build` returns a plan, the path of every member is absolute and has no NUL byte, and is
  -- in the plan as it was given, be it normalised or not (a path like `/a/../b` is let through); the plan
  -- spares the keeper that was chosen and acts on the other members as they were described, nothing
  -- was sent, and exactly one record was added to the log, of this plan by its author.
  pub build-Planned :
      (plan_id : Text) (members : List GroupMember) (keep_id : EntryId)
      (full_hash created_by : Text) (act : PlanAction) (d d' : Desk) (plan : RemediationPlan)
      → build o sorted plan_id members keep_id full_hash created_by act d ≡ (ok plan, d')
      → Planned members keep_id full_hash created_by act d d' plan
  unfolding build
  build-Planned plan_id members keep_id full_hash created_by act d d' plan h =
      elim (Bool-cases (all_safe o sorted members)) [
        | inr unsafe ↦ absurd (ground (arith, ap (λ x. x.0) (rw unsafe at h)))
        | inl safe ↦
            let (p, d₁, made, rest) = >>=-eq-ok (of_plan o sorted _) _ d (rw safe at h) in
            let (is_built, same) = of_plan-eq-ok _ d d₁ made in
            let (r, same_plan, sent, on_log, actor, what, target) =
              audit-eq-ok created_by (codes "remediation.plan.build") _ _ _ p plan d₁ d' rest in
            record {
              plain_paths = safe-IsPlainPath members safe;
              spares =
                  subst (SparesKeeper (map (λ m. as_member m) members) keep_id full_hash act)
                    same_plan
                    (build_plan-SparesKeeper plan_id created_by (map (λ m. as_member m) members)
                      keep_id full_hash act is_built);
              same_sent = sent ∙ ap (λ (v : Desk). v.sent) (sym same);
              entry = r;
              on_log = on_log ∙ ap (λ (v : Desk). v.chain.emitted ++ r ∷ []) (sym same);
              of_actor = actor;
              of_action = what;
              of_target = target ∙ ap (λ (v : RemediationPlan). v.plan_id) same_plan;
            }
      ]
