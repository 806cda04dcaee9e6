-- ===== src/Remediation/Executor/Deletes.antt =====
-- When the executor of agent/actor/executor.py touches a file, and when it deletes one for good.
use fathomline.Prelude.{
  ℕ, true, false, Option, none, some, ◌≡◌, ◌⊎◌, inl, inr, refl, ◌∙◌, arith, Bool-cases,
}
use fathomline.Prelude.Json.{Text, codes}
use fathomline.Prelude.Effect.{Outcome, ok, raised, and_then}
use fathomline.Audit.{AuditRecord}
use fathomline.Remediation.Plan.{PlanAction, hard_delete, PlanItem, RemediationPlan}
use fathomline.Remediation.Os.{Os, Opened, fd}
use fathomline.Remediation.Drift.{Drift}
use fathomline.Remediation.Recheck.{recheck}
use fathomline.Remediation.Recheck.Unchanged.{HasDigest, Anchored, Unchanged, recheck-Unchanged}
use fathomline.Remediation.Mutation.{Fault, Status, status_text, mutate}
use fathomline.Remediation.Executor.{
  World, Surroundings, act, act_in, act_checked, conclude, run_mutation,
}
use fathomline.Remediation.Executor.Guards.{audit_item-cases}

module _ (os : Os) (env : Surroundings) where
  then_conclude-fs :
      (r : Outcome Fault (Status × Text)) (item : PlanItem) (pending : AuditRecord) (w : World os)
      → (and_then r (conclude os env item pending) w).1.fs ≡ w.fs
  unfolding conclude
  then_conclude-fs (raised f) item pending w = refl
  then_conclude-fs (ok done) item pending w =
      elim (audit_item-cases os env item (status_text done.0) w) [
        | inl e ↦ rw e
        | inr (c, r, e, a) ↦ rw e
      ]

  abbrev mutated : ℕ → RemediationPlan → PlanItem → World os → os.Fs
  mutated dir plan item w =
      (mutate os env.settings w.fs dir (os.name item.path) plan item item.action).1

  checked-fs :
      (dir : ℕ) (plan : RemediationPlan) (item : PlanItem) (d : Option Drift) (w : World os)
      → let w' = (act_checked os env dir (os.name item.path) plan item d w).1 in
        (w'.fs ≡ w.fs) ⊎ ((d ≡ none) × (w'.fs ≡ mutated dir plan item w))
  unfolding act_checked run_mutation
  checked-fs dir plan item (some d) w = inl refl
  checked-fs dir plan item none w = elim (audit_item-cases os env item (codes "pending") w) [
    | inl e ↦ inl (rw e)
    | inr (c, r, e, a) ↦
        let m = mutate os env.settings w.fs dir (os.name item.path) plan item item.action in
        inr (refl, rw e (then_conclude-fs m.0 item r (record { fs = m.1; chain = c })))
  ]

  -- The files that an item leaves: those before it, or those that `mutate` makes of them in a
  -- directory where the file is unchanged.
  abbrev pub Touches : RemediationPlan → PlanItem → World os → os.Fs → Type 0
  Touches plan item w fs' =
      (dir : ℕ) × (os.open_directory w.fs (os.parent item.path) ≡ fd dir)
      × Unchanged os env.codec w.fs dir (os.name item.path) item
      × (fs' ≡ mutated dir plan item w)

  opened-fs :
      (plan : RemediationPlan) (item : PlanItem) (o : Opened) (w : World os)
      → os.open_directory w.fs (os.parent item.path) ≡ o
      → let w' = (act_in os env plan item o w).1 in (w'.fs ≡ w.fs) ⊎ Touches plan item w w'.fs
  unfolding act_in
  opened-fs plan item (Opened.refused e) w o = inl refl
  opened-fs plan item (fd dir) w o =
      elim (checked-fs dir plan item (recheck os env.codec w.fs dir (os.name item.path) item) w) [
        | inl e ↦ inl e
        | inr (n, e) ↦
            inr (dir, o, (recheck-Unchanged os env.codec w.fs dir (os.name item.path) item).0 n, e)
      ]

  -- Acting on an item leaves the files as they were, or they are what `mutate` makes of them in the
  -- item's own directory, where the file is unchanged since the plan.
  pub act-Touches :
      (plan : RemediationPlan) (item : PlanItem) (w : World os)
      → let w' = (act os env plan item w).1 in (w'.fs ≡ w.fs) ⊎ Touches plan item w w'.fs
  unfolding act
  act-Touches plan item w =
      opened-fs plan item (os.open_directory w.fs (os.parent item.path)) w refl

  delete_disabled :
      (dir : ℕ) (plan : RemediationPlan) (item : PlanItem) (w : World os)
      → item.action ≡ hard_delete
      → env.settings.allow_hard_delete ≡ false
      → mutated dir plan item w ≡ w.fs
  unfolding mutate
  delete_disabled dir plan item w is off = rw is (ground arith)

  digest-Anchored :
      (fs : os.Fs) (dir : ℕ) (name : Text) (action : PlanAction) (prior : Option Text)
      → action ≡ hard_delete
      → Anchored os env.codec fs dir name action prior
      → (h : Text) × (prior ≡ some h) × HasDigest os env.codec fs dir name h
  digest-Anchored fs dir name action none is a = ground arith
  digest-Anchored fs dir name action (some h) is a = (h, refl, a)

  -- Acting on an item to hard delete leaves the files as they were unless hard deletes are
  -- allowed, the plan carries a digest for the item, and the file that its directory holds has
  -- that digest.
  pub hard_delete-HasDigest :
      (plan : RemediationPlan) (item : PlanItem) (w : World os)
      → item.action ≡ hard_delete
      → ((act os env plan item w).1.fs ≡ w.fs)
        ⊎ ((env.settings.allow_hard_delete ≡ true)
            × ((dir : ℕ) × (h : Text) × (os.open_directory w.fs (os.parent item.path) ≡ fd dir)
                × (item.prior_hash ≡ some h)
                × HasDigest os env.codec w.fs dir (os.name item.path) h))
  hard_delete-HasDigest plan item w is = elim (act-Touches plan item w) [
    | inl same ↦ inl same
    | inr (dir, o, u, e) ↦ elim (Bool-cases env.settings.allow_hard_delete) [
      | inl on ↦
          let (h, prior, d) =
            digest-Anchored w.fs dir (os.name item.path) item.action item.prior_hash is
              u.same_content in
          inr (on, (dir, h, o, prior, d))
      | inr off ↦ inl (e ∙ delete_disabled dir plan item w is off)
    ]
  ]
