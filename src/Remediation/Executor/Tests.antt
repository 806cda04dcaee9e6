-- ===== src/Remediation/Executor/Tests.antt =====
-- Instances for the modules of the executor.
use fathomline.Prelude.{ℕ, true, some, [], ◌∷◌, ◌++◌, ◌≡◌, ◌⊎◌, refl, ◌==◌, list_beq, if◌then◌else◌}
use fathomline.Prelude.Json.{Text, Text_eq, codes}
use fathomline.Prelude.Effect.{Outcome, ok, raised}
use fathomline.Audit.{new_chain}
use fathomline.Audit.Sample.{sample_codec}
use fathomline.Remediation.Plan.{RemediationPlan, hard_delete, PlanItem, str_of}
use fathomline.Remediation.Os.{Os, Opened, fd}
use fathomline.Remediation.Os.Memory.{memory}
use fathomline.Remediation.Recheck.{recheck, stat_drift}
use fathomline.Remediation.Recheck.Unchanged.{HasDigest}
use fathomline.Remediation.Mutation.{Fault, os_error, aborted_drift}
use fathomline.Remediation.Executor.{
  World, Surroundings, ExecOutcome, act, act_in, act_checked, act_all, execute_with_audit,
}
use fathomline.Remediation.Executor.Guards.{Cleared, act-Cleared}
use fathomline.Remediation.Executor.Runs.{act_all-stops}
use fathomline.Remediation.Executor.Deletes.{hard_delete-HasDigest}
use fathomline.Remediation.Sample.{files, good_item, lost_item, plan_with, surroundings, world}

act-Cleared_example :
    let w' = (act memory surroundings (plan_with (good_item ∷ [])) good_item world).1 in
    (w' ≡ world) ⊎ Cleared memory surroundings (plan_with (good_item ∷ [])) good_item world w'
act-Cleared_example = act-Cleared memory surroundings (plan_with (good_item ∷ [])) good_item world

-- An item to delete whose content the plan is bound to.
abbrev bound_item : PlanItem
bound_item = record good_item { action = hard_delete; prior_hash = some (codes "d") }

abbrev deletes : Surroundings
deletes = record surroundings {
  settings = record (surroundings.settings) { allow_hard_delete = true };
}

hard_delete-HasDigest_example :
    ((act memory deletes (plan_with (bound_item ∷ [])) bound_item world).1.fs ≡ world.fs)
    ⊎ ((deletes.settings.allow_hard_delete ≡ true)
        × ((dir : ℕ) × (h : Text) × (memory.open_directory files (memory.parent (codes "a"))
              ≡ fd dir)
            × (bound_item.prior_hash ≡ some h)
            × HasDigest memory sample_codec files dir (memory.name (codes "a")) h))
hard_delete-HasDigest_example =
    hard_delete-HasDigest memory deletes (plan_with (bound_item ∷ [])) bound_item world refl

-- Here the path `c` lies in a directory that cannot be opened.
abbrev walled : Os
walled = record memory {
  parent = λ t. t;
  open_directory = λ fs p. if p == codes "c" then Opened.refused 13 else fd 0;
}

abbrev walled_item : PlanItem
walled_item = record good_item { path = codes "c" }

abbrev walled_world : World walled
walled_world = record { fs = files; chain = new_chain }

abbrev first_result : ExecOutcome
first_result = record {
  results =
      record {
        entry_id = codes "2";
        action = codes "quarantine";
        status = aborted_drift;
        detail = codes "missing";
      }
      ∷ [];
  audit = [];
}

first_ran :
    act_all walled surroundings (plan_with []) (lost_item ∷ []) walled_world
    ≡ (ok first_result, walled_world)
unfolding act_all act act_in act_checked recheck stat_drift str_of list_beq
first_ran = refl

act_all-stops_example :
    act_all walled surroundings
      (plan_with [])
      ((lost_item ∷ []) ++ walled_item ∷ good_item ∷ [])
      walled_world
    ≡ (raised (os_error 13), walled_world)
act_all-stops_example =
    act_all-stops walled surroundings (plan_with []) (lost_item ∷ []) walled_item (good_item ∷ [])
      walled_world walled_world first_ran (unfold list_beq in refl)

-- What a run returned, or nothing.
abbrev returned : Outcome Fault ExecOutcome → ExecOutcome
returned (ok o) = o
returned (raised f) = record { results = []; audit = [] }

abbrev two : RemediationPlan
two = plan_with (good_item ∷ lost_item ∷ [])

abbrev run_of_two : Outcome Fault ExecOutcome × World memory
run_of_two = execute_with_audit memory surroundings two [] true world
