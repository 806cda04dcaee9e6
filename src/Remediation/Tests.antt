-- ===== src/Remediation/Tests.antt =====
-- Instances for the modules of Remediation that build plans, check files and change them.
use fathomline.Prelude.{true, false, none, some, List, [], ◌∷◌, ◌≡◌, ◌↔◌, refl}
use fathomline.Prelude.Json.{Text, Text_eq, codes}
use fathomline.Prelude.Effect.{ok}
use fathomline.Audit.Sample.{sample_codec}
use fathomline.Remediation.Plan.{
  quarantine, hard_delete, int, Member, RemediationPlan, build_plan, new_plan,
}
use fathomline.Remediation.Plan.Building.{SparesKeeper, build_plan-SparesKeeper}
use fathomline.Remediation.Os.Posix.{KeepsAll}
use fathomline.Remediation.Os.Memory.{memory, memory-IsPosix}
use fathomline.Remediation.Recheck.{recheck}
use fathomline.Remediation.Recheck.Unchanged.{Unchanged, recheck-Unchanged}
use fathomline.Remediation.Mutation.{mutate, move_file}
use fathomline.Remediation.Mutation.Placing.{MoveResult}
use fathomline.Remediation.Mutation.Moving.{move_file-MoveResult}
use fathomline.Remediation.Mutation.Losses.{finished, mutate-Spared}
use fathomline.Remediation.Sample.{files, good_item, lost_item, plan_with, settings_with}

abbrev members : List Member
members =
    record { entry_id = int 1; path = codes "a"; inode = 5; size = 2 }
    ∷ record { entry_id = int 2; path = codes "b"; inode = 6; size = 2 }
    ∷ []

abbrev built : RemediationPlan
built =
    record (plan_with (record lost_item { prior_inode = 6; prior_hash = some (codes "d") } ∷ [])) {
      keeper_path = codes "a";
    }

is_built : build_plan (codes "p") (codes "ada") members (int 1) (codes "d") quarantine ≡ ok built
unfolding build_plan new_plan
is_built = refl

build_plan-SparesKeeper_example : SparesKeeper members (int 1) (codes "d") quarantine built
build_plan-SparesKeeper_example =
    build_plan-SparesKeeper (codes "p") (codes "ada") members (int 1) (codes "d") quarantine
      is_built

recheck-Unchanged_example :
    (recheck memory sample_codec files 0 (codes "a") good_item ≡ none)
    ↔ Unchanged memory sample_codec files 0 (codes "a") good_item
recheck-Unchanged_example = recheck-Unchanged memory sample_codec files 0 (codes "a") good_item

move_file-MoveResult_example :
    MoveResult memory memory-IsPosix 0
      (codes "a")
      files
      (move_file memory files 0 (codes "a") (some (codes "r")) (some (codes "x/y")))
move_file-MoveResult_example =
    move_file-MoveResult memory memory-IsPosix files 0 (codes "a") (some (codes "r"))
      (some (codes "x/y"))

not_finished :
    finished
      (mutate memory
        (settings_with true)
        files
        0
        (codes "a")
        (plan_with (good_item ∷ []))
        good_item
        hard_delete).0
    ≡ false
unfolding mutate
not_finished = refl

mutate-Spared_example :
    KeepsAll memory files
      (mutate memory
        (settings_with true)
        files
        0
        (codes "a")
        (plan_with (good_item ∷ []))
        good_item
        hard_delete).1
mutate-Spared_example =
    mutate-Spared memory memory-IsPosix files (settings_with true) 0 (codes "a")
      (plan_with (good_item ∷ [])) good_item hard_delete not_finished

abbrev put_aside : Text
put_aside = codes "q/p__5__a"
