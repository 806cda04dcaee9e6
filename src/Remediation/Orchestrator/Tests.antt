-- ===== src/Remediation/Orchestrator/Tests.antt =====
-- Instances for the modules about the dispatch of jobs, on both sides of the channel.
use fathomline.Prelude.{
  true, false, not, ◌||◌, Option, none, some, List, [], ◌∷◌, length, ltb, ◌≡◌, ◌⊎◌, refl, list_beq,
}
use fathomline.Prelude.Json.{Text, Text_eq, codes}
use fathomline.Prelude.Dict.{put, has}
use fathomline.Prelude.Effect.{ok}
use fathomline.Audit.{new_chain, append, emit}
use fathomline.Paths.{validate_config_path}
use fathomline.Remediation.Orchestrator.Planning.{Planned, build-Planned}
use fathomline.Audit.Sample.{sample_codec}
use fathomline.Remediation.Plan.{
  int, quarantine, build_plan, new_plan, RemediationPlan, str_of, is_empty,
}
use fathomline.Remediation.Os.Memory.{memory}
use fathomline.Remediation.Drift.{missing}
use fathomline.Remediation.Job.{execute, ed25519, DispatchJob, SignedJob}
use fathomline.Remediation.Planner.{
  VerifyReport, dry_run_verify, verify_items, verify_item, stat_drift, hash_drift,
}
use fathomline.Remediation.Executor.{execute_with_audit}
use fathomline.Remediation.Dispatch.{plan_from_job, clean_items, dispatch_execute}
use fathomline.Remediation.Dispatch.Clean.{clean_part, dispatch_execute-clean}
use fathomline.Remediation.Orchestrator.{
  GroupMember, build, audit, Desk, Office, ExecuteOutcome, dispatch_job,
}
use fathomline.Remediation.Orchestrator.Dispatching.{Announced, job_for, dispatch_job-Announced}
use fathomline.Remediation.Sample.{
  takes_all, files, good_item, lost_item, plan_with, surroundings, world, job_with,
}

abbrev lost_report : VerifyReport
lost_report = (codes "2", missing) ∷ []

report_of_two :
    dry_run_verify memory files (plan_from_job (job_with (good_item ∷ lost_item ∷ []))) none true
    ≡ ok lost_report
unfolding plan_from_job dry_run_verify verify_items verify_item stat_drift hash_drift str_of
    list_beq put
report_of_two = refl

one_clean : is_empty (clean_items lost_report (good_item ∷ lost_item ∷ [])) ≡ false
unfolding str_of list_beq has
one_clean = refl

dispatch_execute-clean_example :
    dispatch_execute memory surroundings none (job_with (good_item ∷ lost_item ∷ [])) false world
    ≡ execute_with_audit memory surroundings
        (clean_part memory surroundings none (job_with (good_item ∷ lost_item ∷ [])) lost_report)
        []
        false
        world
dispatch_execute-clean_example =
    dispatch_execute-clean memory surroundings none (job_with (good_item ∷ lost_item ∷ []))
      lost_report false world report_of_two one_clean

abbrev sign : DispatchJob → SignedJob
sign job = record { job = job; key_id = codes "k"; algorithm = ed25519; signature = [] }

abbrev office : Office
office = record {
  codec = sample_codec;
  sink = takes_all;
  stamp = λ c. codes "t";
  sign = sign;
  blast_cap = 1;
  job_ttl = 300;
  clock = λ n. n;
  fresh_nonce = λ n. n ∷ [];
  places = record {
    normpath = λ p. p;
    exists = λ p. true;
    is_dir = λ p. true;
    is_file = λ p. true;
  };
}

abbrev desk : Desk
desk = record { chain = new_chain; drawn = 0; sent = [] }

abbrev as_given : List Text → List Text
as_given l = l

abbrev outcome : SignedJob → Option ExecuteOutcome
outcome s = some (record { results = []; audit = [] })

abbrev two : RemediationPlan
two = plan_with (good_item ∷ lost_item ∷ [])

dispatch_job-Announced_example :
    let d' = (dispatch_job office as_given two lost_report (codes "h") false outcome desk).1 in
    let live = clean_items lost_report two.items in
    (d'.sent ≡ [])
    ⊎ ((is_empty live ≡ false)
        × ((false || not (ltb 1 (length live))) ≡ true)
        × Announced office as_given
            (sign (job_for office as_given two execute live (codes "h") desk))
            (codes "ada")
            (codes "remediation.execute.dispatch")
            (codes "p")
            []
            new_chain
            d')
dispatch_job-Announced_example =
    dispatch_job-Announced office as_given two lost_report (codes "h") false outcome desk

abbrev group : List GroupMember
group =
    record { entry_id = int 1; host_id = 1; volume_id = 1; path = codes "/a"; inode = 5; size = 2 }
    ∷ record {
      entry_id = int 2;
      host_id = 1;
      volume_id = 1;
      path = codes "/a/../b";
      inode = 6;
      size = 2;
    }
    ∷ []

abbrev planned : RemediationPlan
planned = record {
  plan_id = codes "p";
  created_by = codes "ada";
  keeper_path = codes "/a";
  items =
      record {
        entry_id = int 2;
        path = codes "/a/../b";
        prior_inode = 6;
        prior_size = 2;
        prior_hash = some (codes "d");
        action = quarantine;
        dest_rel = none;
      }
      ∷ [];
  move_root = none;
}

abbrev desk_after : Desk
desk_after =
    (build office as_given (codes "p") group (int 1) (codes "d") (codes "ada") quarantine desk).1

is_planned :
    build office as_given (codes "p") group (int 1) (codes "d") (codes "ada") quarantine desk
    ≡ (ok planned, desk_after)
unfolding build build_plan new_plan validate_config_path audit append emit
is_planned = refl

build-Planned_example :
    Planned office as_given group
      (int 1)
      (codes "d")
      (codes "ada")
      quarantine
      desk
      desk_after
      planned
build-Planned_example =
    build-Planned office as_given (codes "p") group (int 1) (codes "d") (codes "ada") quarantine
      desk desk_after planned is_planned
