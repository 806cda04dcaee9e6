-- ===== src/Remediation/Sample.antt =====
-- Concrete jobs, plans and surroundings, for the tests of Remediation.
use fathomline.Prelude.{ℕ, Bool, true, false, none, some, List, if◌then◌else◌}
use fathomline.Prelude.Json.{Text, Text_eq, codes}
use fathomline.Audit.{AuditRecord, new_chain}
use fathomline.Audit.Sample.{sample_codec}
use fathomline.Remediation.Plan.{PlanAction, quarantine, int, PlanItem, RemediationPlan}
use fathomline.Remediation.Os.Posix.{same_place}
use fathomline.Remediation.Os.Memory.{Files, memory}
use fathomline.Remediation.Mutation.{Settings}
use fathomline.Remediation.Job.{execute, ActionJob}
use fathomline.Remediation.Executor.{World, Surroundings}

abbrev pub takes_all : List AuditRecord → AuditRecord → Bool
takes_all l r = true

-- The file `a` in directory 0: two bytes, inode 5.
abbrev pub files : Files
files e m =
    if same_place 0 (codes "a") e m
    then some
        (record { stat = record { is_link = false; ino = 5; size = 2 }; content = codes "hi" })
    else none

abbrev pub item_for : Text → ℕ → PlanAction → PlanItem
item_for path id action = record {
  entry_id = int id;
  path = path;
  prior_inode = 5;
  prior_size = 2;
  prior_hash = none;
  action = action;
  dest_rel = none;
}

abbrev pub good_item : PlanItem
good_item = item_for (codes "a") 1 quarantine

-- There is no file of this name.
abbrev pub lost_item : PlanItem
lost_item = item_for (codes "b") 2 quarantine

abbrev pub plan_with : List PlanItem → RemediationPlan
plan_with items = record {
  plan_id = codes "p";
  created_by = codes "ada";
  keeper_path = codes "k";
  items = items;
  move_root = none;
}

abbrev pub settings_with : Bool → Settings
settings_with write_enabled = record {
  quarantine_dir = codes "q";
  write_enabled = write_enabled;
  blast_cap = 1;
  allow_hard_delete = false;
  actor = codes "strata-actor";
}

abbrev pub surroundings_with : Bool → Surroundings
surroundings_with write_enabled = record {
  codec = sample_codec;
  sink = takes_all;
  now = λ c. codes "t";
  settings = settings_with write_enabled;
}

abbrev pub surroundings : Surroundings
surroundings = surroundings_with true

abbrev pub world : World memory
world = record { fs = files; chain = new_chain }

abbrev pub job_with : List PlanItem → ActionJob
job_with items = record {
  plan_id = codes "p";
  mode = execute;
  nonce = codes "n1";
  issued_at = 10;
  expires_at = 20;
  host_id = codes "h";
  keeper_path = codes "k";
  items = items;
  move_root = none;
}
