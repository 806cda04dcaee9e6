-- ===== src/Remediation/JobQueue/Tests.antt =====
-- Instances for the job queue.
use fathomline.Prelude.{false, [], ◌∷◌, ◌≡◌, ◌==◌}
use fathomline.Prelude.Json.{Text, Text_eq, codes}
use fathomline.Remediation.Job.{action, ed25519, SignedJob}
use fathomline.Remediation.JobQueue.{JobQueue, queue_for, enqueue, poll}
use fathomline.Remediation.JobQueue.Correlation.{Claims, poll-Claims}
use fathomline.Remediation.Sample.{good_item, job_with}

abbrev no_jobs : JobQueue
no_jobs = record { queues = []; results = []; job_host = []; job_nonce = [] }

abbrev signed : SignedJob
signed = record {
  job = action (job_with (good_item ∷ []));
  key_id = codes "k";
  algorithm = ed25519;
  signature = [];
}

abbrev one_job : JobQueue
one_job = enqueue (codes "j1") signed (codes "h") no_jobs

poll-Claims_example :
    let r = poll (codes "h") 15 one_job in
    Claims 15 (queue_for (codes "h") one_job) r.0 (queue_for (codes "h") r.1)
    × ((other : Text)
        → (other == codes "h") ≡ false
        → queue_for other r.1 ≡ queue_for other one_job)
poll-Claims_example = poll-Claims (codes "h") 15 one_job
