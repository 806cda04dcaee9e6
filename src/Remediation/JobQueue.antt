-- ===== src/Remediation/JobQueue.antt =====
-- core/remediation/job_queue.py: the jobs that wait for an agent, and the dispatches that wait for a
-- result. What the event loop interleaves is an operation each: the enqueuing and the clean-up of
-- `enqueue_and_wait`, `poll` without its waiting, and `resolve`. A time is as in Job.
pub mod Correlation
mod Tests
use fathomline.Prelude.{
  ℕ, Bool, true, false, not, Option, none, some, List, [], ◌∷◌, ◌++◌, if◌then◌else◌, ◌==◌, leb,
}
use fathomline.Prelude.Json.{Text, Text_eq}
use fathomline.Prelude.Dict.{get, put, remove}
use fathomline.Prelude.Effect.{Outcome, ok, raised}
use fathomline.Audit.{AuditRecord}
use fathomline.Remediation.Job.{JobMode, expires_of, nonce_of, SignedJob}

pub record JobResultPayload : Type 0 where
  pub job_id : Text
  pub plan_id : Text
  pub mode : JobMode
  pub drift : List (Text × Text)
  pub results : List (Text × Text × Text × Text)
  pub audit : List AuditRecord

pub record ClaimedJob : Type 0 where
  pub job_id : Text
  pub signed_job : SignedJob

-- The future of a dispatch.
pub data Awaited : Type 0 where
  pending timed_out : Awaited
  resolved : JobResultPayload → Awaited

pub data JobCorrelationError : Type 0 where
  no_dispatch other_host already_resolved : JobCorrelationError

abbrev pub Waiting : Type 0
Waiting = List (Text × SignedJob)

pub record JobQueue : Type 0 where
  pub queues : List (Text × Waiting)
  pub results : List (Text × Awaited)
  pub job_host : List (Text × Text)
  pub job_nonce : List (Text × Text)

abbrev pub or_empty : Option Waiting → Waiting
or_empty none = []
or_empty (some w) = w

-- `_queue_for`
abbrev pub queue_for : Text → JobQueue → Waiting
queue_for host_id q = or_empty (get host_id q.queues)

abbrev pub is_expired : SignedJob → ℕ → Bool
is_expired signed at = leb (expires_of signed.job) at

-- `enqueue_and_wait` up to its `await`, with the token that it has drawn.
unfoldable pub enqueue : Text → SignedJob → Text → JobQueue → JobQueue
enqueue job_id signed host_id q = record {
  queues = put host_id (queue_for host_id q ++ (job_id, signed) ∷ []) q.queues;
  results = put job_id pending q.results;
  job_host = put job_id host_id q.job_host;
  job_nonce = put job_id (nonce_of signed.job) q.job_nonce;
}

-- The `finally` of `enqueue_and_wait`.
unfoldable pub clean_up : Text → JobQueue → JobQueue
clean_up job_id q = record q {
  results = remove job_id q.results;
  job_host = remove job_id q.job_host;
  job_nonce = remove job_id q.job_nonce;
}

abbrev failed : Text → Option Awaited → List (Text × Awaited) → List (Text × Awaited)
failed job_id (some pending) results = put job_id timed_out results
failed job_id _ results = results

-- `_fail`
unfoldable pub fail : Text → List (Text × Awaited) → List (Text × Awaited)
fail job_id results = failed job_id (get job_id results) results

-- The loop of `poll`: what is claimed, what is left in the queue, and the futures.
unfoldable pub claim :
    ℕ → Waiting → List (Text × Awaited) → Option ClaimedJob × Waiting × List (Text × Awaited)
unfolding fail
claim now [] results = (none, [], results)
claim now ((job_id, signed) ∷ rest) results =
    let dropped = claim now rest (fail job_id results) in
    if is_expired signed now
    then dropped
    else (some (record { job_id = job_id; signed_job = signed }), rest, results)

unfoldable pub poll : Text → ℕ → JobQueue → Option ClaimedJob × JobQueue
unfolding claim
poll host_id now q =
    let (job, rest, results) = claim now (queue_for host_id q) q.results in
    (job, record q { queues = put host_id rest q.queues; results = results })

abbrev settle : JobResultPayload → Option Awaited → JobQueue → Outcome JobCorrelationError JobQueue
settle payload (some pending) q =
    ok (record q { results = put payload.job_id (resolved payload) q.results })
settle payload _ q = raised already_resolved

abbrev checked :
    Text → JobResultPayload → Option Text → JobQueue → Outcome JobCorrelationError JobQueue
checked host_id payload none q = raised no_dispatch
checked host_id payload (some expected_host) q =
    if not (expected_host == host_id)
    then raised other_host
    else settle payload (get payload.job_id q.results) q

unfoldable pub resolve : Text → JobResultPayload → JobQueue → Outcome JobCorrelationError JobQueue
resolve host_id payload q = checked host_id payload (get payload.job_id q.job_host) q
