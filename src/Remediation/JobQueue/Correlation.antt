-- ===== src/Remediation/JobQueue/Correlation.antt =====
-- Which jobs an agent is handed by core/remediation/job_queue.py, and which results are taken.
use fathomline.Prelude.{
  ℕ, true, false, Option, none, some, List, [], ◌∷◌, ◌++◌, ◌≡◌, ◌↔◌, ◌≢◌, sym, refl, arith,
  Bool-cases, inl, inr, if◌then◌else◌, ◌==◌, All, ap, ◌∙◌, ==_refl, Option-cases,
}
use fathomline.Prelude.Json.{Text, Text_eq}
use fathomline.Prelude.Dict.{get, put, get-put, get-remove}
use fathomline.Prelude.Effect.{ok, raised}
use fathomline.Remediation.Job.{SignedJob}
use fathomline.Remediation.JobQueue.{
  JobResultPayload, ClaimedJob, Awaited, pending, resolved, no_dispatch, other_host, Waiting,
  JobQueue, queue_for, is_expired, fail, enqueue, clean_up, claim, poll, resolve,
}

-- The queue from the claimed job on.
abbrev pub from_claimed : Option ClaimedJob → Waiting → Waiting
from_claimed none rest = rest
from_claimed (some c) rest = (c.job_id, c.signed_job) ∷ rest

abbrev pub Fresh : ℕ → Option ClaimedJob → Waiting → Type 0
Fresh now none rest = rest ≡ []
Fresh now (some c) rest = is_expired c.signed_job now ≡ false

-- What `claim` has dropped has expired, and what it claims has not.
pub record Claims (now : ℕ) (queue : Waiting) (job : Option ClaimedJob) (rest : Waiting)
    : Type 0 where
  pub dropped : Waiting
  pub all_expired : All (λ (e : Text × SignedJob). is_expired e.1 now ≡ true) dropped
  pub in_order : queue ≡ dropped ++ from_claimed job rest
  pub not_expired : Fresh now job rest

claim-Claims :
    (now : ℕ) (queue : Waiting) (results : List (Text × Awaited))
    → let r = claim now queue results in Claims now queue r.0 r.1
unfolding claim
claim-Claims now [] results = record {
  dropped = [];
  all_expired = tt;
  in_order = refl;
  not_expired = refl;
}
claim-Claims now ((id, signed) ∷ rest) results =
    let later = claim-Claims now rest (fail id results) in
    elim (Bool-cases (is_expired signed now)) [
      | inl old ↦ rw old (record {
        dropped = (id, signed) ∷ later.dropped;
        all_expired = (old, later.all_expired);
        in_order = ap (λ l. (id, signed) ∷ l) later.in_order;
        not_expired = later.not_expired;
      })
      | inr young ↦
          rw young (record { dropped = []; all_expired = tt; in_order = refl; not_expired = young })
    ]

-- A poll hands an agent the first job of its own host's queue that has not expired, or none; the
-- jobs before it, all of them expired, and the job itself are gone from the queue, whose rest keeps
-- its order, and the queues of all other hosts are as they were.
pub poll-Claims :
    (host_id : Text) (now : ℕ) (q : JobQueue)
    → let r = poll host_id now q in
      Claims now (queue_for host_id q) r.0 (queue_for host_id r.1)
      × ((other : Text) → (other == host_id) ≡ false → queue_for other r.1 ≡ queue_for other q)
unfolding poll
poll-Claims host_id now q =
    let rest = (claim now (queue_for host_id q) q.results).1 in
    (
      rw (get-put host_id host_id rest q.queues, ==_refl host_id)
          (claim-Claims now (queue_for host_id q) q.results),
      λ other apart. rw (get-put host_id other rest q.queues, apart),
    )

-- The dispatch of the result's job was issued to this host and is still waiting.
pub record Correlated (host_id : Text) (payload : JobResultPayload) (q : JobQueue) : Type 0 where
  pub issued_here : get payload.job_id q.job_host ≡ some host_id
  pub waits : get payload.job_id q.results ≡ some pending

correlated :
    (host_id : Text) (payload : JobResultPayload) (q q' : JobQueue)
    → resolve host_id payload q ≡ ok q'
    → Correlated host_id payload q
unfolding resolve
correlated host_id payload q q' h = record {
  issued_here = elim (Option-cases (get payload.job_id q.job_host)) [
    | inl e ↦ ground arith
    | inr (owner, e) ↦ e ∙ ap some ((Text_eq.beq_iff owner host_id).0 (ground arith))
  ];
  waits = ground arith;
}

settled :
    (host_id : Text) (payload : JobResultPayload) (q : JobQueue)
    → Correlated host_id payload q
    → resolve host_id payload q
      ≡ ok (record q { results = put payload.job_id (resolved payload) q.results })
unfolding resolve
settled host_id payload q c = rw (c.issued_here, c.waits, ==_refl host_id)

-- A result is taken exactly when its dispatch was issued to the host that posts it and is still
-- waiting; then the dispatch has that result, and no second result for it is taken, from any host.
pub resolve-once :
    (host_id : Text) (payload : JobResultPayload) (q : JobQueue)
    → let q' = record q { results = put payload.job_id (resolved payload) q.results } in
      (resolve host_id payload q ≡ ok q' ↔ Correlated host_id payload q)
      × ((q'' : JobQueue)
          → resolve host_id payload q ≡ ok q''
          → (get payload.job_id q''.results ≡ some (resolved payload))
            × ((other : Text) (again : JobResultPayload) (q₃ : JobQueue)
                → again.job_id ≡ payload.job_id
                → resolve other again q'' ≢ ok q₃))
resolve-once host_id payload q =
    let q' = record q { results = put payload.job_id (resolved payload) q.results } in
    (
      (correlated host_id payload q q', settled host_id payload q),
      λ q'' h.
          let same : q' ≡ q'' =
            ground (arith, settled host_id payload q (correlated host_id payload q q'' h), h) in
          let there : get payload.job_id q''.results ≡ some (resolved payload) =
            ap (λ (v : JobQueue). get payload.job_id v.results) (sym same)
            ∙ rw (
              get-put payload.job_id payload.job_id (resolved payload) q.results,
              ==_refl payload.job_id,
            ) in
          (
            there,
            λ other again q₃ id taken.
                let waits = (correlated other again q'' q₃ taken).waits in
                absurd (ground (arith, ap (λ k. get k q''.results) id, waits, there)),
          ),
    )

-- A dispatch that was enqueued takes the result of its own host and refuses that of any other, and
-- once it has been cleaned up, it takes none.
pub resolve-enqueue :
    (job_id : Text) (signed : SignedJob) (host_id poster : Text) (payload : JobResultPayload)
    (q : JobQueue)
    → payload.job_id ≡ job_id
    → let q₁ = enqueue job_id signed host_id q in
      (resolve poster payload q₁ ≡ (
        if host_id == poster
        then ok (record q₁ { results = put payload.job_id (resolved payload) q₁.results })
        else raised other_host))
      × (resolve poster payload (clean_up job_id q₁) ≡ raised no_dispatch)
unfolding resolve enqueue clean_up
resolve-enqueue job_id signed host_id poster payload q same = (
  rw (same, get-put job_id job_id host_id q.job_host, ==_refl job_id)
      (elim (Bool-cases (host_id == poster)) [
        | inl here ↦ rw (here, get-put job_id job_id pending q.results, ==_refl job_id) refl
        | inr elsewhere ↦ rw elsewhere refl
      ]),
  rw (same, get-remove job_id job_id (put job_id host_id q.job_host), ==_refl job_id) refl,
)
