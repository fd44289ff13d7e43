-- ===== src/Repository/Jobs.antt =====
-- The job queue of repository.py: enqueue_job, list_artifact_jobs, claim_jobs, renew_job_lease,
-- complete_job and fail_job. The clock is read once in each call, and a new id is an argument.
pub mod Invariant
pub mod Claims
pub mod Reports
pub mod Requests
use astrbot_community_plugin.Prelude.{
  ℕ, ◌+◌, String, Bool, true, false, not, ◌&&◌, ◌||◌, Option, none, some, List, [], ◌∷◌, map, ◌==◌,
  ◌=/=◌, nat_eq, string_eq, option_eq, ltb, leb, if◌then◌else◌, member, find, filter, take, Result,
  ok, err, ◌>>=◌,
}
use astrbot_community_plugin.Prelude.Dict.{get, put}
use astrbot_community_plugin.Prelude.Sorting.{sort}
use astrbot_community_plugin.Prelude.TextOrder.{pair_le}
use astrbot_community_plugin.Json.{Object}
use astrbot_community_plugin.Lifecycle.Types.{
  ReviewStatus, review_status_eq, JobType, job_type_eq, JobStatus, job_status_eq,
}
use astrbot_community_plugin.Lifecycle.{ArtifactError, value_error}
use astrbot_community_plugin.Repository.Rows.{Artifact, Job, Repository}
use astrbot_community_plugin.Repository.{
  get_artifact, get_plugin, text_or_none, text_of, or_text, resolved_policy_snapshot,
  publication_payload,
}

abbrev pub job_key : Job → String
job_key j = j.id

-- `payload` of `enqueue_job`; an empty text, 0 or `none` is a missing entry.
pub record JobRequest : Type 0 where
  pub id : String
  pub artifact_id : Option String
  pub type : JobType
  pub payload : Object
  pub max_attempts : ℕ
  pub available_at : Option ℕ
  pub idempotency_key : String
  pub policy_version_id : Option String
  pub run_id : Option String
  pub stage_name : String

-- `REVIEW_JOB_TYPES` of manual_review.py
unfoldable pub is_review_job : JobType → Bool
is_review_job JobType.publish = false
is_review_job JobType.revoke = false
is_review_job JobType.outbox = false
is_review_job JobType.cleanup_orphan = false
is_review_job _ = true

-- The policy and the payload under which a request for an artifact is stored.
unfoldable pub bind_artifact :
    JobRequest → Option Artifact → Repository → Result ArtifactError (Option String × Object)
unfolding is_review_job resolved_policy_snapshot publication_payload
bind_artifact request none r = err (value_error "runtime_result_invalid")
bind_artifact request (some artifact) r =
    if is_review_job request.type && artifact.review_status == ReviewStatus.approved
    then err (value_error "review_already_approved")
    else do
      policy ← resolved_policy_snapshot artifact.policy_version_id request.policy_version_id
      ok (
        policy,
        if request.type == JobType.publish
            then publication_payload (get_plugin artifact.plugin_id r) request.payload
            else request.payload,
      )

unfoldable pub bind_to :
    JobRequest → Repository → Option String → Result ArtifactError (Option String × Object)
unfolding bind_artifact
bind_to request r none = ok (request.policy_version_id, request.payload)
bind_to request r (some artifact_id) = bind_artifact request (get_artifact artifact_id r) r

unfoldable pub bind_request :
    JobRequest → Repository → Result ArtifactError (Option String × Object)
unfolding bind_to
bind_request request r = bind_to request r (text_or_none request.artifact_id)

unfoldable pub new_job : ℕ → String → JobRequest → Option String × Object → Job
new_job now fresh request (policy, payload) = record {
  id = or_text request.id fresh;
  artifact_id = request.artifact_id;
  type = request.type;
  status = JobStatus.queued;
  payload = payload;
  attempts = 0;
  max_attempts = if request.max_attempts == 0 then 3 else request.max_attempts;
  available_at = elim request.available_at [ none ↦ now | some t ↦ t ];
  lease_owner = none;
  lease_expires_at = none;
  idempotency_key = request.idempotency_key;
  policy_version_id = policy;
  run_id = request.run_id;
  stage_name = request.stage_name;
  last_error_code = "";
  last_error = "";
  created_at = now;
  updated_at = now;
  completed_at = none;
  superseded_at = none;
}

-- The job that holds an idempotency key.
abbrev pub job_with_key : String → List Job → Option Job
job_with_key key = find (λ j. j.idempotency_key == key)

unfoldable pub same_request : JobRequest → Option String → Job → Bool
same_request request policy job =
    text_of job.artifact_id == text_of request.artifact_id
    && job.type == request.type
    && job.policy_version_id == policy

-- A job that holds the key answers the same request; without one, a new job is stored.
unfoldable pub enqueue_found :
    ℕ
    → String
    → JobRequest
    → Repository
    → Option String × Object
    → Option Job
    → Result ArtifactError (Job × Repository)
unfolding new_job same_request
enqueue_found now fresh request r bound (some job) =
    if same_request request bound.0 job
    then ok (job, r)
    else err (value_error "idempotency_key_conflict")
enqueue_found now fresh request r bound none =
    let job = new_job now fresh request bound in
    ok (job, record r { jobs = put job_key job r.jobs })

unfoldable pub enqueue_job :
    ℕ → String → JobRequest → Repository → Result ArtifactError (Job × Repository)
unfolding bind_request enqueue_found
enqueue_job now fresh request r = do
  bound ← bind_request request r
  enqueue_found now fresh request r bound (job_with_key request.idempotency_key r.jobs)

abbrev created_le : Job → Job → Bool
created_le a b = leb a.created_at b.created_at

unfoldable pub list_artifact_jobs : String → List Job → List Job
list_artifact_jobs artifact_id jobs =
    sort created_le
      (filter (λ j. j.artifact_id == some artifact_id && j.superseded_at == none) jobs)

abbrev pub lease_expired : ℕ → Option ℕ → Bool
lease_expired now none = true
lease_expired now (some expires) = ltb expires now

unfoldable pub is_candidate : ℕ → Job → Bool
is_candidate now job =
    ltb job.attempts job.max_attempts
    && (job.status == JobStatus.queued && leb job.available_at now
        || job.status == JobStatus.running && lease_expired now job.lease_expires_at)

-- The order of the sort key `(available_at, created_at)`, of which `texts` gives the two columns of a
-- job. They are ISO texts of mixed form, so that their order is not that of the instants.
unfoldable pub claim_order : (Job → String × String) → Job → Job → Bool
unfolding pair_le
claim_order texts a b = pair_le (texts a) (texts b)

unfoldable pub lease_to : ℕ → String → ℕ → Job → Job
lease_to now worker_id lease job = record job {
  status = JobStatus.running;
  attempts = job.attempts + 1;
  lease_owner = some worker_id;
  lease_expires_at = some (now + lease);
  updated_at = now;
}

-- The write to the jobs that were claimed, which are objects of the queue: those with a claimed id.
unfoldable pub lease_claimed : ℕ → String → ℕ → List String → Job → Job
lease_claimed now worker_id lease ids job =
    if member job.id ids then lease_to now worker_id lease job else job

-- `candidates[:limit]`
unfoldable pub claimed_jobs : (Job → String × String) → ℕ → ℕ → List Job → List Job
claimed_jobs texts now limit jobs =
    take limit (sort (claim_order texts) (filter (is_candidate now) jobs))

-- The jobs handed out, and the queue in which they are leased.
unfoldable pub claim_jobs :
    (Job → String × String) → ℕ → String → ℕ → ℕ → List Job → List Job × List Job
unfolding claimed_jobs lease_claimed
claim_jobs texts now worker_id limit lease jobs =
    let claimed = claimed_jobs texts now limit jobs in
    (
      map (lease_to now worker_id lease) claimed,
      map (lease_claimed now worker_id lease (map job_key claimed)) jobs,
    )

-- `job["status"] == "running" and job["lease_owner"] == worker_id`
unfoldable pub holds_lease : String → Job → Bool
holds_lease worker_id job = job.status == JobStatus.running && job.lease_owner == some worker_id

unfoldable pub report_on : String → (Job → Job) → List Job → Option Job → Bool × List Job
unfolding holds_lease
report_on worker_id change jobs none = (false, jobs)
report_on worker_id change jobs (some job) =
    if holds_lease worker_id job then (true, put job_key (change job) jobs) else (false, jobs)

-- The guard of the three calls by which a worker reports on a job, and the write behind it.
unfoldable pub report : String → String → (Job → Job) → List Job → Bool × List Job
unfolding report_on
report job_id worker_id change jobs = report_on worker_id change jobs (get job_key job_id jobs)

unfoldable pub renewed : ℕ → ℕ → Job → Job
renewed now lease job = record job { lease_expires_at = some (now + lease); updated_at = now }

unfoldable pub renew_job_lease : ℕ → String → String → ℕ → List Job → Bool × List Job
unfolding report renewed
renew_job_lease now job_id worker_id lease = report job_id worker_id (renewed now lease)

unfoldable pub completed : ℕ → Job → Job
completed now job = record job {
  status = JobStatus.succeeded;
  lease_owner = none;
  lease_expires_at = none;
  completed_at = some now;
  updated_at = now;
}

unfoldable pub complete_job : ℕ → String → String → List Job → Bool × List Job
unfolding report completed
complete_job now job_id worker_id = report job_id worker_id (completed now)

unfoldable pub failed : ℕ → String → String → Bool → ℕ → Job → Job
failed now error_code error_message retry retry_delay job =
    let should_retry = retry && ltb job.attempts job.max_attempts in
    record job {
      status = if should_retry then JobStatus.queued else JobStatus.failed;
      available_at = now + retry_delay;
      lease_owner = none;
      lease_expires_at = none;
      last_error_code = error_code;
      last_error = error_message;
      completed_at = if should_retry then none else some now;
      updated_at = now;
    }

unfoldable pub fail_job :
    ℕ → String → String → String → String → Bool → ℕ → List Job → Bool × List Job
unfolding report failed
fail_job now job_id worker_id error_code error_message retry retry_delay =
    report job_id worker_id (failed now error_code error_message retry retry_delay)
