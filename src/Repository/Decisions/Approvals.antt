-- ===== src/Repository/Decisions/Approvals.antt =====
-- The two approvals of repository.py, approve_artifact by a reviewer and auto_approve_artifact by
-- the policy, with the publish job that they store.
use astrbot_community_plugin.Prelude.{
  ℕ, String, Bool, not, ◌&&◌, Option, none, some, List, [], map, ◌==◌, string_eq, option_eq,
  if◌then◌else◌, any, ok, err, raise_if, ◌>>=◌, ◌>>◌,
}
use astrbot_community_plugin.Prelude.Dict.{put}
use astrbot_community_plugin.Prelude.Text.{◌<>◌}
use astrbot_community_plugin.Json.{empty, field, text}
use astrbot_community_plugin.Lifecycle.Types.{
  ReviewStatus, review_status_eq, review_status_value, RunType, RunStatus, run_type_eq,
  run_status_eq, JobType, job_type_eq, JobStatus, DecisionAction, DecisionSource,
}
use astrbot_community_plugin.Lifecycle.{value_error, state_error}
use astrbot_community_plugin.Repository.Rows.{
  Artifact, Run, Job, Decision, Plugin, Reviewer, Repository,
}
use astrbot_community_plugin.Repository.{
  artifact_key, get_artifact, get_plugin, text_or_none, text_of, publication_payload,
}
use astrbot_community_plugin.Repository.Jobs.{job_key, job_with_key}
use astrbot_community_plugin.Repository.Decisions.{
  decision_key, Outcome, decision_with_key, reviewer_name, policy_text, lock_thread,
}

-- `str(plugin.get("owner_user_id") or "")`, with no plugin as an empty mapping
abbrev pub owner_of : Option Plugin → String
owner_of none = ""
owner_of (some plugin) = text_of plugin.owner_user_id

-- `str(plugin.get("repo_version") or "")`
abbrev pub repo_version_of : Option Plugin → String
repo_version_of none = ""
repo_version_of (some plugin) = plugin.repo_version

-- The idempotency key of the publish job of an artifact.
abbrev pub publish_key : String → String
publish_key artifact_id = "publish:" <> artifact_id

-- The publish job that an approval stores.
unfoldable pub publish_job :
    ℕ → String → Artifact → Option Plugin → String → Option String → String → Job
unfolding publication_payload
publish_job now fresh a plugin repo_version policy stage_name = record {
  id = fresh;
  artifact_id = some a.id;
  type = JobType.publish;
  status = JobStatus.queued;
  payload = publication_payload plugin (field "expected_repo_version" (text repo_version) empty);
  attempts = 0;
  max_attempts = 5;
  available_at = now;
  lease_owner = none;
  lease_expires_at = none;
  idempotency_key = publish_key a.id;
  policy_version_id = policy;
  run_id = none;
  stage_name = stage_name;
  last_error_code = "";
  last_error = "";
  created_at = now;
  updated_at = now;
  completed_at = none;
  superseded_at = none;
}

-- The job is stored unless one holds its key.
unfoldable pub put_new_job : Job → List Job → List Job
put_new_job job jobs = elim (job_with_key job.idempotency_key jobs) [
  | none ↦ put job_key job jobs
  | some _ ↦ jobs
]

-- A decision that holds the key answers a call for the same artifact.
unfoldable pub approval_replayed : String → Repository → Decision → Outcome
approval_replayed artifact_id r d =
    if d.artifact_id == artifact_id
    then ok (get_artifact artifact_id r, r)
    else err (value_error "idempotency_key_conflict")

-- The arguments of `approve_artifact`.
pub record Approval : Type 0 where
  pub reviewer : Reviewer
  pub reason : String
  pub expected_repo_version : String
  pub expected_normalized_version : String
  pub idempotency_key : String

unfoldable pub is_success : RunType → String → Option String → Run → Bool
is_success type artifact_id policy run =
    run.type == type
    && run.artifact_id == artifact_id
    && run.status == RunStatus.succeeded
    && run.policy_version_id == policy

-- `{"precheck", "static"}.issubset(succeeded)`
unfoldable pub required_runs : String → Option String → List Run → Bool
unfolding is_success
required_runs artifact_id policy runs =
    any (is_success RunType.precheck artifact_id policy) runs
    && any (is_success RunType.static artifact_id policy) runs

unfoldable pub approval_decision :
    ℕ → String → Approval → Artifact → String → Option String → Decision
unfolding reviewer_name review_status_value
approval_decision now fresh q a version policy = record {
  id = fresh;
  artifact_id = a.id;
  action = DecisionAction.approve;
  from_status = review_status_value a.review_status;
  to_status = review_status_value ReviewStatus.approved;
  reason = q.reason;
  reviewer_user_id = q.reviewer.id;
  reviewer_nickname = reviewer_name (some q.reviewer);
  policy_version = version;
  policy_version_id = policy;
  source = DecisionSource.admin;
  input_run_ids = [];
  input_fingerprints = [];
  coverage_sha256 = "";
  metadata = empty;
  idempotency_key = q.idempotency_key;
  created_at = now;
}

-- What both approvals write, the approved artifact, its decision and its publish job.
unfoldable pub write_approval :
    ℕ → Artifact → Decision → Job → Repository → Option Artifact × Repository
unfolding lock_thread put_new_job
write_approval now a d job r = (
  some a,
  record r {
    decisions = put decision_key d r.decisions;
    artifacts = put artifact_key a r.artifacts;
    threads = map (lock_thread now a.id) r.threads;
    jobs = put_new_job job r.jobs;
  },
)

unfoldable pub approve_found :
    ℕ → String → String → Approval → Repository → Option Artifact → Outcome
unfolding policy_text required_runs approval_decision write_approval publish_job review_status_value
approve_found now fresh fresh_job q r none = ok (none, r)
approve_found now fresh fresh_job q r (some a) = do
  raise_if (not (a.review_status == ReviewStatus.pending_review))
      (state_error "artifact_not_pending_review" (review_status_value a.review_status) "approved")
  raise_if (owner_of (get_plugin a.plugin_id r) == text_of q.reviewer.id)
      (state_error "self_approval_forbidden" (review_status_value a.review_status) "approved")
  raise_if (not (repo_version_of (get_plugin a.plugin_id r) == q.expected_repo_version))
      (value_error "repo_version_changed")
  raise_if (not (a.normalized_version == q.expected_normalized_version))
      (value_error "artifact_version_changed")
  version ← policy_text "p1" (text_or_none a.policy_version_id) r
  raise_if (not (required_runs a.id (text_or_none a.policy_version_id) r.runs))
      (value_error "required_review_runs_missing")
  ok (
      write_approval now
        (record a {
          review_status = ReviewStatus.approved;
          reviewed_at = some now;
          updated_at = now;
        })
        (approval_decision now fresh q a version (text_or_none a.policy_version_id))
        (publish_job now fresh_job a (get_plugin a.plugin_id r) q.expected_repo_version
          a.policy_version_id "publish")
        r)

unfoldable pub approve_keyed :
    ℕ → String → String → String → Approval → Repository → Option Decision → Outcome
unfolding approval_replayed approve_found
approve_keyed now fresh fresh_job artifact_id q r (some d) = approval_replayed artifact_id r d
approve_keyed now fresh fresh_job artifact_id q r none =
    approve_found now fresh fresh_job q r (get_artifact artifact_id r)

unfoldable pub approve_artifact : ℕ → String → String → String → Approval → Repository → Outcome
unfolding approve_keyed
approve_artifact now fresh fresh_job artifact_id q r =
    approve_keyed now fresh fresh_job artifact_id q r
      (decision_with_key q.idempotency_key r.decisions)
