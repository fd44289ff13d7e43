-- ===== src/Repository/Decisions/Automatic.antt =====
-- auto_approve_artifact of repository.py, the approval by the policy.
use astrbot_community_plugin.Prelude.{
  ℕ, String, Bool, false, not, ◌&&◌, Option, none, some, List, ◌==◌, string_eq, option_eq, all,
  is_empty, Result, ok, err, raise_if, ◌>>=◌, ◌>>◌,
}
use astrbot_community_plugin.Prelude.Dict.{get}
use astrbot_community_plugin.Prelude.Text.{sorted_set}
use astrbot_community_plugin.Json.{Object}
use astrbot_community_plugin.Lifecycle.Types.{
  ReviewStatus, review_status_eq, review_status_value, RiskLevel, RunStatus, run_status_eq, JobType,
  job_type_eq, DecisionAction, DecisionSource,
}
use astrbot_community_plugin.Lifecycle.{ArtifactError, value_error, state_error}
use astrbot_community_plugin.Repository.Rows.{Artifact, Run, Job, Decision, Policy, Repository}
use astrbot_community_plugin.Repository.{
  policy_key, get_artifact, get_plugin, resolved_policy_snapshot,
}
use astrbot_community_plugin.Repository.Jobs.{job_with_key}
use astrbot_community_plugin.Repository.Decisions.{run_key, Outcome, decision_with_key}
use astrbot_community_plugin.Repository.Decisions.Approvals.{
  repo_version_of, publish_key, publish_job, approval_replayed, write_approval,
}

-- The arguments of `auto_approve_artifact`.
pub record AutoApproval : Type 0 where
  pub reason : String
  pub expected_repo_version : String
  pub expected_normalized_version : String
  pub expected_version : String
  pub idempotency_key : String
  pub policy_version_id : String
  pub input_run_ids : List String
  pub input_fingerprints : List String
  pub coverage_sha256 : String
  pub metadata : Object
  pub risk_level : RiskLevel

-- A run that the approval may rest on; a missing run is not one.
unfoldable pub is_matching : String → Option String → Option Run → Bool
is_matching artifact_id policy none = false
is_matching artifact_id policy (some run) =
    run.artifact_id == artifact_id
    && run.policy_version_id == policy
    && run.status == RunStatus.succeeded

unfoldable pub matching_run : String → Option String → List Run → String → Bool
unfolding is_matching
matching_run artifact_id policy runs run_id =
    is_matching artifact_id policy (get run_key run_id runs)

-- A publish job that holds the key is one of the same artifact and policy.
unfoldable pub publish_conflict : String → Option String → Option Job → Bool
publish_conflict artifact_id policy none = false
publish_conflict artifact_id policy (some job) = not (
    job.artifact_id == some artifact_id
    && job.type == JobType.publish
    && job.policy_version_id == policy)

-- The policy row, which has to be there.
unfoldable pub policy_row : Option String → Repository → Result ArtifactError Policy
policy_row none r = err (value_error "review_policy_invalid")
policy_row (some id) r = elim (get policy_key id r.policies) [
  | none ↦ err (value_error "review_policy_invalid")
  | some policy ↦ ok policy
]

unfoldable pub automatic_decision :
    ℕ → String → AutoApproval → Artifact → Policy → Option String → Decision
unfolding review_status_value
automatic_decision now fresh q a policy policy_id = record {
  id = fresh;
  artifact_id = a.id;
  action = DecisionAction.auto_approve;
  from_status = review_status_value a.review_status;
  to_status = review_status_value ReviewStatus.approved;
  reason = q.reason;
  reviewer_user_id = none;
  reviewer_nickname = "自动策略";
  policy_version = policy.version;
  policy_version_id = policy_id;
  source = DecisionSource.policy;
  input_run_ids = sorted_set q.input_run_ids;
  input_fingerprints = sorted_set q.input_fingerprints;
  coverage_sha256 = q.coverage_sha256;
  metadata = q.metadata;
  idempotency_key = q.idempotency_key;
  created_at = now;
}

unfoldable pub auto_found :
    ℕ → String → String → AutoApproval → Repository → Option Artifact → Outcome
unfolding matching_run policy_row publish_conflict automatic_decision publish_job write_approval
    review_status_value
auto_found now fresh fresh_job q r none = ok (none, r)
auto_found now fresh fresh_job q r (some a) = do
  raise_if (not (a.review_status == ReviewStatus.scanning))
      (state_error "artifact_already_decided" (review_status_value a.review_status) "approved")
  policy_id ← resolved_policy_snapshot a.policy_version_id (some q.policy_version_id)
  policy ← policy_row policy_id r
  raise_if (not (repo_version_of (get_plugin a.plugin_id r) == q.expected_repo_version))
      (value_error "repo_version_changed")
  raise_if (not (a.normalized_version == q.expected_normalized_version))
      (value_error "artifact_version_changed")
  raise_if (not (a.version == q.expected_version)) (value_error "artifact_version_changed")
  raise_if (not (all (matching_run a.id policy_id r.runs) (sorted_set q.input_run_ids)))
      (value_error "required_review_runs_invalid")
  raise_if (publish_conflict a.id policy_id (job_with_key (publish_key a.id) r.jobs))
      (value_error "idempotency_key_conflict")
  ok (
      write_approval now
        (record a {
          review_status = ReviewStatus.approved;
          risk_level = q.risk_level;
          reviewed_at = some now;
          updated_at = now;
        })
        (automatic_decision now fresh q a policy policy_id)
        (publish_job now fresh_job a (get_plugin a.plugin_id r) q.expected_repo_version policy_id
          "")
        r)

unfoldable pub auto_keyed :
    ℕ → String → String → String → AutoApproval → Repository → Option Decision → Outcome
unfolding approval_replayed auto_found
auto_keyed now fresh fresh_job artifact_id q r (some d) = approval_replayed artifact_id r d
auto_keyed now fresh fresh_job artifact_id q r none =
    auto_found now fresh fresh_job q r (get_artifact artifact_id r)

unfoldable pub auto_approve_artifact :
    ℕ → String → String → String → AutoApproval → Repository → Outcome
unfolding auto_keyed
auto_approve_artifact now fresh fresh_job artifact_id q r = do
  raise_if (is_empty q.input_run_ids) (value_error "required_review_runs_missing")
  auto_keyed now fresh fresh_job artifact_id q r (decision_with_key q.idempotency_key r.decisions)
