-- ===== src/Tests/Data.antt =====
-- Rows for the tests: a submission with its scan, plugin, policy, reviewer and jobs.
use astrbot_community_plugin.Prelude.{ℕ, String, true, Option, none, some, [], ◌∷◌}
use astrbot_community_plugin.Json.{text, empty, field}
use astrbot_community_plugin.Lifecycle.Types.{
  ReviewStatus, PublicationStatus, RiskLevel, RunType, RunStatus, JobType, JobStatus,
  FindingSeverity, FindingStatus,
}
use astrbot_community_plugin.Policy.{Stage, ToolFailureAction, ReviewPolicy}
use astrbot_community_plugin.Repository.Rows.{
  Artifact, Run, Job, OutboxStatus, OutboxEvent, Plugin, Reviewer, Repository,
}
use astrbot_community_plugin.Repository.Decisions.Approvals.{Approval}
use astrbot_community_plugin.Repository.Decisions.Automatic.{AutoApproval}
use astrbot_community_plugin.Routing.{Finding}

abbrev pub submission : ReviewStatus → Artifact
submission status = record {
  id = "a1";
  plugin_id = "weather";
  version = "1.0";
  normalized_version = "1.0";
  source_type = "github";
  source_repo = "";
  source_ref = "";
  source_commit_sha = "";
  archive_sha256 = "";
  tree_sha256 = "";
  size_bytes = 10;
  quarantine_key = "";
  published_key = none;
  path_suffix = "";
  download_url = none;
  review_status = status;
  publication_status = PublicationStatus.unpublished;
  risk_level = RiskLevel.none;
  base_artifact_id = none;
  supersedes_artifact_id = none;
  policy_version_id = some "p1";
  review_coverage = empty;
  automated_review_completed_at = none;
  submitted_by = some "author";
  submitted_by_snapshot = empty;
  suggested_category = "";
  category_confidence = none;
  category_reason = "";
  rejection_code = "";
  created_at = 1;
  updated_at = 1;
  reviewed_at = none;
  published_at = none;
  revoked_at = none;
}

abbrev pub scan : String → RunType → Run
scan id type = record {
  id = id;
  artifact_id = "a1";
  type = type;
  status = RunStatus.succeeded;
  attempt = 1;
  ruleset_version = "";
  model = "";
  summary = "";
  raw_result = empty;
  raw_result_key = none;
  error_code = "";
  tool_name = "";
  tool_version = "";
  policy_version_id = some "p1";
  input_sha256 = "";
  output_sha256 = "";
  coverage = field "outcome" (text "completed") empty;
  prompt_version = "";
  result_schema_version = "";
  container_image_digest = "";
  astrbot_version = "";
  python_version = "";
  platform = "";
  dependency_snapshot_sha256 = "";
  worker_id = "";
  idempotency_key = none;
  queued_at = 2;
  started_at = some 2;
  completed_at = some 3;
  created_at = 2;
  superseded_at = none;
}

abbrev pub weather : Plugin
weather = record {
  id = "weather";
  owner_user_id = some "author";
  repo = "";
  repo_version = "1.0";
  current_artifact_id = none;
  status = "listed";
  cdn_enabled = true;
  cdn_generation = 0;
}

abbrev pub repository : ReviewStatus → Repository
repository status = record {
  artifacts = submission status ∷ [];
  runs = scan "r1" RunType.precheck ∷ scan "r2" RunType.static ∷ [];
  jobs = [];
  decisions = [];
  outbox = [];
  policies = record { id = "p1"; version = "2026.1" } ∷ [];
  threads = record { id = "t1"; artifact_id = "a1"; locked_at = none; updated_at = 2 } ∷ [];
  plugins = weather ∷ [];
}

abbrev pub admin : Reviewer
admin = record {
  id = some "admin";
  github_name = "";
  github_login = "admin";
  internal_username = "";
}

abbrev pub approval : Approval
approval = record {
  reviewer = admin;
  reason = "";
  expected_repo_version = "1.0";
  expected_normalized_version = "1.0";
  idempotency_key = "k1";
}

abbrev pub auto_approval : AutoApproval
auto_approval = record {
  reason = "";
  expected_repo_version = "1.0";
  expected_normalized_version = "1.0";
  expected_version = "1.0";
  idempotency_key = "k1";
  policy_version_id = "p1";
  input_run_ids = "r2" ∷ [];
  input_fingerprints = [];
  coverage_sha256 = "";
  metadata = empty;
  risk_level = RiskLevel.low;
}

abbrev pub policy : ReviewPolicy
policy = record {
  required_stages = Stage.static ∷ [];
  runtime_targets = [];
  routing = record {
    auto_approve = true;
    manual_review_at = FindingSeverity.medium;
    deterministic_reject_at = FindingSeverity.high;
    degraded_action = ToolFailureAction.fail_closed;
  };
}

abbrev pub finding : FindingSeverity → Finding
finding severity = record {
  fingerprint = "f1";
  run_id = "r2";
  severity = severity;
  deterministic = true;
  status = FindingStatus.opened;
}

abbrev pub scan_job : JobStatus → ℕ → Option String → Option ℕ → Job
scan_job status attempts owner expires = record {
  id = "j1";
  artifact_id = none;
  type = JobType.cleanup_orphan;
  status = status;
  payload = empty;
  attempts = attempts;
  max_attempts = 3;
  available_at = 5;
  lease_owner = owner;
  lease_expires_at = expires;
  idempotency_key = "clean";
  policy_version_id = none;
  run_id = none;
  stage_name = "";
  last_error_code = "";
  last_error = "";
  created_at = 5;
  updated_at = 5;
  completed_at = none;
  superseded_at = none;
}

abbrev pub notice : OutboxStatus → OutboxEvent
notice status = record {
  id = "e1";
  event_type = "approved";
  aggregate_type = "artifact";
  aggregate_id = "a1";
  recipient_user_id = some "author";
  payload = empty;
  dedupe_key = "d1";
  status = status;
  attempts = 1;
  available_at = 5;
  lease_owner = none;
  lease_expires_at = none;
  delivered_at = none;
  last_error = "";
  created_at = 5;
  updated_at = 5;
}
