-- ===== src/Repository/Rows.antt =====
-- The rows that repository.py keeps in its dictionaries. A column that may be `None` is an `Option`,
-- a time stamp is its instant, and a JSON column is an `Object`.
use astrbot_community_plugin.Prelude.{Eq, discrete_eq, ℕ, String, Bool, Option, List}
use astrbot_community_plugin.Json.{Object}
use astrbot_community_plugin.Lifecycle.Types.{
  ReviewStatus, PublicationStatus, RiskLevel, RunType, RunStatus, JobType, JobStatus,
  DecisionAction, DecisionSource,
}

pub record Artifact : Type 0 where
  pub id : String
  pub plugin_id : String
  pub version : String
  pub normalized_version : String
  pub source_type : String
  pub source_repo : String
  pub source_ref : String
  pub source_commit_sha : String
  pub archive_sha256 : String
  pub tree_sha256 : String
  pub size_bytes : ℕ
  pub quarantine_key : String
  pub published_key : Option String
  pub path_suffix : String
  pub download_url : Option String
  pub review_status : ReviewStatus
  pub publication_status : PublicationStatus
  pub risk_level : RiskLevel
  pub base_artifact_id : Option String
  pub supersedes_artifact_id : Option String
  pub policy_version_id : Option String
  pub review_coverage : Object
  pub automated_review_completed_at : Option ℕ
  pub submitted_by : Option String
  pub submitted_by_snapshot : Object
  pub suggested_category : String
  pub category_confidence : Option ℕ
  pub category_reason : String
  pub rejection_code : String
  pub created_at : ℕ
  pub updated_at : ℕ
  pub reviewed_at : Option ℕ
  pub published_at : Option ℕ
  pub revoked_at : Option ℕ

pub record Run : Type 0 where
  pub id : String
  pub artifact_id : String
  pub type : RunType
  pub status : RunStatus
  pub attempt : ℕ
  pub ruleset_version : String
  pub model : String
  pub summary : String
  pub raw_result : Object
  pub raw_result_key : Option String
  pub error_code : String
  pub tool_name : String
  pub tool_version : String
  pub policy_version_id : Option String
  pub input_sha256 : String
  pub output_sha256 : String
  pub coverage : Object
  pub prompt_version : String
  pub result_schema_version : String
  pub container_image_digest : String
  pub astrbot_version : String
  pub python_version : String
  pub platform : String
  pub dependency_snapshot_sha256 : String
  pub worker_id : String
  pub idempotency_key : Option String
  pub queued_at : ℕ
  pub started_at : Option ℕ
  pub completed_at : Option ℕ
  pub created_at : ℕ
  pub superseded_at : Option ℕ

pub record Job : Type 0 where
  pub id : String
  pub artifact_id : Option String
  pub type : JobType
  pub status : JobStatus
  pub payload : Object
  pub attempts : ℕ
  pub max_attempts : ℕ
  pub available_at : ℕ
  pub lease_owner : Option String
  pub lease_expires_at : Option ℕ
  pub idempotency_key : String
  pub policy_version_id : Option String
  pub run_id : Option String
  pub stage_name : String
  pub last_error_code : String
  pub last_error : String
  pub created_at : ℕ
  pub updated_at : ℕ
  pub completed_at : Option ℕ
  pub superseded_at : Option ℕ

pub record Decision : Type 0 where
  pub id : String
  pub artifact_id : String
  pub action : DecisionAction
  pub from_status : String
  pub to_status : String
  pub reason : String
  pub reviewer_user_id : Option String
  pub reviewer_nickname : String
  pub policy_version : String
  pub policy_version_id : Option String
  pub source : DecisionSource
  pub input_run_ids : List String
  pub input_fingerprints : List String
  pub coverage_sha256 : String
  pub metadata : Object
  pub idempotency_key : String
  pub created_at : ℕ

pub data OutboxStatus : Type 0 where
  queued running delivered failed cancelled : OutboxStatus

unfoldable pub OutboxStatus-discrete : Discrete OutboxStatus
OutboxStatus-discrete = hlevel

instance abbrev pub outbox_status_eq : Eq OutboxStatus
outbox_status_eq = discrete_eq OutboxStatus-discrete

pub record OutboxEvent : Type 0 where
  pub id : String
  pub event_type : String
  pub aggregate_type : String
  pub aggregate_id : String
  pub recipient_user_id : Option String
  pub payload : Object
  pub dedupe_key : String
  pub status : OutboxStatus
  pub attempts : ℕ
  pub available_at : ℕ
  pub lease_owner : Option String
  pub lease_expires_at : Option ℕ
  pub delivered_at : Option ℕ
  pub last_error : String
  pub created_at : ℕ
  pub updated_at : ℕ

-- The columns of a review comment that a decision reads and writes.
pub record Thread : Type 0 where
  pub id : String
  pub artifact_id : String
  pub locked_at : Option ℕ
  pub updated_at : ℕ

-- The columns of a policy row that a decision reads.
pub record Policy : Type 0 where
  pub id : String
  pub version : String

-- The columns of a plugin of the market store that the artifact repository reads and writes.
pub record Plugin : Type 0 where
  pub id : String
  pub owner_user_id : Option String
  pub repo : String
  pub repo_version : String
  pub current_artifact_id : Option String
  pub status : String
  pub cdn_enabled : Bool
  pub cdn_generation : ℕ

-- The user who decides.
pub record Reviewer : Type 0 where
  pub id : Option String
  pub github_name : String
  pub github_login : String
  pub internal_username : String

pub record Repository : Type 0 where
  pub artifacts : List Artifact
  pub runs : List Run
  pub jobs : List Job
  pub decisions : List Decision
  pub outbox : List OutboxEvent
  pub policies : List Policy
  pub threads : List Thread
  pub plugins : List Plugin
