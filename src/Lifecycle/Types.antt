-- ===== src/Lifecycle/Types.antt =====
-- The enumerations of apps/api/app/artifacts/models.py. A `StrEnum` member is a constructor, and
-- `value` gives its text where the program stores or reports it (`OPEN` is spelled `opened`).
use astrbot_community_plugin.Prelude.{String, Eq, discrete_eq}

pub data ReviewStatus : Type 0 where
  quarantined prechecking scanning pending_review changes_requested approved : ReviewStatus
  rejected withdrawn processing_failed : ReviewStatus

pub data PublicationStatus : Type 0 where
  unpublished publishing published publish_failed revoking revoked : PublicationStatus
  revoke_failed : PublicationStatus

pub data RiskLevel : Type 0 where
  none low medium high critical : RiskLevel

pub data RunType : Type 0 where
  precheck static diff import_graph runtime category clamav yara dependency : RunType
  llm_package llm_file llm_summary routing : RunType

pub data RunStatus : Type 0 where
  queued running succeeded failed timed_out cancelled : RunStatus

pub data JobType : Type 0 where
  precheck static_scan publish revoke outbox cleanup_orphan diff_graph clamav_scan : JobType
  yara_scan runtime_dispatch runtime_collect dependency_scan category llm_package : JobType
  llm_file llm_summary route_review : JobType

pub data JobStatus : Type 0 where
  queued running succeeded failed cancelled : JobStatus

pub data DecisionAction : Type 0 where
  auto_reject auto_approve approve reject request_changes retry_publish revoke : DecisionAction
  emergency_override policy_migrate : DecisionAction

pub data FindingSeverity : Type 0 where
  info low medium high critical : FindingSeverity

pub data FindingStatus : Type 0 where
  opened accepted resolved false_positive : FindingStatus

pub data DecisionSource : Type 0 where
  admin system policy : DecisionSource

unfoldable pub ReviewStatus-discrete : Discrete ReviewStatus
ReviewStatus-discrete = hlevel

instance abbrev pub review_status_eq : Eq ReviewStatus
review_status_eq = discrete_eq ReviewStatus-discrete

unfoldable pub PublicationStatus-discrete : Discrete PublicationStatus
PublicationStatus-discrete = hlevel

instance abbrev pub publication_status_eq : Eq PublicationStatus
publication_status_eq = discrete_eq PublicationStatus-discrete

unfoldable pub RiskLevel-discrete : Discrete RiskLevel
RiskLevel-discrete = hlevel

instance abbrev pub risk_level_eq : Eq RiskLevel
risk_level_eq = discrete_eq RiskLevel-discrete

unfoldable pub RunType-discrete : Discrete RunType
RunType-discrete = hlevel

instance abbrev pub run_type_eq : Eq RunType
run_type_eq = discrete_eq RunType-discrete

unfoldable pub RunStatus-discrete : Discrete RunStatus
RunStatus-discrete = hlevel

instance abbrev pub run_status_eq : Eq RunStatus
run_status_eq = discrete_eq RunStatus-discrete

unfoldable pub JobType-discrete : Discrete JobType
JobType-discrete = hlevel

instance abbrev pub job_type_eq : Eq JobType
job_type_eq = discrete_eq JobType-discrete

unfoldable pub JobStatus-discrete : Discrete JobStatus
JobStatus-discrete = hlevel

instance abbrev pub job_status_eq : Eq JobStatus
job_status_eq = discrete_eq JobStatus-discrete

unfoldable pub DecisionAction-discrete : Discrete DecisionAction
DecisionAction-discrete = hlevel

instance abbrev pub decision_action_eq : Eq DecisionAction
decision_action_eq = discrete_eq DecisionAction-discrete

unfoldable pub FindingSeverity-discrete : Discrete FindingSeverity
FindingSeverity-discrete = hlevel

instance abbrev pub finding_severity_eq : Eq FindingSeverity
finding_severity_eq = discrete_eq FindingSeverity-discrete

unfoldable pub FindingStatus-discrete : Discrete FindingStatus
FindingStatus-discrete = hlevel

instance abbrev pub finding_status_eq : Eq FindingStatus
finding_status_eq = discrete_eq FindingStatus-discrete

unfoldable pub DecisionSource-discrete : Discrete DecisionSource
DecisionSource-discrete = hlevel

instance abbrev pub decision_source_eq : Eq DecisionSource
decision_source_eq = discrete_eq DecisionSource-discrete

unfoldable pub review_status_value : ReviewStatus → String
review_status_value ReviewStatus.quarantined = "quarantined"
review_status_value ReviewStatus.prechecking = "prechecking"
review_status_value ReviewStatus.scanning = "scanning"
review_status_value ReviewStatus.pending_review = "pending_review"
review_status_value ReviewStatus.changes_requested = "changes_requested"
review_status_value ReviewStatus.approved = "approved"
review_status_value ReviewStatus.rejected = "rejected"
review_status_value ReviewStatus.withdrawn = "withdrawn"
review_status_value ReviewStatus.processing_failed = "processing_failed"

unfoldable pub publication_status_value : PublicationStatus → String
publication_status_value PublicationStatus.unpublished = "unpublished"
publication_status_value PublicationStatus.publishing = "publishing"
publication_status_value PublicationStatus.published = "published"
publication_status_value PublicationStatus.publish_failed = "publish_failed"
publication_status_value PublicationStatus.revoking = "revoking"
publication_status_value PublicationStatus.revoked = "revoked"
publication_status_value PublicationStatus.revoke_failed = "revoke_failed"

unfoldable pub run_type_value : RunType → String
run_type_value RunType.precheck = "precheck"
run_type_value RunType.static = "static"
run_type_value RunType.diff = "diff"
run_type_value RunType.import_graph = "import_graph"
run_type_value RunType.runtime = "runtime"
run_type_value RunType.category = "category"
run_type_value RunType.clamav = "clamav"
run_type_value RunType.yara = "yara"
run_type_value RunType.dependency = "dependency"
run_type_value RunType.llm_package = "llm_package"
run_type_value RunType.llm_file = "llm_file"
run_type_value RunType.llm_summary = "llm_summary"
run_type_value RunType.routing = "routing"
