-- ===== src/Lifecycle.antt =====
-- apps/api/app/artifacts/models.py: the review and publication transition tables, the ranking of
-- risks and the target of a decision.
pub mod Types
pub mod Reviews
pub mod Publications
pub mod Risks
use astrbot_community_plugin.Prelude.{
  ℕ, ◌+◌, String, Bool, true, false, Option, none, some, List, [], ◌∷◌, ◌==◌, leb, member,
  if◌then◌else◌, Result, ok, err,
}
use Types.{
  ReviewStatus, review_status_eq, review_status_value, PublicationStatus, publication_status_eq,
  publication_status_value, RiskLevel, DecisionAction, FindingSeverity,
}

-- `ValueError(code)`, `ArtifactStateError(code, current, target)` and `CdnPublicationError`.
pub data ArtifactError : Type 0 where
  value_error : String → ArtifactError
  state_error : String → String → String → ArtifactError
  cdn_error : ArtifactError

unfoldable pub review_transitions : ReviewStatus → List ReviewStatus
review_transitions ReviewStatus.quarantined =
    ReviewStatus.prechecking ∷ ReviewStatus.rejected ∷ ReviewStatus.withdrawn ∷ []
review_transitions ReviewStatus.prechecking =
    ReviewStatus.scanning ∷ ReviewStatus.rejected ∷ ReviewStatus.processing_failed ∷ []
review_transitions ReviewStatus.scanning =
    ReviewStatus.pending_review ∷ ReviewStatus.approved ∷ ReviewStatus.rejected
    ∷ ReviewStatus.processing_failed ∷ []
review_transitions ReviewStatus.pending_review =
    ReviewStatus.changes_requested ∷ ReviewStatus.approved ∷ ReviewStatus.rejected
    ∷ ReviewStatus.withdrawn ∷ []
review_transitions ReviewStatus.changes_requested = []
review_transitions ReviewStatus.approved = []
review_transitions ReviewStatus.rejected = []
review_transitions ReviewStatus.withdrawn = []
review_transitions ReviewStatus.processing_failed =
    ReviewStatus.prechecking ∷ ReviewStatus.scanning ∷ ReviewStatus.rejected
    ∷ ReviewStatus.withdrawn ∷ []

unfoldable pub publication_transitions : PublicationStatus → List PublicationStatus
publication_transitions PublicationStatus.unpublished = PublicationStatus.publishing ∷ []
publication_transitions PublicationStatus.publishing =
    PublicationStatus.published ∷ PublicationStatus.publish_failed ∷ []
publication_transitions PublicationStatus.published = PublicationStatus.revoking ∷ []
publication_transitions PublicationStatus.publish_failed = PublicationStatus.publishing ∷ []
publication_transitions PublicationStatus.revoking =
    PublicationStatus.revoked ∷ PublicationStatus.revoke_failed ∷ []
publication_transitions PublicationStatus.revoked = []
publication_transitions PublicationStatus.revoke_failed = PublicationStatus.revoking ∷ []

unfoldable pub severity_order : FindingSeverity → ℕ
severity_order FindingSeverity.info = 0
severity_order FindingSeverity.low = 1
severity_order FindingSeverity.medium = 2
severity_order FindingSeverity.high = 3
severity_order FindingSeverity.critical = 4

unfoldable pub terminal_review_statuses : List ReviewStatus
terminal_review_statuses =
    ReviewStatus.changes_requested ∷ ReviewStatus.approved ∷ ReviewStatus.rejected
    ∷ ReviewStatus.withdrawn ∷ []

-- `DECISION_REVIEW_TARGETS.get(action)`
unfoldable pub review_target_for_decision : DecisionAction → Option ReviewStatus
review_target_for_decision DecisionAction.auto_reject = some ReviewStatus.rejected
review_target_for_decision DecisionAction.auto_approve = some ReviewStatus.approved
review_target_for_decision DecisionAction.approve = some ReviewStatus.approved
review_target_for_decision DecisionAction.reject = some ReviewStatus.rejected
review_target_for_decision DecisionAction.request_changes = some ReviewStatus.changes_requested
review_target_for_decision _ = none

unfoldable pub validate_review_transition :
    ReviewStatus → ReviewStatus → Result ArtifactError (Unit {0})
unfolding review_transitions review_status_value
validate_review_transition current target =
    if current == target
    then ok tt
    else if member target (review_transitions current)
    then ok tt
    else err (
        state_error "invalid_review_transition" (review_status_value current)
          (review_status_value target))

unfoldable pub validate_publication_transition :
    PublicationStatus → PublicationStatus → Result ArtifactError (Unit {0})
unfolding publication_transitions publication_status_value
validate_publication_transition current target =
    if current == target
    then ok tt
    else if member target (publication_transitions current)
    then ok tt
    else err (
        state_error "invalid_publication_transition" (publication_status_value current)
          (publication_status_value target))

-- `risk_rank` at a `FindingSeverity` or at its text.
unfoldable pub risk_rank : FindingSeverity → ℕ
unfolding severity_order
risk_rank severity = severity_order severity + 1

-- `risk_rank` at a `RiskLevel`.
unfoldable pub risk_rank_level : RiskLevel → ℕ
unfolding severity_order
risk_rank_level RiskLevel.none = 0
risk_rank_level RiskLevel.low = severity_order FindingSeverity.low + 1
risk_rank_level RiskLevel.medium = severity_order FindingSeverity.medium + 1
risk_rank_level RiskLevel.high = severity_order FindingSeverity.high + 1
risk_rank_level RiskLevel.critical = severity_order FindingSeverity.critical + 1

-- `RiskLevel(severity.value)`, with `info` reported as `none`
unfoldable pub risk_of_severity : FindingSeverity → RiskLevel
risk_of_severity FindingSeverity.info = RiskLevel.none
risk_of_severity FindingSeverity.low = RiskLevel.low
risk_of_severity FindingSeverity.medium = RiskLevel.medium
risk_of_severity FindingSeverity.high = RiskLevel.high
risk_of_severity FindingSeverity.critical = RiskLevel.critical

-- `max(values, key=...)`: the first of the greatest.
unfoldable pub max_severity : FindingSeverity → List FindingSeverity → FindingSeverity
unfolding severity_order
max_severity best [] = best
max_severity best (v ∷ vs) =
    max_severity (if leb (severity_order v) (severity_order best) then best else v) vs

unfoldable pub highest_risk : List FindingSeverity → RiskLevel
unfolding max_severity risk_of_severity
highest_risk [] = RiskLevel.none
highest_risk (v ∷ vs) = risk_of_severity (max_severity v vs)
