-- ===== src/Tests/Lifecycles.antt =====
-- The lifecycles at concrete statuses.
use astrbot_community_plugin.Prelude.{
  ◌≡◌, ◌≢◌, refl, ◌↔◌, ◌⊎◌, inr, true, List, [], ◌∷◌, In, member, all, leb, ◌==◌,
}
use astrbot_community_plugin.Lifecycle.Types.{
  ReviewStatus, ReviewStatus-discrete, review_status_eq, PublicationStatus,
  PublicationStatus-discrete, DecisionAction, FindingSeverity, finding_severity_eq, RiskLevel,
}
use astrbot_community_plugin.Lifecycle.{
  terminal_review_statuses, review_target_for_decision, validate_review_transition,
  validate_publication_transition, risk_rank, risk_rank_level, severity_order, highest_risk,
}
use astrbot_community_plugin.Lifecycle.Reviews
use astrbot_community_plugin.Lifecycle.Publications
use astrbot_community_plugin.Lifecycle.Risks.{highest_risk_bounds}

abbrev review_path : List ReviewStatus
review_path =
    ReviewStatus.quarantined ∷ ReviewStatus.prechecking ∷ ReviewStatus.scanning
    ∷ ReviewStatus.approved ∷ []

approval_needs_scan_example :
    In ReviewStatus.prechecking review_path × In ReviewStatus.scanning review_path
unfolding validate_review_transition ReviewStatus-discrete
approval_needs_scan_example = Reviews.approval_needs_scan review_path (
    Reviews.change refl
      (Reviews.change refl (Reviews.change refl (Reviews.start ReviewStatus.approved))))

terminal_iff_absorbing_example :
    (member ReviewStatus.approved terminal_review_statuses ≡ true)
    ↔ ((t : ReviewStatus) → Reviews.Allowed ReviewStatus.approved t → t ≡ ReviewStatus.approved)
terminal_iff_absorbing_example = Reviews.terminal_iff_absorbing ReviewStatus.approved

decision_target_terminal_example :
    (member ReviewStatus.rejected terminal_review_statuses ≡ true)
    × Reviews.Allowed ReviewStatus.pending_review ReviewStatus.rejected
unfolding review_target_for_decision
decision_target_terminal_example =
    Reviews.decision_target_terminal DecisionAction.reject ReviewStatus.rejected refl

abbrev publication_path : List PublicationStatus
publication_path =
    PublicationStatus.unpublished ∷ PublicationStatus.publishing ∷ PublicationStatus.published
    ∷ PublicationStatus.revoking ∷ []

revocation_needs_release_example : In PublicationStatus.published publication_path
unfolding validate_publication_transition PublicationStatus-discrete
revocation_needs_release_example =
    Publications.revocation_needs_release publication_path (inr refl) (
      Publications.change refl (
        Publications.change refl
          (Publications.change refl (Publications.start PublicationStatus.revoking))))

revocation_final_example : Publications.withdrawing PublicationStatus.revoked ≡ true
unfolding validate_publication_transition PublicationStatus-discrete
revocation_final_example =
    Publications.revocation_final {s = PublicationStatus.revoking} refl
      (Publications.change refl (Publications.start PublicationStatus.revoked))

abbrev severities : List FindingSeverity
severities = FindingSeverity.low ∷ FindingSeverity.high ∷ []

highest_risk_bounds_example :
    ((highest_risk severities ≡ RiskLevel.none)
      × (all (λ v. v == FindingSeverity.info) severities ≡ true))
    ⊎ ((w : FindingSeverity) × In w severities
        × (w ≢ FindingSeverity.info)
        × (risk_rank_level (highest_risk severities) ≡ risk_rank w)
        × (all (λ v. leb (severity_order v) (severity_order w)) severities ≡ true))
highest_risk_bounds_example = highest_risk_bounds severities
