-- ===== src/Tests/Verdicts.antt =====
-- The evaluation of a submission with one scan.
use astrbot_community_plugin.Prelude.{
  ◌≤◌, ◌<◌, String, ◌≡◌, refl, ◌↔◌, inl, Option, some, List, [], ◌∷◌, arith,
}
use astrbot_community_plugin.Prelude.Sorting.{sort}
use astrbot_community_plugin.Lifecycle.Types.{
  ReviewStatus, RunType, RunType-discrete, RunStatus-discrete, FindingSeverity,
  FindingStatus-discrete,
}
use astrbot_community_plugin.Lifecycle.{severity_order, risk_rank}
use astrbot_community_plugin.Policy.{validate_thresholds}
use astrbot_community_plugin.Repository.Rows.{Run}
use astrbot_community_plugin.Routing.{
  Finding, RouteKind, Audit, Evaluation, evaluate, is_open, drop_v,
}
use astrbot_community_plugin.Routing.Evaluations.{
  outcome, IsApproved, auto_approve_iff, approved_below_medium, blocker_rejects, verdict_monotone,
  strictness,
}
use astrbot_community_plugin.Tests.Data.{submission, scan, policy, finding}

abbrev canonical : String → Option String
canonical version = some version

abbrev digest : Audit → String
digest audit = "digest"

abbrev runs : List Run
runs = scan "r2" RunType.static ∷ []

abbrev verdict_on : List Finding → Evaluation
verdict_on findings =
    outcome canonical digest (submission ReviewStatus.scanning) "1.0" policy runs findings

auto_approve_iff_example :
    ((verdict_on []).route ≡ RouteKind.auto_approve)
    ↔ IsApproved canonical digest (submission ReviewStatus.scanning) "1.0" policy runs []
unfolding evaluate
auto_approve_iff_example =
    auto_approve_iff canonical digest (submission ReviewStatus.scanning) "1.0" policy runs [] refl

approved_below_medium_example :
    severity_order FindingSeverity.low < severity_order FindingSeverity.medium
unfolding evaluate validate_thresholds is_open RunType-discrete RunStatus-discrete
    FindingStatus-discrete sort risk_rank drop_v
approved_below_medium_example =
    approved_below_medium canonical digest (submission ReviewStatus.scanning) "1.0" policy runs
      (finding FindingSeverity.low ∷ []) (finding FindingSeverity.low) refl refl refl (inl refl)
      refl

blocker_rejects_example :
    (verdict_on (finding FindingSeverity.high ∷ [])).route ≡ RouteKind.auto_reject
unfolding evaluate is_open severity_order FindingStatus-discrete
blocker_rejects_example =
    blocker_rejects canonical digest (submission ReviewStatus.scanning) "1.0" policy runs
      (finding FindingSeverity.high ∷ []) (finding FindingSeverity.high) refl (inl refl) refl refl
      (omega arith)

verdict_monotone_example :
    strictness (verdict_on []).route
    ≤ strictness (verdict_on (finding FindingSeverity.high ∷ [])).route
unfolding evaluate
verdict_monotone_example =
    verdict_monotone canonical digest (submission ReviewStatus.scanning) "1.0" policy runs []
      (finding FindingSeverity.high ∷ []) refl refl (λ f m. absurd m)
