-- ===== src/Routing/Branches.antt =====
-- The gates of the routing and the route: the lists on which evaluate of
-- apps/api/app/artifacts/routing_evaluator.py branches, and its branches.
use astrbot_community_plugin.Prelude.{
  String, Bool, true, false, not, ◌&&◌, ◌||◌, List, [], ◌∷◌, map, ◌==◌, nat_eq, string_eq,
  option_eq, leb, ltb, member, any, filter, is_empty, if◌then◌else◌,
}
use astrbot_community_plugin.Prelude.Text.{text_le}
use astrbot_community_plugin.Lifecycle.Types.{
  ReviewStatus, RiskLevel, run_type_eq, RunStatus, run_status_eq, finding_status_eq,
}
use astrbot_community_plugin.Lifecycle.{risk_rank, highest_risk}
use astrbot_community_plugin.Policy.{stage_eq, ToolFailureAction, RoutingPolicy}
use astrbot_community_plugin.Routing.Units.{Finding, UnitResult, is_deterministic_gate}

pub data RouteKind : Type 0 where
  auto_reject manual_review auto_approve : RouteKind

-- `item in degraded` and `item in blocked` for a unit of the list: the value decides.
unfoldable pub is_degraded : UnitResult → Bool
is_degraded u =
    not (u.status == RunStatus.succeeded)
    || member u.outcome ("degraded" ∷ "failed" ∷ "skipped" ∷ [])

unfoldable pub is_blocked : UnitResult → Bool
is_blocked u = u.outcome == "blocked"

unfoldable pub is_incomplete : UnitResult → Bool
unfolding is_degraded is_blocked
is_incomplete u = not u.complete && not (is_degraded u) && not (is_blocked u)

-- `_highest_finding_risk`; `max` of no severities is `info`, which is reported as `none`.
unfoldable pub highest_finding_risk : List Finding → RiskLevel
highest_finding_risk findings = highest_risk (map (λ f. f.severity) findings)

-- The order of `open_findings.sort`: severest first, then by fingerprint.
unfoldable pub finding_le : Finding → Finding → Bool
finding_le a b =
    ltb (risk_rank b.severity) (risk_rank a.severity)
    || risk_rank a.severity == risk_rank b.severity && text_le a.fingerprint b.fingerprint

-- What the routing branches on.
pub record Gates : Type 0 where
  pub missing : Bool
  pub degraded : Bool
  pub deterministic_degraded : Bool
  pub advisory_degraded : Bool
  pub deterministic_blocked : Bool
  pub advisory_blocked : Bool
  pub incomplete : Bool
  pub version_match : Bool
  pub deterministic_blockers : Bool
  pub manual_findings : Bool

-- `_reasons`: the texts that are not empty.
unfoldable pub reasons_of : List String → List String
reasons_of = filter (λ r. not (r == ""))

abbrev pub when : Bool → String → String
when test reason = if test then reason else ""

-- `degraded_action is ToolFailureAction.FAIL_CLOSED`
abbrev pub fails_closed : ToolFailureAction → Bool
fails_closed ToolFailureAction.fail_closed = true
fails_closed ToolFailureAction.manual_review = false

unfoldable pub route : RoutingPolicy → Gates → RouteKind × List String
unfolding reasons_of
route policy g =
    if g.deterministic_blockers || g.deterministic_blocked
    then (
      RouteKind.auto_reject,
      reasons_of (
          (if g.deterministic_blockers
            then "deterministic_finding_reject"
            else "required_stage_blocked")
          ∷ []),
    )
    else if g.deterministic_degraded && fails_closed policy.degraded_action
    then (RouteKind.auto_reject, reasons_of ("required_stage_degraded" ∷ "policy_fail_closed" ∷ []))
    else if g.missing
        || g.degraded
        || g.advisory_blocked
        || g.incomplete
        || not g.version_match
        || g.manual_findings
    then (
      RouteKind.manual_review,
      reasons_of (
          when g.missing "required_stage_missing"
          ∷ when g.degraded "required_stage_degraded"
          ∷ when g.advisory_degraded "advisory_stage_degraded"
          ∷ when g.advisory_blocked "advisory_stage_blocked"
          ∷ when g.incomplete "required_stage_incomplete"
          ∷ when (not g.version_match) "artifact_repo_version_mismatch"
          ∷ when g.manual_findings "finding_requires_manual_review"
          ∷ []),
    )
    else if not policy.auto_approve
    then (RouteKind.manual_review, "auto_approve_disabled" ∷ [])
    else (RouteKind.auto_approve, "all_auto_approve_gates_passed" ∷ [])

unfoldable pub route_target : RouteKind → ReviewStatus
route_target RouteKind.auto_reject = ReviewStatus.rejected
route_target RouteKind.manual_review = ReviewStatus.pending_review
route_target RouteKind.auto_approve = ReviewStatus.approved

-- `deterministic_blockers` and `manual_findings` are the open findings with these tests.
unfoldable pub is_blocker : RoutingPolicy → Finding → Bool
is_blocker policy f =
    f.deterministic && leb (risk_rank policy.deterministic_reject_at) (risk_rank f.severity)

unfoldable pub needs_manual : RoutingPolicy → Finding → Bool
needs_manual policy f = leb (risk_rank policy.manual_review_at) (risk_rank f.severity)

unfoldable pub gates_of :
    RoutingPolicy → List UnitResult → List String → Bool → List Finding → Gates
unfolding is_degraded is_blocked is_incomplete is_blocker needs_manual is_deterministic_gate
gates_of policy units missing version_match opened = record {
  missing = not (is_empty missing);
  degraded = any is_degraded units;
  deterministic_degraded = any (λ u. is_degraded u && is_deterministic_gate u.run_type) units;
  advisory_degraded = any (λ u. is_degraded u && not (is_deterministic_gate u.run_type)) units;
  deterministic_blocked = any (λ u. is_blocked u && is_deterministic_gate u.run_type) units;
  advisory_blocked = any (λ u. is_blocked u && not (is_deterministic_gate u.run_type)) units;
  incomplete = any is_incomplete units;
  version_match = version_match;
  deterministic_blockers = any (is_blocker policy) opened;
  manual_findings = any (needs_manual policy) opened;
}
