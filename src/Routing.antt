-- ===== src/Routing.antt =====
-- apps/api/app/artifacts/routing_evaluator.py: the verdict on a reviewed artifact. Parameters: the
-- canonical form of packaging's `Version`, and the SHA-256 of the canonical JSON of the audit.
mod Units
mod Branches
pub mod Verdicts
pub mod Evaluations
use Prim.Native.Char.{code}
use Prim.Native.String
use mathlib.Core.List.{reverse}
use astrbot_community_plugin.Prelude.{
  ℕ, String, Bool, true, false, not, ◌&&◌, ◌||◌, Option, none, some, List, [], ◌∷◌, ◌++◌, map, ◌==◌,
  nat_eq, string_eq, option_eq, leb, ltb, member, any, all, filter, find, is_empty, length,
  if◌then◌else◌, Result, ok, err,
}
use astrbot_community_plugin.Prelude.Sorting.{sort}
use astrbot_community_plugin.Prelude.Text.{text_le, ◌<>◌, strip, sorted_set}
use astrbot_community_plugin.Json.{Json, text, bool, Object, get_field}
use astrbot_community_plugin.Lifecycle.Types.{
  ReviewStatus, RiskLevel, RunType, run_type_eq, run_type_value, RunStatus, run_status_eq,
  FindingSeverity, FindingStatus, finding_status_eq,
}
use astrbot_community_plugin.Lifecycle.{risk_rank, highest_risk, ArtifactError, value_error}
use astrbot_community_plugin.Policy.{
  Stage, stage_eq, stage_value, stage_run_type, ToolFailureAction, RuntimeTarget, RoutingPolicy,
  ReviewPolicy,
}
use astrbot_community_plugin.Repository.Rows.{Artifact, Run}
use astrbot_community_plugin.Repository.{or_text, text_of}
unfoldable pub use Units.*
unfoldable pub use Branches.*

-- `audit` of `evaluate`
pub record Audit : Type 0 where
  pub policy_version_id : String
  pub route : RouteKind
  pub target_status : ReviewStatus
  pub reason_codes : List String
  pub risk_level : RiskLevel
  pub complete : Bool
  pub version_match : Bool
  pub required_units : List UnitResult
  pub missing_units : List String
  pub input_run_ids : List String
  pub input_fingerprints : List String
  pub open_count : ℕ
  pub manual_count : ℕ
  pub deterministic_blocker_count : ℕ
  pub advisory_degraded_count : ℕ
  pub advisory_blocked_count : ℕ

pub record Evaluation : Type 0 where
  pub audit : Audit
  pub open audit use *
  pub coverage_sha256 : String

-- The runs of the artifact's policy, and the open findings of those runs, severest first.
unfoldable pub current_runs : String → List Run → List Run
current_runs policy_id = filter (λ run. text_of run.policy_version_id == policy_id)

unfoldable pub is_open : List Run → Finding → Bool
is_open runs f = f.status == FindingStatus.opened && member f.run_id (map (λ r. r.id) runs)

unfoldable pub open_findings : List Run → List Finding → List Finding
unfolding finding_le is_open
open_findings runs findings = sort finding_le (filter (is_open runs) findings)

-- `raw[1:] if raw[:1].lower() == "v" else raw`
unfoldable pub drop_v : String → String
drop_v String.[] = ""
drop_v (String.◌∷◌ c s) = if code c == b'v' || code c == b'V' then s else String.◌∷◌ c s

module _ (canonical_version : String → Option String) (audit_sha256 : Audit → String) where
  -- `normalize_version` of archive.py; `none` is its `PrecheckError`.
  unfoldable pub normalize_version : String → Option String
  unfolding strip
  normalize_version value = canonical_version (drop_v (strip value))

  -- `_version_match`, of the stripped texts
  unfoldable pub matches_version : String → String → String → Bool
  unfolding normalize_version
  matches_version version repo_version normalized =
      not (version == "")
      && not (repo_version == "")
      && not (normalized == "")
      && version == repo_version
      && normalize_version version == some normalized
      && normalize_version repo_version == some normalized

  unfoldable pub version_match : Artifact → String → Bool
  unfolding matches_version
  version_match artifact repo_version =
      matches_version (strip artifact.version) (strip repo_version)
        (strip artifact.normalized_version)

  -- The body of `evaluate` for the units, the missing units and the open findings.
  unfoldable pub verdict :
      String → RoutingPolicy → List UnitResult → List String → Bool → List Finding → Evaluation
  unfolding gates_of route route_target highest_finding_risk sorted_set
  verdict policy_id policy units missing matched opened =
      let g : Gates = gates_of policy units missing matched opened in
      let decided : RouteKind × List String = route policy g in
      let audit : Audit = record {
        policy_version_id = policy_id;
        route = decided.0;
        target_status = route_target decided.0;
        reason_codes = decided.1;
        risk_level = highest_finding_risk opened;
        complete =
            is_empty missing && not g.degraded && not (any is_blocked units) && not g.incomplete;
        version_match = matched;
        required_units = units;
        missing_units = missing;
        input_run_ids = sorted_set (filter (λ t. not (t == "")) (map (λ u. u.run_id) units));
        input_fingerprints =
            sorted_set (filter (λ t. not (t == "")) (map (λ f. f.fingerprint) opened));
        open_count = length opened;
        manual_count = length (filter (needs_manual policy) opened);
        deterministic_blocker_count = length (filter (is_blocker policy) opened);
        advisory_degraded_count =
            length (filter (λ u. is_degraded u && not (is_deterministic_gate u.run_type)) units);
        advisory_blocked_count =
            length (filter (λ u. is_blocked u && not (is_deterministic_gate u.run_type)) units);
      } in
      record { audit = audit; coverage_sha256 = audit_sha256 audit }

  unfoldable pub evaluate :
      Artifact → String → ReviewPolicy → List Run → List Finding → Result ArtifactError Evaluation
  unfolding verdict version_match required_unit_results current_runs open_findings
  evaluate artifact repo_version policy runs findings =
      let policy_id : String = text_of artifact.policy_version_id in
      if policy_id == ""
      then err (value_error "review_policy_unavailable")
      else let current : List Run = current_runs policy_id runs in
        let (units, missing) = required_unit_results policy current in
        ok (
          verdict policy_id policy.routing units missing (version_match artifact repo_version)
            (open_findings current findings))
