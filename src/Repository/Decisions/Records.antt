-- ===== src/Repository/Decisions/Records.antt =====
-- record_decision and list_review_decisions of repository.py.
use astrbot_community_plugin.Prelude.{
  ℕ, String, Option, none, some, List, ◌==◌, string_eq, if◌then◌else◌, leb, filter, Result, ok, err,
  ◌>>=◌,
}
use astrbot_community_plugin.Prelude.Dict.{put}
use astrbot_community_plugin.Prelude.Sorting.{sort}
use astrbot_community_plugin.Lifecycle.{ArtifactError, value_error}
use astrbot_community_plugin.Repository.Rows.{Artifact, Decision, Repository}
use astrbot_community_plugin.Repository.{get_artifact, resolved_policy_snapshot}
use astrbot_community_plugin.Repository.Decisions.{
  decision_key, decision_with_key, policy_text, DecisionRequest, new_decision,
}

unfoldable pub record_for :
    ℕ
    → String
    → String
    → String
    → String
    → DecisionRequest
    → Repository
    → Option Artifact
    → Result ArtifactError (Decision × Repository)
unfolding policy_text new_decision resolved_policy_snapshot
record_for now fresh artifact_id from_status to_status q r none =
    err (value_error "runtime_result_invalid")
record_for now fresh artifact_id from_status to_status q r (some a) = do
  policy_id ← resolved_policy_snapshot a.policy_version_id q.policy_version_id
  version ← policy_text q.policy_version policy_id r
  let decision = new_decision now fresh artifact_id q from_status to_status version policy_id
  ok (decision, record r { decisions = put decision_key decision r.decisions })

-- A decision that holds the key answers a request for the same artifact.
unfoldable pub record_keyed :
    ℕ
    → String
    → String
    → String
    → String
    → DecisionRequest
    → Repository
    → Option Decision
    → Result ArtifactError (Decision × Repository)
unfolding record_for
record_keyed now fresh artifact_id from_status to_status q r (some d) =
    if d.artifact_id == artifact_id then ok (d, r) else err (value_error "idempotency_key_conflict")
record_keyed now fresh artifact_id from_status to_status q r none =
    record_for now fresh artifact_id from_status to_status q r (get_artifact artifact_id r)

-- The target, risk and rejection code of the request, which only `decide_artifact` has, are not read.
unfoldable pub record_decision :
    ℕ
    → String
    → String
    → String
    → String
    → DecisionRequest
    → Repository
    → Result ArtifactError (Decision × Repository)
unfolding record_keyed
record_decision now fresh artifact_id from_status to_status q r =
    record_keyed now fresh artifact_id from_status to_status q r
      (decision_with_key q.idempotency_key r.decisions)

unfoldable pub list_review_decisions : String → List Decision → List Decision
list_review_decisions artifact_id decisions =
    sort (λ a b. leb a.created_at b.created_at)
      (filter (λ d. d.artifact_id == artifact_id) decisions)
