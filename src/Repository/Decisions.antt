-- ===== src/Repository/Decisions.antt =====
-- The decisions of repository.py. This module has decide_artifact and what the approvals share with
-- it. The clock is read once in each call, and new ids are arguments.
pub mod Approvals
pub mod Automatic
pub mod Grounds
pub mod Writes
pub mod Soundness
pub mod Records
pub mod Effects
pub mod Finality
use astrbot_community_plugin.Prelude.{
  ℕ, String, Bool, true, false, not, ◌&&◌, ◌||◌, Option, none, some, List, [], ◌∷◌, map, ◌==◌,
  nat_eq, string_eq, option_eq, if◌then◌else◌, member, any, all, find, is_empty, Result, ok, err,
  raise_if, ◌>>=◌, ◌>>◌,
}
use astrbot_community_plugin.Prelude.Dict.{get, put}
use astrbot_community_plugin.Prelude.Text.{◌<>◌, sorted_set}
use astrbot_community_plugin.Json.{Object, empty, field, text}
use astrbot_community_plugin.Lifecycle.Types.{
  ReviewStatus, review_status_eq, review_status_value, RiskLevel, RunType, RunStatus, run_type_eq,
  run_status_eq, JobType, job_type_eq, JobStatus, DecisionAction, decision_action_eq,
  DecisionSource,
}
use astrbot_community_plugin.Lifecycle.{
  ArtifactError, value_error, state_error, terminal_review_statuses, review_target_for_decision,
  validate_review_transition,
}
use astrbot_community_plugin.Repository.Rows.{
  Artifact, Run, Job, Decision, Thread, Policy, Plugin, Reviewer, Repository,
}
use astrbot_community_plugin.Repository.{
  artifact_key, policy_key, get_artifact, get_plugin, or_text, text_or_none, text_of,
  resolved_policy_snapshot, publication_payload,
}
use astrbot_community_plugin.Repository.Jobs.{job_key, job_with_key}

abbrev pub decision_key : Decision → String
decision_key d = d.id

abbrev pub run_key : Run → String
run_key run = run.id

-- The result of a call: the artifact, if there is one, and the repository.
abbrev pub Outcome : Type 0
Outcome = Result ArtifactError (Option Artifact × Repository)

-- The first decision with an idempotency key.
abbrev pub decision_with_key : String → List Decision → Option Decision
decision_with_key key = find (λ d. d.idempotency_key == key)

-- `_reviewer_name`
unfoldable pub reviewer_name : Option Reviewer → String
reviewer_name none = ""
reviewer_name (some r) = or_text (or_text r.github_name r.github_login) r.internal_username

-- `(reviewer or {}).get("id")`
abbrev pub reviewer_id : Option Reviewer → Option String
reviewer_id none = none
reviewer_id (some r) = r.id

-- The text of the policy version under which a decision is taken.
unfoldable pub policy_text : String → Option String → Repository → Result ArtifactError String
policy_text default none r = ok default
policy_text default (some id) r = elim (get policy_key id r.policies) [
  | none ↦ err (value_error "review_policy_invalid")
  | some policy ↦ ok policy.version
]

-- An open comment thread of the artifact is locked.
unfoldable pub lock_thread : ℕ → String → Thread → Thread
lock_thread now artifact_id thread =
    if thread.artifact_id == artifact_id && thread.locked_at == none
    then record thread { locked_at = some now; updated_at = now }
    else thread

-- `is_review_terminal`: `ReviewStatus(status) in TERMINAL_REVIEW_STATUSES`
unfoldable pub is_terminal : ReviewStatus → Bool
unfolding terminal_review_statuses
is_terminal status = member status terminal_review_statuses

pub record DecisionRequest : Type 0 where
  pub action : DecisionAction
  pub target : ReviewStatus
  pub reason : String
  pub reviewer : Option Reviewer
  pub idempotency_key : String
  pub policy_version : String
  pub policy_version_id : Option String
  pub source : Option DecisionSource
  pub input_run_ids : List String
  pub input_fingerprints : List String
  pub coverage_sha256 : String
  pub metadata : Object
  pub risk_level : Option RiskLevel
  pub rejection_code : Option String

-- `source or ("policy" if action in {"auto_reject", "auto_approve"} else "admin")`
unfoldable pub decision_source : DecisionAction → Option DecisionSource → DecisionSource
decision_source action (some source) = source
decision_source DecisionAction.auto_reject none = DecisionSource.policy
decision_source DecisionAction.auto_approve none = DecisionSource.policy
decision_source _ none = DecisionSource.admin

-- `_same_decision_request`
unfoldable pub same_decision_request : String → DecisionRequest → Decision → Bool
unfolding review_status_value
same_decision_request artifact_id q d =
    d.artifact_id == artifact_id
    && d.action == q.action
    && d.to_status == review_status_value q.target
    && d.reason == q.reason
    && text_or_none d.reviewer_user_id == text_or_none (reviewer_id q.reviewer)

unfoldable pub new_decision :
    ℕ → String → String → DecisionRequest → String → String → String → Option String → Decision
unfolding decision_source reviewer_name
new_decision now fresh artifact_id q from_status to_status policy_version policy_id = record {
  id = fresh;
  artifact_id = artifact_id;
  action = q.action;
  from_status = from_status;
  to_status = to_status;
  reason = q.reason;
  reviewer_user_id = reviewer_id q.reviewer;
  reviewer_nickname = reviewer_name q.reviewer;
  policy_version = policy_version;
  policy_version_id = policy_id;
  source = decision_source q.action q.source;
  input_run_ids = q.input_run_ids;
  input_fingerprints = q.input_fingerprints;
  coverage_sha256 = q.coverage_sha256;
  metadata = q.metadata;
  idempotency_key = q.idempotency_key;
  created_at = now;
}

-- What a decision writes to the artifact.
unfoldable pub decided : ℕ → DecisionRequest → Artifact → Artifact
decided now q a = record a {
  review_status = q.target;
  download_url = if q.target == ReviewStatus.approved then a.download_url else none;
  published_key = if q.target == ReviewStatus.approved then a.published_key else none;
  risk_level = elim q.risk_level [ none ↦ a.risk_level | some level ↦ level ];
  rejection_code = elim q.rejection_code [ none ↦ a.rejection_code | some code ↦ code ];
  reviewed_at = some now;
  updated_at = now;
}

-- The writes of `decide_artifact` for an artifact that it may decide.
unfoldable pub write_decision :
    ℕ → String → DecisionRequest → Artifact → Decision → Repository → Option Artifact × Repository
unfolding decided lock_thread
write_decision now artifact_id q a d r =
    let a' : Artifact = decided now q a in
    (
      some a',
      record r {
        decisions = put decision_key d r.decisions;
        artifacts = put artifact_key a' r.artifacts;
        threads = map (lock_thread now artifact_id) r.threads;
      },
    )

unfoldable pub decide_found :
    ℕ → String → String → DecisionRequest → Repository → Option Artifact → Outcome
unfolding policy_text is_terminal new_decision write_decision validate_review_transition
decide_found now fresh artifact_id q r none = ok (none, r)
decide_found now fresh artifact_id q r (some a) = do
  policy_id ← resolved_policy_snapshot a.policy_version_id q.policy_version_id
  version ← policy_text q.policy_version policy_id r
  raise_if (is_terminal a.review_status) (
      state_error "artifact_already_decided" (review_status_value a.review_status)
        (review_status_value q.target))
  validate_review_transition a.review_status q.target
  ok (
      write_decision now artifact_id q a
        (new_decision now fresh artifact_id q (review_status_value a.review_status)
          (review_status_value q.target) version policy_id)
        r)

-- A decision that holds the key answers the same request.
unfoldable pub decide_replayed : String → DecisionRequest → Repository → Decision → Outcome
unfolding same_decision_request
decide_replayed artifact_id q r d =
    if same_decision_request artifact_id q d
    then ok (get_artifact d.artifact_id r, r)
    else err (value_error "idempotency_key_conflict")

-- The target that the action prescribes, if it prescribes one, is the target.
unfoldable pub target_mismatch : DecisionRequest → Bool
unfolding review_target_for_decision
target_mismatch q = elim (review_target_for_decision q.action) [
  | none ↦ false
  | some t ↦ not (t == q.target)
]

unfoldable pub decide_keyed :
    ℕ → String → String → DecisionRequest → Repository → Option Decision → Outcome
unfolding decide_replayed decide_found
decide_keyed now fresh artifact_id q r (some d) = decide_replayed artifact_id q r d
decide_keyed now fresh artifact_id q r none =
    decide_found now fresh artifact_id q r (get_artifact artifact_id r)

unfoldable pub decide_artifact : ℕ → String → String → DecisionRequest → Repository → Outcome
unfolding target_mismatch decide_keyed
decide_artifact now fresh artifact_id q r = do
  raise_if (target_mismatch q) (value_error "decision_target_mismatch")
  decide_keyed now fresh artifact_id q r (decision_with_key q.idempotency_key r.decisions)
