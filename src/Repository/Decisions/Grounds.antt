-- ===== src/Repository/Decisions/Grounds.antt =====
-- What an approval of repository.py rests on: the guards of approve_artifact and of
-- auto_approve_artifact, and what they write.
use astrbot_community_plugin.Prelude.{
  ℕ, String, ◌≡◌, ◌≢◌, true, false, not, Option, some, ◌==◌, string_eq, ==→≡, ok, >>=-eq-ok,
  raise_if-then, ok-injective, not-false, all,
}
use astrbot_community_plugin.Prelude.Dict.{differ}
use astrbot_community_plugin.Prelude.Text.{sorted_set}
use astrbot_community_plugin.Lifecycle.Types.{ReviewStatus, review_status_eq}
use astrbot_community_plugin.Repository.Rows.{Artifact, Policy, Repository}
use astrbot_community_plugin.Repository.{
  get_plugin, text_or_none, text_of, resolved_policy_snapshot,
}
use astrbot_community_plugin.Repository.Jobs.{job_with_key}
use astrbot_community_plugin.Repository.Decisions.{policy_text}
use astrbot_community_plugin.Repository.Decisions.Approvals.{
  Approval, owner_of, repo_version_of, required_runs, publish_key, publish_job, approval_decision,
  write_approval, approve_found,
}
use astrbot_community_plugin.Repository.Decisions.Automatic.{
  AutoApproval, matching_run, policy_row, publish_conflict, automatic_decision, auto_found,
}

-- What an approval by a reviewer that returns has checked, and its result.
pub record Approved (now : ℕ) (fresh fresh_job : String) (q : Approval) (r : Repository)
    (a : Artifact) (x : Option Artifact) (s : Repository) : Type 0 where
  pub version : String
  pub pending : a.review_status ≡ ReviewStatus.pending_review
  pub other_owner : owner_of (get_plugin a.plugin_id r) ≢ text_of q.reviewer.id
  pub same_repo_version : repo_version_of (get_plugin a.plugin_id r) ≡ q.expected_repo_version
  pub same_version : a.normalized_version ≡ q.expected_normalized_version
  pub runs_there : required_runs a.id (text_or_none a.policy_version_id) r.runs ≡ true
  pub result :
      write_approval now
        (record a {
          review_status = ReviewStatus.approved;
          reviewed_at = some now;
          updated_at = now;
        })
        (approval_decision now fresh q a version (text_or_none a.policy_version_id))
        (publish_job now fresh_job a
          (get_plugin a.plugin_id r)
          q.expected_repo_version
          a.policy_version_id
          "publish")
        r
      ≡ (x, s)

pub approve_found-Approved :
    (now : ℕ) (fresh fresh_job : String) (q : Approval) (r : Repository) (a : Artifact)
    {x : Option Artifact} {s : Repository}
    → approve_found now fresh fresh_job q r (some a) ≡ ok (x, s)
    → Approved now fresh fresh_job q r a x s
unfolding approve_found
approve_found-Approved now fresh fresh_job q r a e =
    let (c1, k1) = raise_if-then (not (a.review_status == ReviewStatus.pending_review)) _ _ e in
    let (c2, k2) =
      raise_if-then (owner_of (get_plugin a.plugin_id r) == text_of q.reviewer.id) _ _ k1 in
    let (c3, k3) =
      raise_if-then (not (repo_version_of (get_plugin a.plugin_id r) == q.expected_repo_version)) _
        _ k2 in
    let (c4, k4) =
      raise_if-then (not (a.normalized_version == q.expected_normalized_version)) _ _ k3 in
    let (v, c5, k5) = >>=-eq-ok (policy_text "p1" (text_or_none a.policy_version_id) r) _ k4 in
    let (c6, k6) =
      raise_if-then (not (required_runs a.id (text_or_none a.policy_version_id) r.runs)) _ _ k5 in
    record {
      version = v;
      pending = ==→≡ _ _ (not-false _ c1);
      other_owner = differ c2;
      same_repo_version = ==→≡ _ _ (not-false _ c3);
      same_version = ==→≡ _ _ (not-false _ c4);
      runs_there = not-false _ c6;
      result = ok-injective k6;
    }

-- What an approval by the policy that returns has checked, and its result.
pub record AutoApproved (now : ℕ) (fresh fresh_job : String) (q : AutoApproval) (r : Repository)
    (a : Artifact) (x : Option Artifact) (s : Repository) : Type 0 where
  pub policy_id : Option String
  pub policy : Policy
  pub scanning : a.review_status ≡ ReviewStatus.scanning
  pub snapshot :
      resolved_policy_snapshot a.policy_version_id (some q.policy_version_id) ≡ ok policy_id
  pub policy_there : policy_row policy_id r ≡ ok policy
  pub same_repo_version : repo_version_of (get_plugin a.plugin_id r) ≡ q.expected_repo_version
  pub same_normalized : a.normalized_version ≡ q.expected_normalized_version
  pub same_version : a.version ≡ q.expected_version
  pub runs_match : all (matching_run a.id policy_id r.runs) (sorted_set q.input_run_ids) ≡ true
  pub no_conflict : publish_conflict a.id policy_id (job_with_key (publish_key a.id) r.jobs) ≡ false
  pub result :
      write_approval now
        (record a {
          review_status = ReviewStatus.approved;
          risk_level = q.risk_level;
          reviewed_at = some now;
          updated_at = now;
        })
        (automatic_decision now fresh q a policy policy_id)
        (publish_job now fresh_job a
          (get_plugin a.plugin_id r)
          q.expected_repo_version
          policy_id
          "")
        r
      ≡ (x, s)

pub auto_found-AutoApproved :
    (now : ℕ) (fresh fresh_job : String) (q : AutoApproval) (r : Repository) (a : Artifact)
    {x : Option Artifact} {s : Repository}
    → auto_found now fresh fresh_job q r (some a) ≡ ok (x, s)
    → AutoApproved now fresh fresh_job q r a x s
unfolding auto_found
auto_found-AutoApproved now fresh fresh_job q r a e =
    let (c1, k1) = raise_if-then (not (a.review_status == ReviewStatus.scanning)) _ _ e in
    let (p, c2, k2) =
      >>=-eq-ok (resolved_policy_snapshot a.policy_version_id (some q.policy_version_id)) _ k1 in
    let (row, c3, k3) = >>=-eq-ok (policy_row p r) _ k2 in
    let (c4, k4) =
      raise_if-then (not (repo_version_of (get_plugin a.plugin_id r) == q.expected_repo_version)) _
        _ k3 in
    let (c5, k5) =
      raise_if-then (not (a.normalized_version == q.expected_normalized_version)) _ _ k4 in
    let (c6, k6) = raise_if-then (not (a.version == q.expected_version)) _ _ k5 in
    let (c7, k7) =
      raise_if-then (not (all (matching_run a.id p r.runs) (sorted_set q.input_run_ids))) _ _ k6 in
    let (c8, k8) =
      raise_if-then (publish_conflict a.id p (job_with_key (publish_key a.id) r.jobs)) _ _ k7 in
    record {
      policy_id = p;
      policy = row;
      scanning = ==→≡ _ _ (not-false _ c1);
      snapshot = c2;
      policy_there = c3;
      same_repo_version = ==→≡ _ _ (not-false _ c4);
      same_normalized = ==→≡ _ _ (not-false _ c5);
      same_version = ==→≡ _ _ (not-false _ c6);
      runs_match = not-false _ c7;
      no_conflict = c8;
      result = ok-injective k8;
    }
