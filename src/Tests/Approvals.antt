-- ===== src/Tests/Approvals.antt =====
-- Approvals of a submission with its scans.
use astrbot_community_plugin.Prelude.{
  In, String, ◌≡◌, ◌≢◌, refl, false, Option, none, some, List, ok, err, is_empty,
}
use astrbot_community_plugin.Prelude.Dict.{get, put}
use astrbot_community_plugin.Prelude.Sorting.{sort}
use astrbot_community_plugin.Prelude.Text.{sorted_set}
use astrbot_community_plugin.Lifecycle.Types.{
  ReviewStatus, ReviewStatus-discrete, RunType, RunType-discrete, RunStatus, RunStatus-discrete,
}
use astrbot_community_plugin.Lifecycle.Reviews.{History}
use astrbot_community_plugin.Repository.Rows.{Artifact, Run, Repository}
use astrbot_community_plugin.Repository.{
  get_artifact, get_plugin, text_of, text_or_none, resolved_policy_snapshot,
}
use astrbot_community_plugin.Repository.Decisions.{run_key, Outcome, is_terminal}
use astrbot_community_plugin.Repository.Decisions.Approvals.{
  owner_of, repo_version_of, approve_artifact,
}
use astrbot_community_plugin.Repository.Decisions.Automatic.{auto_approve_artifact}
use astrbot_community_plugin.Repository.Decisions.Soundness.{
  HasRun, approve_sound, auto_approve_sound,
}
use astrbot_community_plugin.Repository.Decisions.Effects.{
  ApprovedIn, approve_effects, auto_approve_effects,
}
use astrbot_community_plugin.Repository.Decisions.Finality.{
  approve, done, step, decided_final, decisions_follow_table,
}
use astrbot_community_plugin.Tests.Data.{submission, repository, approval, auto_approval}

abbrev outcome_repository : Outcome → Repository
outcome_repository (ok (x, s)) = s
outcome_repository (err e) = repository ReviewStatus.rejected

abbrev outcome_artifact : Outcome → Artifact
outcome_artifact (ok (some a, s)) = a
outcome_artifact (ok (none, s)) = submission ReviewStatus.rejected
outcome_artifact (err e) = submission ReviewStatus.rejected

abbrev approved_repository : Repository
approved_repository =
    outcome_repository
      (approve_artifact 9 "d1" "j1" "a1" approval (repository ReviewStatus.pending_review))

abbrev approved_artifact : Artifact
approved_artifact =
    outcome_artifact
      (approve_artifact 9 "d1" "j1" "a1" approval (repository ReviewStatus.pending_review))

abbrev passed_repository : Repository
passed_repository =
    outcome_repository
      (auto_approve_artifact 9 "d1" "j1" "a1" auto_approval (repository ReviewStatus.scanning))

abbrev passed_artifact : Artifact
passed_artifact =
    outcome_artifact
      (auto_approve_artifact 9 "d1" "j1" "a1" auto_approval (repository ReviewStatus.scanning))

approve_sound_example :
    let r = repository ReviewStatus.pending_review in
    (a : Artifact) × (get_artifact "a1" r ≡ some a)
    × (a.review_status ≡ ReviewStatus.pending_review)
    × (owner_of (get_plugin a.plugin_id r) ≢ text_of approval.reviewer.id)
    × (repo_version_of (get_plugin a.plugin_id r) ≡ approval.expected_repo_version)
    × (a.normalized_version ≡ approval.expected_normalized_version)
    × HasRun RunType.precheck "a1" (text_or_none a.policy_version_id) r.runs
    × HasRun RunType.static "a1" (text_or_none a.policy_version_id) r.runs
unfolding approve_artifact get ReviewStatus-discrete RunType-discrete RunStatus-discrete
approve_sound_example =
    approve_sound 9 "d1" "j1" "a1" approval (repository ReviewStatus.pending_review)
      approved_artifact approved_repository refl refl

approve_effects_example : ApprovedIn "a1" approved_artifact approved_repository
unfolding approve_artifact get ReviewStatus-discrete RunType-discrete RunStatus-discrete
approve_effects_example =
    approve_effects 9 "d1" "j1" "a1" approval (repository ReviewStatus.pending_review)
      approved_artifact approved_repository refl refl

auto_approve_sound_example :
    let r = repository ReviewStatus.scanning in
    (a : Artifact) × (policy : Option String) × (get_artifact "a1" r ≡ some a)
    × (a.review_status ≡ ReviewStatus.scanning)
    × (resolved_policy_snapshot a.policy_version_id (some "p1") ≡ ok policy)
    × (repo_version_of (get_plugin a.plugin_id r) ≡ "1.0")
    × (a.normalized_version ≡ "1.0")
    × (a.version ≡ "1.0")
    × (is_empty auto_approval.input_run_ids ≡ false)
    × ((run_id : String)
        → In run_id auto_approval.input_run_ids
        → (run : Run) × (get run_key run_id r.runs ≡ some run)
          × (run.artifact_id ≡ "a1")
          × (run.policy_version_id ≡ policy)
          × (run.status ≡ RunStatus.succeeded))
unfolding auto_approve_artifact get resolved_policy_snapshot sorted_set sort ReviewStatus-discrete
    RunStatus-discrete
auto_approve_sound_example =
    auto_approve_sound 9 "d1" "j1" "a1" auto_approval (repository ReviewStatus.scanning)
      passed_artifact passed_repository refl refl

auto_approve_effects_example : ApprovedIn "a1" passed_artifact passed_repository
unfolding auto_approve_artifact get resolved_policy_snapshot sorted_set sort ReviewStatus-discrete
    RunStatus-discrete
auto_approve_effects_example =
    auto_approve_effects 9 "d1" "j1" "a1" auto_approval (repository ReviewStatus.scanning)
      passed_artifact passed_repository refl refl

-- An artifact that is approved stays so when it is approved again.
decided_final_example : get_artifact "a1" approved_repository ≡ some approved_artifact
unfolding approve_artifact get put is_terminal ReviewStatus-discrete RunType-discrete
    RunStatus-discrete
decided_final_example =
    decided_final "a1" approved_artifact
      (step
        (approve 10 "d2" "j2" "a1" approval {r = approved_repository} {s = approved_repository}
          {x = some approved_artifact} refl)
        done)
      refl refl

decisions_follow_table_example :
    (b : Artifact) × (path : List ReviewStatus) × (get_artifact "a1" approved_repository ≡ some b)
    × History ReviewStatus.pending_review path b.review_status
unfolding approve_artifact get put ReviewStatus-discrete RunType-discrete RunStatus-discrete
decisions_follow_table_example =
    decisions_follow_table "a1" (submission ReviewStatus.pending_review)
      (step
        (approve 9 "d1" "j1" "a1" approval {r = repository ReviewStatus.pending_review}
          {s = approved_repository} {x = some approved_artifact} refl)
        done)
      refl
