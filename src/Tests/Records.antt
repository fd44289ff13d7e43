-- ===== src/Tests/Records.antt =====
-- Releases and runs with one artifact and one run.
use astrbot_community_plugin.Prelude.{
  refl, sym, ◌∙◌, ◌⊎◌, inl, inr, List, Option, none, some, [], ◌∷◌, In, ok, err, ap,
}
use astrbot_community_plugin.Prelude.Dict.{get}
use astrbot_community_plugin.Json.{empty}
use astrbot_community_plugin.Lifecycle.Types.{
  ReviewStatus, PublicationStatus, PublicationStatus-discrete, RunType, RunType-discrete, RunStatus,
  RunStatus-discrete,
}
use astrbot_community_plugin.Repository.Rows.{Artifact, Run, Repository}
use astrbot_community_plugin.Repository.{artifact_key}
use astrbot_community_plugin.Repository.Decisions.{Outcome}
use astrbot_community_plugin.Repository.Releases.{Release, publish_artifact}
use astrbot_community_plugin.Repository.Releases.Uniqueness
use astrbot_community_plugin.Repository.Runs.{RunReport, complete_review_run, fail_open_review_runs}
use astrbot_community_plugin.Repository.Runs.Openings.{IsUnended, fail_open_closes, manual_end_kept}
use astrbot_community_plugin.Tests.Data.{submission, scan, repository}

abbrev publishing : Artifact
publishing = record (submission ReviewStatus.approved) {
  publication_status = PublicationStatus.publishing;
}

abbrev before_release : Repository
before_release = record (repository ReviewStatus.approved) { artifacts = publishing ∷ [] }

abbrev release : Release
release = record {
  expected_repo_version = "1.0";
  published_key = "k";
  download_url = "u";
  expected_repo = none;
  expected_owner_user_id = some "author";
  expected_cdn_generation = 0;
}

abbrev repository_of : Outcome → Repository
repository_of (ok (x, s)) = s
repository_of (err e) = before_release

abbrev artifact_of : Outcome → Option Artifact
artifact_of (ok (x, s)) = x
artifact_of (err e) = none

abbrev released : Outcome
released = publish_artifact 9 "a1" release before_release

before_release-IsUnique : Uniqueness.IsUnique (publishing ∷ [])
before_release-IsUnique a b m n p q i v = elim m [
  | inl e ↦ elim n [ inl f ↦ ap artifact_key (e ∙ sym f) | inr l ↦ absurd l ]
  | inr k ↦ absurd k
]

releases-IsUnique_example : Uniqueness.IsUnique (repository_of released).artifacts
unfolding publish_artifact get PublicationStatus-discrete
releases-IsUnique_example =
    Uniqueness.releases-IsUnique
      (Uniqueness.step
        (Uniqueness.publish 9 "a1" release {r = before_release} {s = repository_of released}
          {x = artifact_of released} refl)
        Uniqueness.done)
      before_release-IsUnique

abbrev open_run : Run
open_run = record (scan "r3" RunType.clamav) { status = RunStatus.queued }

abbrev cancelled_run : Run
cancelled_run = record (scan "r4" RunType.clamav) {
  status = RunStatus.cancelled;
  error_code = "manual_review_completed";
}

abbrev failed_open : Run
failed_open = record open_run {
  status = RunStatus.failed;
  error_code = "e";
  summary = "s";
  completed_at = some 9;
}

abbrev runs_after : List Run
runs_after =
    (fail_open_review_runs 9 "a1" RunType.clamav "e" "s" "" (open_run ∷ cancelled_run ∷ [])).1

fail_open_closes_example :
    ((IsUnended "a1" RunType.clamav "" open_run × In failed_open runs_after)
      ⊎ ((¬ IsUnended "a1" RunType.clamav "" open_run) × In open_run runs_after))
    × (¬ IsUnended "a1" RunType.clamav "" cancelled_run)
unfolding fail_open_review_runs RunType-discrete RunStatus-discrete
fail_open_closes_example =
    fail_open_closes 9 "a1" RunType.clamav "e" "s" "" (open_run ∷ cancelled_run ∷ []) open_run
      cancelled_run (inl refl) (inr (inl refl))

abbrev run_report : RunReport
run_report = record {
  status = RunStatus.succeeded;
  summary = "";
  raw_result = empty;
  raw_result_key = none;
  error_code = "";
  output_sha256 = "";
  coverage = none;
  container_image_digest = "";
  dependency_snapshot_sha256 = "";
  worker_id = "w1";
  input_sha256 = "";
  ruleset_version = "";
}

manual_end_kept_example :
    In cancelled_run (complete_review_run 9 "r4" run_report (cancelled_run ∷ [])).1
manual_end_kept_example =
    manual_end_kept 9 "r4" run_report (cancelled_run ∷ []) cancelled_run ((λ y m. absurd m), tt)
      (inl refl) refl
