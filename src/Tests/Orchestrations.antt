-- ===== src/Tests/Orchestrations.antt =====
-- The orchestration of a submission whose static scan is done.
use astrbot_community_plugin.Prelude.{
  ℕ, String, ◌≡◌, refl, ◌⊎◌, inl, true, false, Option, none, some, List, [], ◌∷◌, In, ok, err,
  Result,
}
use astrbot_community_plugin.Prelude.Dict.{get, put}
use astrbot_community_plugin.Prelude.Sorting.{sort}
use astrbot_community_plugin.Json.{Object}
use astrbot_community_plugin.Lifecycle.Types.{
  ReviewStatus, ReviewStatus-discrete, RunType-discrete, JobType, JobStatus,
}
use astrbot_community_plugin.Lifecycle.{ArtifactError}
use astrbot_community_plugin.Policy.{Stage, Stage-discrete, ReviewPolicy}
use astrbot_community_plugin.Repository.Rows.{Job, Repository}
use astrbot_community_plugin.Repository.Jobs.Invariant.{IsValid}
use astrbot_community_plugin.Routing.{Expected, expected_units}
use astrbot_community_plugin.Orchestration.Units.{
  StageState-discrete, Snapshot, StageUnit, stage_units,
}
use astrbot_community_plugin.Orchestration.{
  is_settled, all_terminal, Progress, OrchestrationResult, begin_progress, advance, reconcile,
}
use astrbot_community_plugin.Orchestration.Steps.{FromUnit}
use astrbot_community_plugin.Orchestration.Phases.{Cleared}
use astrbot_community_plugin.Orchestration.Readiness.{reconcile_readiness, reconcile-IsValid}
use astrbot_community_plugin.Orchestration.Endings.{Untouched, reconcile_settled}
use astrbot_community_plugin.Policy.Validation.{StageSettings, validate_stage_configuration}
use astrbot_community_plugin.Orchestration.Coverage.{accepted_policy_covered}
use astrbot_community_plugin.Orchestration.Agreement.{SameUnit, stage_units-expected_units}
use astrbot_community_plugin.Tests.Data.{submission, repository, policy, scan_job}

abbrev two_stages : ReviewPolicy
two_stages = record policy { required_stages = Stage.static ∷ Stage.diff ∷ [] }

abbrev same_text : String → String
same_text t = t

abbrev no_text : Object → String
no_text o = "{}"

abbrev tools : Stage → Option Snapshot
tools Stage.diff = some (record { version = "d1"; ready = true; reason = ""; max_attempts = 3 })
tools stage = none

abbrev ids : ℕ → String
ids n = "j9"

abbrev policies : String → Option ReviewPolicy
policies id = some two_stages

abbrev reconciled : ReviewStatus → Result ArtifactError (OrchestrationResult × Repository)
reconciled status = reconcile same_text no_text tools 9 ids policies "a1" (repository status)

abbrev result_in :
    Result ArtifactError (OrchestrationResult × Repository) → OrchestrationResult × Repository
result_in (ok out) = out
result_in (err e) = (
  record {
    artifact_id = "";
    policy_version_id = "";
    stage_states = [];
    enqueued_job_ids = [];
    recorded_run_ids = [];
    route_job_id = none;
    waiting_on = [];
  },
  repository ReviewStatus.rejected,
)

abbrev first_job : List Job → Job
first_job [] = scan_job JobStatus.queued 0 none none
first_job (job ∷ jobs) = job

abbrev diff_job : Job
diff_job = first_job (result_in (reconciled ReviewStatus.scanning)).1.jobs

diff_job-type : diff_job.type ≡ JobType.diff_graph
unfolding reconcile get put sort Stage-discrete StageState-discrete RunType-discrete
    ReviewStatus-discrete
diff_job-type = refl

reconcile_readiness_example :
    In diff_job (repository ReviewStatus.scanning).jobs
    ⊎ (FromUnit two_stages
          (Cleared two_stages Stage.static
            (begin_progress same_text no_text tools 9 ids
              (submission ReviewStatus.scanning)
              "p1"
              two_stages
              (repository ReviewStatus.scanning)).states)
          diff_job
        ⊎ ((diff_job.type ≡ JobType.route_review)
            × (is_settled ReviewStatus.scanning ≡ false)
            × (p : Progress) × (advance same_text no_text tools 9 ids
                  (submission ReviewStatus.scanning)
                  "p1"
                  two_stages
                  (repository ReviewStatus.scanning)
                ≡ ok p)
            × (all_terminal p.states ≡ true)))
unfolding reconcile get put sort Stage-discrete StageState-discrete RunType-discrete
    ReviewStatus-discrete
reconcile_readiness_example =
    reconcile_readiness same_text no_text tools 9 ids policies "a1"
      (repository ReviewStatus.scanning) (submission ReviewStatus.scanning) two_stages Stage.static
      {out = result_in (reconciled ReviewStatus.scanning)} diff_job refl refl refl refl (inl refl)

reconcile-IsValid_example : IsValid (result_in (reconciled ReviewStatus.scanning)).1.jobs
unfolding reconcile get put sort Stage-discrete StageState-discrete RunType-discrete
    ReviewStatus-discrete
reconcile-IsValid_example =
    reconcile-IsValid same_text no_text tools 9 ids policies "a1" (repository ReviewStatus.scanning)
      {out = result_in (reconciled ReviewStatus.scanning)} refl
      (record { distinct_ids = tt; distinct_keys = tt; sound = λ j m. absurd m })

reconcile_settled_example :
    Untouched (repository ReviewStatus.approved) (result_in (reconciled ReviewStatus.approved))
unfolding reconcile get put sort Stage-discrete StageState-discrete RunType-discrete
    ReviewStatus-discrete
reconcile_settled_example =
    reconcile_settled same_text no_text tools 9 ids policies "a1" (repository ReviewStatus.approved)
      (submission ReviewStatus.approved) (result_in (reconciled ReviewStatus.approved)) refl refl
      refl

stage_units-expected_units_example :
    ((unit : StageUnit)
      → In unit (stage_units two_stages)
      → (e : Expected) × In e (expected_units two_stages) × SameUnit unit e)
    × ((e : Expected)
        → In e (expected_units two_stages)
        → (unit : StageUnit) × In unit (stage_units two_stages) × SameUnit unit e)
stage_units-expected_units_example = stage_units-expected_units two_stages

abbrev settings : StageSettings
settings = record {
  category_enabled = false;
  clamav = false;
  yara_ruleset = none;
  dependency_enabled = false;
  llm_enabled = false;
  require_complete_coverage = true;
}

abbrev reviewed_stages : ReviewPolicy
reviewed_stages = record policy {
  required_stages = Stage.static ∷ Stage.runtime ∷ [];
  runtime_targets = record { astrbot = "4.0"; python = "3.12" } ∷ [];
}

accepted_policy_covered_example :
    ((stage : Stage)
      → In stage reviewed_stages.required_stages
      → (unit : StageUnit) × In unit (stage_units reviewed_stages) × (unit.stage ≡ stage))
    × ((unit : StageUnit)
        → In unit (stage_units reviewed_stages)
        → In unit.stage reviewed_stages.required_stages)
    × ((unit : StageUnit) × In unit (stage_units reviewed_stages) × (unit.stage ≡ Stage.static))
    × (reviewed_stages.routing.auto_approve ≡ true
        → (unit : StageUnit) × In unit (stage_units reviewed_stages) × (unit.stage ≡ Stage.runtime))
unfolding validate_stage_configuration sort Stage-discrete
accepted_policy_covered_example = accepted_policy_covered settings reviewed_stages refl
