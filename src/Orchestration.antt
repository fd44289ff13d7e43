-- ===== src/Orchestration.antt =====
-- ReviewOrchestrator.reconcile of apps/api/app/artifacts/orchestration.py. The clock is read once;
-- new ids come from a supply, one for each call of the repository. Parameters: SHA-256 in
-- hexadecimal, the canonical JSON text, and the tools that are configured. Where a call raises after others have
-- written, the model has no repository.
pub mod Units
pub mod States
pub mod Requests
pub mod Completions
pub mod Steps
pub mod Phases
pub mod Readiness
pub mod Endings
pub mod Agreement
pub mod Coverage
use mathlib.Core.List.{reverse}
use astrbot_community_plugin.Prelude.{
  ℕ, ◌+◌, String, Bool, true, false, not, ◌&&◌, ◌||◌, Option, none, some, List, [], ◌∷◌, ◌++◌, map,
  ◌==◌, ◌=/=◌, string_eq, ltb, member, any, all, filter, find, is_empty, if◌then◌else◌, Result, ok,
  err, ◌>>=◌,
}
use astrbot_community_plugin.Prelude.Dict.{put}
use astrbot_community_plugin.Prelude.Text.{◌<>◌, sorted_set}
use astrbot_community_plugin.Json.{Object}
use astrbot_community_plugin.Lifecycle.Types.{ReviewStatus}
use astrbot_community_plugin.Lifecycle.{ArtifactError, value_error}
use astrbot_community_plugin.Policy.{Stage, stage_eq, stage_value, ReviewPolicy}
use astrbot_community_plugin.Repository.Rows.{Artifact, Run, Job, Repository}
use astrbot_community_plugin.Repository.{get_artifact, text_of}
use astrbot_community_plugin.Repository.Jobs.{JobRequest, enqueue_job, list_artifact_jobs}
use astrbot_community_plugin.Repository.Runs.{create_review_run, list_review_runs}
use Units.{
  StageState, stage_state_eq, is_terminal_state, Snapshot, StageUnit, stage_phases, stage_phase,
  stage_units,
}
use States.{
  NamedState, state_key, state_of, unit_state, units_at, aggregate_stage_state, upstream_reason,
  stage_key,
}
use Requests.{stage_job_request, synthetic_request, route_request}

-- `status in _ARTIFACT_TERMINAL_STATUSES`
unfoldable pub is_settled : ReviewStatus → Bool
is_settled ReviewStatus.approved = true
is_settled ReviewStatus.rejected = true
is_settled ReviewStatus.withdrawn = true
is_settled ReviewStatus.changes_requested = true
is_settled ReviewStatus.processing_failed = true
is_settled _ = false

pub record OrchestrationResult : Type 0 where
  pub artifact_id : String
  pub policy_version_id : String
  pub stage_states : List NamedState
  pub enqueued_job_ids : List String
  pub recorded_run_ids : List String
  pub route_job_id : Option String
  pub waiting_on : List String

-- The repository and the local variables of `reconcile`; `calls` counts the ids taken.
pub record Progress : Type 0 where
  pub repository : Repository
  pub jobs : List Job
  pub runs : List Run
  pub states : List NamedState
  pub enqueued : List String
  pub recorded : List String
  pub waiting : List String
  pub calls : ℕ

unfoldable pub mark : StageUnit → StageState → List NamedState → List NamedState
mark unit state = put state_key (record { name = unit.name; state = state })

-- What follows a call of `create_review_run`.
unfoldable pub noted : StageUnit → StageState → Progress → Run × Repository → Progress
unfolding mark
noted unit state p (run, r) = record p {
  repository = r;
  runs = p.runs ++ run ∷ [];
  states = mark unit state p.states;
  recorded = p.recorded ++ run.id ∷ [];
  calls = p.calls + 1;
}

-- What follows a call of `enqueue_job`: a job that is not listed is new.
unfoldable pub listed : Progress → Job × Repository → Progress
listed p (job, r) = record p {
  repository = r;
  jobs = if member job.id (map (λ j. j.id) p.jobs) then p.jobs else p.jobs ++ job ∷ [];
  enqueued =
      if member job.id (map (λ j. j.id) p.jobs) then p.enqueued else p.enqueued ++ job.id ∷ [];
  calls = p.calls + 1;
}

unfoldable pub started : StageUnit → Progress → Job × Repository → Progress
unfolding mark listed
started unit p call = record (listed p call) { states = mark unit StageState.running p.states }

-- `_aggregate_stage_state` for the required stages of the earlier phases.
unfoldable pub dependency_states :
    List Stage → ℕ → List StageUnit → List NamedState → List NamedState
unfolding aggregate_stage_state stage_value stage_phase
dependency_states required phase units states =
    map
      (λ stage. record {
        name = stage_value stage;
        state = aggregate_stage_state stage units states;
      })
      (filter (λ stage. ltb (stage_phase stage) phase) required)

unfoldable pub find_route_job : (String → String) → List Job → String → String → Option Job
unfolding stage_key
find_route_job sha256 jobs artifact_id policy_id =
    find
      (λ job.
        job.idempotency_key == stage_key sha256 "job" artifact_id policy_id "routing" "routing-v1")
      (reverse jobs)

unfoldable pub all_terminal : List NamedState → Bool
unfolding is_terminal_state
all_terminal = all (λ entry. is_terminal_state entry.state)

abbrev pub job_id_of : Option Job → Option String
job_id_of none = none
job_id_of (some job) = some job.id

module _ (sha256 : String → String) (canonical_json : Object → String)
    (tools : Stage → Option Snapshot) (now : ℕ) (fresh : ℕ → String) where
  unfoldable pub tool_snapshot : Stage → Snapshot
  unfolding stage_value
  tool_snapshot stage = elim (tools stage) [
    | some tool ↦ tool
    | none ↦
        if stage == Stage.static
        then record { version = "p1.1"; ready = true; reason = ""; max_attempts = 3 }
        else record {
          version = "unconfigured";
          ready = false;
          reason = stage_value stage <> "_tool_not_configured";
          max_attempts = 3;
        }
  ]

  unfoldable pub record_outcome :
      Artifact
      → String
      → StageUnit
      → StageState
      → String
      → List NamedState
      → Progress
      → Result ArtifactError Progress
  unfolding synthetic_request create_review_run noted tool_snapshot
  record_outcome a policy_id unit state reason upstream p = do
    call ←
        create_review_run now (fresh p.calls)
          (synthetic_request sha256 canonical_json a policy_id unit (tool_snapshot unit.stage) state
            reason upstream)
          p.repository
    ok (noted unit state p call)

  unfoldable pub start_unit :
      Artifact → String → StageUnit → Progress → Result ArtifactError Progress
  unfolding stage_job_request enqueue_job started tool_snapshot
  start_unit a policy_id unit p = do
    call ←
        enqueue_job now (fresh p.calls)
          (stage_job_request sha256 canonical_json a policy_id unit (tool_snapshot unit.stage))
          p.repository
    ok (started unit p call)

  -- The body of the loop over the units of a stage; `blocking` are the dependencies that ended
  -- otherwise than completed.
  unfoldable pub act_unit :
      Artifact → String → List NamedState → StageUnit → Progress → Result ArtifactError Progress
  unfolding record_outcome start_unit upstream_reason tool_snapshot state_of
  act_unit a policy_id blocking unit p =
      if state_of unit.name p.states =/= StageState.pending
      then ok p
      else if not (is_empty blocking)
      then record_outcome a policy_id unit StageState.skipped
          (upstream_reason (map (λ entry. entry.state) blocking)) blocking p
      else if not (tool_snapshot unit.stage).ready
      then record_outcome a policy_id unit StageState.degraded "stage_tool_unavailable" [] p
      else start_unit a policy_id unit p

  unfoldable pub act_units :
      Artifact
      → String
      → List NamedState
      → List StageUnit
      → Progress
      → Result ArtifactError Progress
  unfolding act_unit
  act_units a policy_id blocking [] p = ok p
  act_units a policy_id blocking (unit ∷ units) p =
      act_unit a policy_id blocking unit p >>= act_units a policy_id blocking units

  -- The body of the loop over the stages of a phase.
  unfoldable pub act_stage :
      Artifact → String → ReviewPolicy → ℕ → Stage → Progress → Result ArtifactError Progress
  unfolding act_units dependency_states units_at stage_units is_terminal_state
  act_stage a policy_id policy phase stage p =
      let units : List StageUnit = stage_units policy in
      let dependencies : List NamedState =
        dependency_states policy.required_stages phase units p.states in
      let incomplete : List NamedState =
        filter (λ entry. not (is_terminal_state entry.state)) dependencies in
      if not (is_empty incomplete)
      then ok (record p { waiting = p.waiting ++ map state_key incomplete })
      else act_units a policy_id
          (filter (λ entry. entry.state =/= StageState.completed) dependencies)
          (units_at stage units) p

  unfoldable pub act_phase :
      Artifact → String → ReviewPolicy → ℕ → List Stage → Progress → Result ArtifactError Progress
  unfolding act_stage
  act_phase a policy_id policy phase [] p = ok p
  act_phase a policy_id policy phase (stage ∷ stages) p =
      act_stage a policy_id policy phase stage p >>= act_phase a policy_id policy phase stages

  unfoldable pub act_phases :
      Artifact
      → String
      → ReviewPolicy
      → ℕ
      → List (List Stage)
      → Progress
      → Result ArtifactError Progress
  unfolding act_phase
  act_phases a policy_id policy phase [] p = ok p
  act_phases a policy_id policy phase (stages ∷ rest) p =
      act_phase a policy_id policy phase
        (filter (λ stage. member stage policy.required_stages) stages) p
      >>= act_phases a policy_id policy (phase + 1) rest

  -- `unit_states` at the begin, by the runs and the jobs that are there.
  unfoldable pub unit_states :
      String → String → List Run → List Job → List StageUnit → List NamedState → List NamedState
  unfolding mark unit_state tool_snapshot
  unit_states artifact_id policy_id runs jobs [] states = states
  unit_states artifact_id policy_id runs jobs (unit ∷ units) states =
      unit_states artifact_id policy_id runs jobs units (
        mark unit
          (unit_state sha256 artifact_id unit policy_id (tool_snapshot unit.stage) runs jobs)
          states)

  unfoldable pub begin_progress : Artifact → String → ReviewPolicy → Repository → Progress
  unfolding unit_states list_review_runs list_artifact_jobs stage_units
  begin_progress a policy_id policy r =
      let runs : List Run = list_review_runs a.id r.runs in
      let jobs : List Job = list_artifact_jobs a.id r.jobs in
      record {
        repository = r;
        jobs = jobs;
        runs = runs;
        states = unit_states a.id policy_id runs jobs (stage_units policy) [];
        enqueued = [];
        recorded = [];
        waiting = [];
        calls = 0;
      }

  -- The stage loop of `reconcile`, which an artifact with a settled status skips.
  unfoldable pub advance :
      Artifact → String → ReviewPolicy → Repository → Result ArtifactError Progress
  unfolding begin_progress act_phases stage_phases is_settled
  advance a policy_id policy r =
      let p : Progress = begin_progress a policy_id policy r in
      if is_settled a.review_status then ok p else act_phases a policy_id policy 0 stage_phases p

  unfoldable pub result_of :
      Artifact → String → ReviewPolicy → Option Job → Progress → OrchestrationResult
  unfolding aggregate_stage_state stage_value stage_units sorted_set
  result_of a policy_id policy route_job p = record {
    artifact_id = a.id;
    policy_version_id = policy_id;
    stage_states =
        map
          (λ stage. record {
            name = stage_value stage;
            state = aggregate_stage_state stage (stage_units policy) p.states;
          })
          policy.required_stages;
    enqueued_job_ids = p.enqueued;
    recorded_run_ids = p.recorded;
    route_job_id = job_id_of route_job;
    waiting_on = sorted_set p.waiting;
  }

  unfoldable pub routed :
      Artifact
      → String
      → ReviewPolicy
      → Progress
      → Job × Repository
      → OrchestrationResult × Repository
  unfolding result_of listed
  routed a policy_id policy p (job, r) =
      (result_of a policy_id policy (some job) (listed p (job, r)), r)

  -- The result where no route job is enqueued.
  unfoldable pub unrouted :
      Artifact → String → ReviewPolicy → Progress → OrchestrationResult × Repository
  unfolding result_of find_route_job all_terminal is_terminal_state
  unrouted a policy_id policy p = (
    result_of a policy_id policy (find_route_job sha256 p.jobs a.id policy_id) (record p {
      waiting =
          if all_terminal p.states
          then p.waiting
          else p.waiting
            ++ map state_key (filter (λ entry. not (is_terminal_state entry.state)) p.states);
    }),
    p.repository,
  )

  -- What follows the stage loop.
  unfoldable pub conclude :
      Artifact
      → String
      → ReviewPolicy
      → Progress
      → Result ArtifactError (OrchestrationResult × Repository)
  unfolding route_request routed unrouted all_terminal enqueue_job is_settled
  conclude a policy_id policy p =
      if not (is_settled a.review_status) && all_terminal p.states
      then (enqueue_job now (fresh p.calls)
            (route_request sha256 canonical_json a policy_id p.states) p.repository
          >>= λ call. ok (routed a policy_id policy p call))
      else ok (unrouted a policy_id policy p)

  unfoldable pub reconcile_under :
      Artifact
      → String
      → Option ReviewPolicy
      → Repository
      → Result ArtifactError (OrchestrationResult × Repository)
  unfolding advance conclude
  reconcile_under a policy_id none r = err (value_error "review_policy_unavailable")
  reconcile_under a policy_id (some policy) r = do
    p ← advance a policy_id policy r
    conclude a policy_id policy p

  unfoldable pub reconcile_found :
      (String → Option ReviewPolicy)
      → Repository
      → Option Artifact
      → Result ArtifactError (OrchestrationResult × Repository)
  unfolding reconcile_under
  reconcile_found policies r none = err (value_error "artifact_not_found")
  reconcile_found policies r (some a) =
      if text_of a.policy_version_id == ""
      then err (value_error "review_policy_unavailable")
      else reconcile_under a (text_of a.policy_version_id) (policies (text_of a.policy_version_id))
          r

  -- `policies` are the stored policies by id, parsed.
  unfoldable pub reconcile :
      (String → Option ReviewPolicy)
      → String
      → Repository
      → Result ArtifactError (OrchestrationResult × Repository)
  unfolding reconcile_found
  reconcile policies artifact_id r = reconcile_found policies r (get_artifact artifact_id r)
