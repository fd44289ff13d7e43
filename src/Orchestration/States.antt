-- ===== src/Orchestration/States.antt =====
-- The state of a unit and of a stage: _unit_state, _latest_unit_run, _run_state,
-- _active_runtime_collect_job, _aggregate_stage_state and _upstream_reason of
-- apps/api/app/artifacts/orchestration.py, and runtime_dispatch_id of runner_contract.py.
use mathlib.Core.List.{reverse}
use astrbot_community_plugin.Prelude.{
  String, Bool, false, not, ◌&&◌, ◌||◌, Option, none, some, List, map, ◌==◌, string_eq, option_eq,
  member, any, filter, find, is_empty, if◌then◌else◌,
}
use astrbot_community_plugin.Prelude.Dict.{get}
use astrbot_community_plugin.Prelude.Text.{◌<>◌, text_take}
use astrbot_community_plugin.Json.{bool, get_field}
use astrbot_community_plugin.Lifecycle.Types.{
  run_type_eq, run_type_value, RunStatus, JobType, job_type_eq, JobStatus, job_status_eq,
}
use astrbot_community_plugin.Policy.{Stage, stage_eq, RuntimeTarget}
use astrbot_community_plugin.Repository.Rows.{Run, Job}
use astrbot_community_plugin.Repository.{or_text, text_of}
use astrbot_community_plugin.Routing.{coverage_text}
use astrbot_community_plugin.Orchestration.Units.{
  StageState, stage_state_eq, is_terminal_state, Snapshot, StageUnit,
}

-- An entry of a mapping from names to states.
pub record NamedState : Type 0 where
  pub name : String
  pub state : StageState

abbrev pub state_key : NamedState → String
state_key entry = entry.name

-- `unit_states[name]`; the program reads names of units only, which are all there.
unfoldable pub state_of : String → List NamedState → StageState
state_of name states = elim (get state_key name states) [
  | none ↦ StageState.pending
  | some entry ↦ entry.state
]

-- `unit.target.get("astrbot", "")` and `unit.target.get("python", "")`
abbrev pub astrbot_of : Option RuntimeTarget → String
astrbot_of none = ""
astrbot_of (some target) = target.astrbot

abbrev pub python_of : Option RuntimeTarget → String
python_of none = ""
python_of (some target) = target.python

-- The test of `_latest_unit_run`.
unfoldable pub is_run_of : StageUnit → String → String → Run → Bool
unfolding coverage_text run_type_value
is_run_of unit policy_id tool_version run =
    run.type == unit.run_type
    && text_of run.policy_version_id == policy_id
    && (if unit.stage == Stage.runtime
        then run.astrbot_version == astrbot_of unit.target
          && run.python_version == python_of unit.target
        else or_text (coverage_text "stage_name" run.coverage) (run_type_value run.type)
          == unit.name)
    && (unit.stage == Stage.static || run.tool_version == tool_version)

unfoldable pub latest_unit_run : StageUnit → String → String → List Run → Option Run
unfolding is_run_of
latest_unit_run unit policy_id tool_version runs =
    find (is_run_of unit policy_id tool_version) (reverse runs)

-- `StageState(outcome)` for the text of a terminal state.
unfoldable pub outcome_state : String → Option StageState
outcome_state outcome =
    if outcome == "completed"
    then some StageState.completed
    else if outcome == "blocked"
    then some StageState.blocked
    else if outcome == "degraded"
    then some StageState.degraded
    else if outcome == "failed"
    then some StageState.failed
    else if outcome == "skipped"
    then some StageState.skipped
    else none

unfoldable pub status_state : RunStatus → StageState
status_state RunStatus.succeeded = StageState.completed
status_state RunStatus.queued = StageState.running
status_state RunStatus.running = StageState.running
status_state _ = StageState.failed

unfoldable pub run_state : Run → StageState
unfolding outcome_state status_state coverage_text
run_state run = elim (outcome_state (coverage_text "outcome" run.coverage)) [
  | some state ↦ state
  | none ↦ status_state run.status
]

-- `bool(coverage.get("synthetic"))`; the program stores `True` or nothing.
unfoldable pub is_synthetic : Run → Bool
unfolding get_field
is_synthetic run = elim (get_field "synthetic" run.coverage) [ some (bool b) ↦ b | _ ↦ false ]

-- A job that is queued or running.
unfoldable pub is_active : Job → Bool
is_active job = job.status == JobStatus.queued || job.status == JobStatus.running

abbrev pub any_active : Option Job → Bool
any_active none = false
any_active (some job) = is_active job

-- The state that the job and the presence of a run give.
unfoldable pub job_state : Option Run → Option Job → StageState
unfolding is_active
job_state latest (some job) = if is_active job then StageState.running else StageState.failed
job_state (some run) none = StageState.failed
job_state none none = StageState.pending

module _ (sha256 : String → String) where
  unfoldable pub runtime_dispatch_id : String → String → String → String → String → String
  unfolding text_take
  runtime_dispatch_id run_id artifact_id astrbot_version python_version image_digest =
      "runtime_"
      <> text_take 40 (
          sha256 (
            run_id <> "\0" <> artifact_id <> "\0" <> astrbot_version <> "\0" <> python_version
            <> "\0" <> image_digest))

  -- The test of `_active_runtime_collect_job` on a job.
  unfoldable pub collects : String → StageUnit → String → Run → Job → Bool
  unfolding runtime_dispatch_id is_active coverage_text
  collects artifact_id unit policy_id run job =
      job.type == JobType.runtime_collect
      && text_of job.policy_version_id == policy_id
      && or_text (text_of job.run_id) (coverage_text "run_id" job.payload) == run.id
      && or_text job.stage_name (coverage_text "stage_name" job.payload) == unit.name
      && coverage_text "dispatch_id" job.payload
        == runtime_dispatch_id run.id artifact_id run.astrbot_version run.python_version
            run.container_image_digest
      && is_active job

  unfoldable pub active_runtime_collect_job : String → StageUnit → String → Run → List Job → Bool
  unfolding collects
  active_runtime_collect_job artifact_id unit policy_id run jobs =
      unit.stage == Stage.runtime
      && not (run.id == "")
      && any (collects artifact_id unit policy_id run) jobs

  -- `_unit_state` for the latest run and the matching job.
  unfoldable pub state_from :
      String → StageUnit → String → List Job → Option Run → Option Job → StageState
  unfolding job_state run_state is_synthetic is_active active_runtime_collect_job is_terminal_state
  state_from artifact_id unit policy_id jobs none job = job_state none job
  state_from artifact_id unit policy_id jobs (some run) job =
      if is_terminal_state (run_state run) && not (is_synthetic run && any_active job)
      then run_state run
      else if run_state run == StageState.running
          && active_runtime_collect_job artifact_id unit policy_id run jobs
      then StageState.running
      else job_state (some run) job

  unfoldable pub stage_key : String → String → String → String → String → String
  stage_key kind artifact_id policy_id stage_name tool_version =
      "review-stage:"
      <> stage_name
      <> ":"
      <> sha256 (
          artifact_id <> "\0" <> policy_id <> "\0" <> stage_name <> "\0" <> tool_version <> "\0"
          <> kind)

  -- The last static scan under the policy, which stands for a static unit without a job of its key.
  unfoldable pub static_job : StageUnit → String → List Job → Option Job
  static_job unit policy_id jobs =
      if unit.stage == Stage.static
      then find
          (λ job. job.type == JobType.static_scan && text_of job.policy_version_id == policy_id)
          (reverse jobs)
      else none

  unfoldable pub matching_job : String → StageUnit → String → String → List Job → Option Job
  unfolding stage_key static_job
  matching_job artifact_id unit policy_id tool_version jobs =
      elim (find
        (λ job. job.idempotency_key == stage_key "job" artifact_id policy_id unit.name tool_version)
        (reverse jobs)) [ some job ↦ some job | none ↦ static_job unit policy_id jobs ]

  unfoldable pub unit_state :
      String → StageUnit → String → Snapshot → List Run → List Job → StageState
  unfolding state_from matching_job latest_unit_run
  unit_state artifact_id unit policy_id tool runs jobs =
      state_from artifact_id unit policy_id jobs (latest_unit_run unit policy_id tool.version runs)
        (matching_job artifact_id unit policy_id tool.version jobs)

-- `_aggregate_stage_state` of the states of the stage's units.
unfoldable pub aggregate : List StageState → StageState
aggregate states =
    if is_empty states || member StageState.pending states
    then StageState.pending
    else if member StageState.running states
    then StageState.running
    else if member StageState.blocked states
    then StageState.blocked
    else if member StageState.degraded states
    then StageState.degraded
    else if member StageState.failed states
    then StageState.failed
    else if member StageState.skipped states
    then StageState.skipped
    else StageState.completed

-- `[unit for unit in units if unit.stage == stage]`
unfoldable pub units_at : Stage → List StageUnit → List StageUnit
units_at stage = filter (λ unit. unit.stage == stage)

unfoldable pub aggregate_stage_state : Stage → List StageUnit → List NamedState → StageState
unfolding aggregate units_at state_of
aggregate_stage_state stage units states =
    aggregate (map (λ unit. state_of unit.name states) (units_at stage units))

unfoldable pub upstream_reason : List StageState → String
upstream_reason states =
    if member StageState.blocked states
    then "upstream_blocked"
    else if member StageState.degraded states
    then "upstream_degraded"
    else if member StageState.failed states
    then "upstream_failed"
    else "upstream_incomplete"
