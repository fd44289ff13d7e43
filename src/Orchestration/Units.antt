-- ===== src/Orchestration/Units.antt =====
-- The stages of a review and their units: StageState, StageToolSnapshot, _StageUnit, _STAGE_PHASES
-- and _stage_units of apps/api/app/artifacts/orchestration.py.
use astrbot_community_plugin.Prelude.{
  ℕ, String, Bool, true, false, Option, none, some, List, [], ◌∷◌, ◌++◌, map, Eq, discrete_eq,
  member, if◌then◌else◌,
}
use astrbot_community_plugin.Prelude.Text.{◌<>◌}
use astrbot_community_plugin.Lifecycle.Types.{RunType, JobType}
use astrbot_community_plugin.Policy.{
  Stage, stage_eq, stage_value, stage_run_type, RuntimeTarget, ReviewPolicy,
}

pub data StageState : Type 0 where
  pending running completed blocked degraded failed skipped : StageState

unfoldable pub StageState-discrete : Discrete StageState
StageState-discrete = hlevel

instance abbrev pub stage_state_eq : Eq StageState
stage_state_eq = discrete_eq StageState-discrete

unfoldable pub stage_state_value : StageState → String
stage_state_value StageState.pending = "pending"
stage_state_value StageState.running = "running"
stage_state_value StageState.completed = "completed"
stage_state_value StageState.blocked = "blocked"
stage_state_value StageState.degraded = "degraded"
stage_state_value StageState.failed = "failed"
stage_state_value StageState.skipped = "skipped"

-- `state in TERMINAL_STAGE_STATES`
unfoldable pub is_terminal_state : StageState → Bool
is_terminal_state StageState.pending = false
is_terminal_state StageState.running = false
is_terminal_state _ = true

-- A `StageToolSnapshot` that its constructor has accepted.
pub record Snapshot : Type 0 where
  pub version : String
  pub ready : Bool
  pub reason : String
  pub max_attempts : ℕ

-- `_StageUnit`; `target` is `none` for the empty mapping.
pub record StageUnit : Type 0 where
  pub stage : Stage
  pub name : String
  pub job_type : JobType
  pub run_type : RunType
  pub target : Option RuntimeTarget

-- `_STAGE_PHASES`
unfoldable pub stage_phases : List (List Stage)
stage_phases =
    (Stage.static ∷ [])
    ∷ (Stage.diff ∷ [])
    ∷ (Stage.import_graph ∷ [])
    ∷ (Stage.clamav ∷ Stage.yara ∷ [])
    ∷ (Stage.runtime ∷ [])
    ∷ (Stage.dependency ∷ [])
    ∷ (Stage.category ∷ [])
    ∷ (Stage.llm_package ∷ [])
    ∷ (Stage.llm_file ∷ [])
    ∷ (Stage.llm_summary ∷ [])
    ∷ []

-- `_STAGE_PHASE`
unfoldable pub stage_phase : Stage → ℕ
stage_phase Stage.static = 0
stage_phase Stage.diff = 1
stage_phase Stage.import_graph = 2
stage_phase Stage.clamav = 3
stage_phase Stage.yara = 3
stage_phase Stage.runtime = 4
stage_phase Stage.dependency = 5
stage_phase Stage.category = 6
stage_phase Stage.llm_package = 7
stage_phase Stage.llm_file = 8
stage_phase Stage.llm_summary = 9

-- `_STAGE_JOB_TYPES`
unfoldable pub stage_job_type : Stage → JobType
stage_job_type Stage.static = JobType.static_scan
stage_job_type Stage.diff = JobType.diff_graph
stage_job_type Stage.import_graph = JobType.diff_graph
stage_job_type Stage.clamav = JobType.clamav_scan
stage_job_type Stage.yara = JobType.yara_scan
stage_job_type Stage.runtime = JobType.runtime_dispatch
stage_job_type Stage.dependency = JobType.dependency_scan
stage_job_type Stage.category = JobType.category
stage_job_type Stage.llm_package = JobType.llm_package
stage_job_type Stage.llm_file = JobType.llm_file
stage_job_type Stage.llm_summary = JobType.llm_summary

unfoldable pub target_unit : RuntimeTarget → StageUnit
target_unit target = record {
  stage = Stage.runtime;
  name = "runtime:" <> target.astrbot <> ":python-" <> target.python;
  job_type = JobType.runtime_dispatch;
  run_type = RunType.runtime;
  target = some target;
}

-- The units of one stage that the policy requires.
unfoldable pub units_of : List RuntimeTarget → Stage → List StageUnit
unfolding target_unit stage_value stage_run_type stage_job_type
units_of targets Stage.runtime = map target_unit targets
units_of targets stage =
    record {
      stage = stage;
      name = stage_value stage;
      job_type = stage_job_type stage;
      run_type = stage_run_type stage;
      target = none;
    }
    ∷ []

-- The inner loop of `_stage_units`, over the stages of one phase.
unfoldable pub phase_units : ReviewPolicy → List Stage → List StageUnit
unfolding units_of
phase_units policy [] = []
phase_units policy (stage ∷ stages) =
    (if member stage policy.required_stages then units_of policy.runtime_targets stage else [])
    ++ phase_units policy stages

unfoldable pub units_from : ReviewPolicy → List (List Stage) → List StageUnit
unfolding phase_units
units_from policy [] = []
units_from policy (phase ∷ phases) = phase_units policy phase ++ units_from policy phases

unfoldable pub stage_units : ReviewPolicy → List StageUnit
unfolding units_from stage_phases
stage_units policy = units_from policy stage_phases
