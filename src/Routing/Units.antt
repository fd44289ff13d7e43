-- ===== src/Routing/Units.antt =====
-- The units that a policy requires and their results: _required_unit_results and _latest_unit_run
-- of apps/api/app/artifacts/routing_evaluator.py.
use mathlib.Core.List.{reverse}
use astrbot_community_plugin.Prelude.{
  String, Bool, true, false, ◌&&◌, Option, none, some, List, [], ◌∷◌, ◌++◌, map, ◌==◌, nat_eq,
  string_eq, option_eq, find, if◌then◌else◌,
}
use astrbot_community_plugin.Prelude.Sorting.{sort}
use astrbot_community_plugin.Prelude.Text.{text_le, ◌<>◌}
use astrbot_community_plugin.Json.{text, bool, Object, get_field}
use astrbot_community_plugin.Lifecycle.Types.{
  RunType, run_type_eq, run_type_value, RunStatus, run_status_eq, FindingSeverity, FindingStatus,
  finding_status_eq,
}
use astrbot_community_plugin.Policy.{
  Stage, stage_eq, stage_value, stage_run_type, RuntimeTarget, ReviewPolicy,
}
use astrbot_community_plugin.Repository.Rows.{Run}
use astrbot_community_plugin.Repository.{or_text}

-- The columns of a finding that routing reads.
pub record Finding : Type 0 where
  pub fingerprint : String
  pub run_id : String
  pub severity : FindingSeverity
  pub deterministic : Bool
  pub status : FindingStatus

-- A unit that the policy requires: a stage, or the runtime stage at one target.
pub record Expected : Type 0 where
  pub name : String
  pub run_type : RunType
  pub astrbot_version : String
  pub python_version : String

pub record UnitResult : Type 0 where
  pub name : String
  pub run_type : RunType
  pub run_id : String
  pub status : RunStatus
  pub outcome : String
  pub complete : Bool
  pub tool_name : String
  pub tool_version : String
  pub error_code : String

-- `_DETERMINISTIC_GATE_TYPES`
unfoldable pub is_deterministic_gate : RunType → Bool
is_deterministic_gate RunType.static = true
is_deterministic_gate RunType.diff = true
is_deterministic_gate RunType.import_graph = true
is_deterministic_gate RunType.runtime = true
is_deterministic_gate RunType.clamav = true
is_deterministic_gate RunType.yara = true
is_deterministic_gate RunType.dependency = true
is_deterministic_gate _ = false

-- `str(coverage.get(key) or "")`; the program stores texts under the keys that are read so.
unfoldable pub coverage_text : String → Object → String
unfolding get_field
coverage_text key coverage = elim (get_field key coverage) [ some (text t) ↦ t | _ ↦ "" ]

-- `coverage.get("complete", True) is not False`
unfoldable pub marked_complete : Object → Bool
unfolding get_field
marked_complete coverage = elim (get_field "complete" coverage) [
  | some (bool false) ↦ false
  | _ ↦ true
]

unfoldable pub runtime_unit : RuntimeTarget → Expected
runtime_unit target = record {
  name = "runtime:" <> target.astrbot <> ":python-" <> target.python;
  run_type = RunType.runtime;
  astrbot_version = target.astrbot;
  python_version = target.python;
}

-- The units of one required stage.
unfoldable pub stage_units : List RuntimeTarget → Stage → List Expected
unfolding runtime_unit stage_value stage_run_type
stage_units targets Stage.runtime = map runtime_unit targets
stage_units targets stage =
    record {
      name = stage_value stage;
      run_type = stage_run_type stage;
      astrbot_version = "";
      python_version = "";
    }
    ∷ []

unfoldable pub expected_from : List RuntimeTarget → List Stage → List Expected
unfolding stage_units
expected_from targets [] = []
expected_from targets (stage ∷ stages) = stage_units targets stage ++ expected_from targets stages

unfoldable pub expected_units : ReviewPolicy → List Expected
unfolding expected_from
expected_units policy = expected_from policy.runtime_targets policy.required_stages

-- The test of `_latest_unit_run`.
unfoldable pub is_unit_run : Expected → Run → Bool
unfolding coverage_text run_type_value
is_unit_run unit run =
    run.type == unit.run_type
    && (if unit.run_type == RunType.runtime
        then run.astrbot_version == unit.astrbot_version
          && run.python_version == unit.python_version
        else or_text (coverage_text "stage_name" run.coverage) (run_type_value run.type)
          == unit.name)

-- `_latest_unit_run`: the last run of the list that the test accepts.
unfoldable pub latest_unit_run : Expected → List Run → Option Run
unfolding is_unit_run
latest_unit_run unit runs = find (is_unit_run unit) (reverse runs)

unfoldable pub unit_result : Expected → Run → UnitResult
unfolding coverage_text marked_complete
unit_result unit run =
    let outcome : String = coverage_text "outcome" run.coverage in
    record {
      name = unit.name;
      run_type = unit.run_type;
      run_id = run.id;
      status = run.status;
      outcome =
          or_text outcome (if run.status == RunStatus.succeeded then "completed" else "failed");
      complete =
          run.status == RunStatus.succeeded
          && outcome == "completed"
          && marked_complete run.coverage;
      tool_name = run.tool_name;
      tool_version = run.tool_version;
      error_code = or_text run.error_code (coverage_text "error_code" run.coverage);
    }

-- The loop of `_required_unit_results`: the results in the order of the units, and the units that
-- no run was found for.
unfoldable pub add_result : Expected → List UnitResult → Option Run → List UnitResult
unfolding unit_result
add_result unit rest none = rest
add_result unit rest (some run) = unit_result unit run ∷ rest

unfoldable pub unit_results : List Run → List Expected → List UnitResult
unfolding latest_unit_run add_result
unit_results runs [] = []
unit_results runs (unit ∷ units) =
    add_result unit (unit_results runs units) (latest_unit_run unit runs)

unfoldable pub add_missing : Expected → List String → Option Run → List String
add_missing unit rest none = unit.name ∷ rest
add_missing unit rest (some run) = rest

unfoldable pub missing_units : List Run → List Expected → List String
unfolding latest_unit_run add_missing
missing_units runs [] = []
missing_units runs (unit ∷ units) =
    add_missing unit (missing_units runs units) (latest_unit_run unit runs)

unfoldable pub required_unit_results : ReviewPolicy → List Run → List UnitResult × List String
unfolding unit_results missing_units expected_units
required_unit_results policy runs = (
  sort (λ a b. text_le a.name b.name) (unit_results runs (expected_units policy)),
  sort text_le (missing_units runs (expected_units policy)),
)
