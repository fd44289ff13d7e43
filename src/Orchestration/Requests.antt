-- ===== src/Orchestration/Requests.antt =====
-- What apps/api/app/artifacts/orchestration.py asks of the repository for a unit: the requests of
-- _enqueue_stage_job, _record_synthetic_outcome and _enqueue_route_job, and _stage_input_sha256.
use astrbot_community_plugin.Prelude.{
  String, true, false, Option, none, some, List, [], ◌∷◌, if◌then◌else◌,
}
use astrbot_community_plugin.Prelude.Text.{◌<>◌, text_le}
use astrbot_community_plugin.Prelude.Sorting.{sort}
use astrbot_community_plugin.Json.{bool, text, obj, Object, empty, field, set_field}
use astrbot_community_plugin.Lifecycle.Types.{RunStatus, JobType}
use astrbot_community_plugin.Policy.{stage_value, RuntimeTarget}
use astrbot_community_plugin.Repository.Rows.{Artifact}
use astrbot_community_plugin.Repository.{text_of}
use astrbot_community_plugin.Repository.Jobs.{JobRequest}
use astrbot_community_plugin.Repository.Runs.{RunRequest}
use astrbot_community_plugin.Orchestration.Units.{
  StageState, stage_state_value, Snapshot, StageUnit,
}
use astrbot_community_plugin.Orchestration.States.{NamedState, astrbot_of, python_of, stage_key}

-- `dict(unit.target)`
unfoldable pub target_object : Option RuntimeTarget → Object
target_object none = empty
target_object (some target) =
    field "astrbot" (text target.astrbot) (field "python" (text target.python) empty)

-- `{name: state.value for name, state in states}`
unfoldable pub states_object : List NamedState → Object
unfolding stage_state_value
states_object [] = empty
states_object (entry ∷ rest) =
    field entry.name (text (stage_state_value entry.state)) (states_object rest)

-- `sorted(states.items())`, whose names are distinct
unfoldable pub sorted_states : List NamedState → List NamedState
sorted_states = sort (λ a b. text_le a.name b.name)

module _ (sha256 : String → String) (canonical_json : Object → String) where
  unfoldable pub stage_input_sha256 : Artifact → String → StageUnit → String → String
  unfolding target_object
  stage_input_sha256 a policy_id unit tool_version = sha256 (
      canonical_json (
        field "artifact_id" (text a.id) (
          field "archive_sha256" (text a.archive_sha256) (
            field "base_artifact_id" (text (text_of a.base_artifact_id)) (
              field "tree_sha256" (text a.tree_sha256) (
                field "policy_version_id" (text policy_id) (
                  field "stage_name" (text unit.name) (
                    field "target" (obj (target_object unit.target))
                      (field "tool_version" (text tool_version) empty)))))))))

  unfoldable pub stage_job_request : Artifact → String → StageUnit → Snapshot → JobRequest
  unfolding stage_input_sha256 target_object stage_key stage_value
  stage_job_request a policy_id unit tool = record {
    id = "";
    artifact_id = some a.id;
    type = unit.job_type;
    payload = field "stage" (text (stage_value unit.stage)) (
        field "stage_name" (text unit.name) (
          field "tool_version" (text tool.version) (
            field "input_sha256" (text (stage_input_sha256 a policy_id unit tool.version)) (
              field "artifact_sha256" (text a.archive_sha256) (
                field "tree_sha256" (text a.tree_sha256)
                  (field "target" (obj (target_object unit.target)) empty))))));
    max_attempts = tool.max_attempts;
    available_at = none;
    idempotency_key = stage_key sha256 "job" a.id policy_id unit.name tool.version;
    policy_version_id = some policy_id;
    run_id = none;
    stage_name = unit.name;
  }

  -- `coverage` of `_record_synthetic_outcome`
  unfoldable pub synthetic_coverage :
      StageUnit → Snapshot → StageState → String → List NamedState → Object
  unfolding states_object sorted_states stage_state_value stage_value
  synthetic_coverage unit tool state reason upstream =
      let coverage : Object = field "outcome" (text (stage_state_value state)) (
        field "complete" (bool false) (
          field "synthetic" (bool true) (
            field "reason" (text reason) (
              field "stage" (text (stage_value unit.stage)) (
                field "stage_name" (text unit.name)
                  (field "upstream" (obj (states_object (sorted_states upstream))) empty)))))) in
      if tool.ready then coverage else set_field "tool_reason" (text tool.reason) coverage

  unfoldable pub synthetic_request :
      Artifact → String → StageUnit → Snapshot → StageState → String → List NamedState → RunRequest
  unfolding synthetic_coverage stage_input_sha256 stage_key stage_state_value stage_value
  synthetic_request a policy_id unit tool state reason upstream = record {
    id = "";
    artifact_id = a.id;
    type = unit.run_type;
    status = some RunStatus.cancelled;
    attempt = 1;
    ruleset_version = "";
    model = "";
    summary = "Stage " <> unit.name <> " was not executed: " <> reason;
    raw_result = empty;
    raw_result_key = none;
    error_code = reason;
    tool_name = stage_value unit.stage;
    tool_version = tool.version;
    policy_version_id = some policy_id;
    input_sha256 = stage_input_sha256 a policy_id unit tool.version;
    output_sha256 = "";
    coverage = synthetic_coverage unit tool state reason upstream;
    prompt_version = "";
    result_schema_version = "";
    container_image_digest = "";
    astrbot_version = astrbot_of unit.target;
    python_version = python_of unit.target;
    platform = "";
    dependency_snapshot_sha256 = "";
    worker_id = "";
    idempotency_key = some (
        stage_key sha256 ("synthetic:" <> stage_state_value state <> ":" <> reason) a.id policy_id
          unit.name tool.version);
  }

  unfoldable pub route_request : Artifact → String → List NamedState → JobRequest
  unfolding states_object sorted_states stage_key
  route_request a policy_id states = record {
    id = "";
    artifact_id = some a.id;
    type = JobType.route_review;
    payload = field "stage" (text "routing") (
        field "tool_version" (text "routing-v1")
          (field "stage_states" (obj (states_object (sorted_states states))) empty));
    max_attempts = 3;
    available_at = none;
    idempotency_key = stage_key sha256 "job" a.id policy_id "routing" "routing-v1";
    policy_version_id = some policy_id;
    run_id = none;
    stage_name = "routing";
  }
