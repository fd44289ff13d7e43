-- ===== src/Repository/Runs.antt =====
-- The review runs of repository.py: create_review_run, complete_review_run, list_review_runs and
-- fail_open_review_runs. The clock is read once in each call, and a new id is an argument.
pub mod Openings
use astrbot_community_plugin.Prelude.{
  ℕ, ◌+◌, String, Bool, true, false, not, ◌&&◌, ◌||◌, Option, none, some, List, [], ◌∷◌, map, ◌==◌,
  nat_eq, string_eq, option_eq, if◌then◌else◌, leb, filter, find, length, Result, ok, err, raise_if,
  ◌>>=◌, ◌>>◌,
}
use astrbot_community_plugin.Prelude.Dict.{get, put}
use astrbot_community_plugin.Prelude.Sorting.{sort}
use astrbot_community_plugin.Json.{Object}
use astrbot_community_plugin.Lifecycle.Types.{RunType, run_type_eq, RunStatus, run_status_eq}
use astrbot_community_plugin.Lifecycle.{ArtifactError, value_error}
use astrbot_community_plugin.Repository.Rows.{Artifact, Run, Repository}
use astrbot_community_plugin.Repository.{
  get_artifact, or_text, text_or_none, resolved_policy_snapshot,
}
use astrbot_community_plugin.Repository.Decisions.{run_key}

-- `payload` of `create_review_run`; an empty text, 0 or `none` is a missing entry.
pub record RunRequest : Type 0 where
  pub id : String
  pub artifact_id : String
  pub type : RunType
  pub status : Option RunStatus
  pub attempt : ℕ
  pub ruleset_version : String
  pub model : String
  pub summary : String
  pub raw_result : Object
  pub raw_result_key : Option String
  pub error_code : String
  pub tool_name : String
  pub tool_version : String
  pub policy_version_id : Option String
  pub input_sha256 : String
  pub output_sha256 : String
  pub coverage : Object
  pub prompt_version : String
  pub result_schema_version : String
  pub container_image_digest : String
  pub astrbot_version : String
  pub python_version : String
  pub platform : String
  pub dependency_snapshot_sha256 : String
  pub worker_id : String
  pub idempotency_key : Option String

-- `str(payload.get("status") or "queued")`
abbrev pub status_of : Option RunStatus → RunStatus
status_of none = RunStatus.queued
status_of (some status) = status

unfoldable pub is_ended : RunStatus → Bool
is_ended RunStatus.queued = false
is_ended RunStatus.running = false
is_ended _ = true

unfoldable pub new_run : ℕ → String → RunRequest → Option String → Run
unfolding is_ended
new_run now fresh q policy = record {
  id = or_text q.id fresh;
  artifact_id = q.artifact_id;
  type = q.type;
  status = status_of q.status;
  attempt = if q.attempt == 0 then 1 else q.attempt;
  ruleset_version = q.ruleset_version;
  model = q.model;
  summary = q.summary;
  raw_result = q.raw_result;
  raw_result_key = q.raw_result_key;
  error_code = q.error_code;
  tool_name = q.tool_name;
  tool_version = q.tool_version;
  policy_version_id = policy;
  input_sha256 = q.input_sha256;
  output_sha256 = q.output_sha256;
  coverage = q.coverage;
  prompt_version = q.prompt_version;
  result_schema_version = q.result_schema_version;
  container_image_digest = q.container_image_digest;
  astrbot_version = q.astrbot_version;
  python_version = q.python_version;
  platform = q.platform;
  dependency_snapshot_sha256 = q.dependency_snapshot_sha256;
  worker_id = q.worker_id;
  idempotency_key = q.idempotency_key;
  queued_at = now;
  started_at = if q.status == some RunStatus.running then some now else none;
  completed_at = if is_ended (status_of q.status) then some now else none;
  created_at = now;
  superseded_at = none;
}

-- The first run with the key of a request; a request without a key has none.
unfoldable pub run_with_key : Option String → List Run → Option Run
run_with_key none runs = none
run_with_key (some key) runs = find (λ run. run.idempotency_key == some key) runs

-- The first check of a run that holds the key, before the artifact is read.
unfoldable pub other_request : RunRequest → Option Run → Bool
other_request q none = false
other_request q (some run) = not (run.artifact_id == q.artifact_id && run.type == q.type)

unfoldable pub run_policy : RunRequest → Option Artifact → Result ArtifactError (Option String)
unfolding resolved_policy_snapshot
run_policy q none = err (value_error "runtime_result_invalid")
run_policy q (some artifact) =
    resolved_policy_snapshot artifact.policy_version_id q.policy_version_id

unfoldable pub create_run_found :
    ℕ
    → String
    → RunRequest
    → Repository
    → Option String
    → Option Run
    → Result ArtifactError (Run × Repository)
unfolding new_run
create_run_found now fresh q r policy (some run) =
    if run.policy_version_id == policy
    then ok (run, r)
    else err (value_error "idempotency_key_conflict")
create_run_found now fresh q r policy none =
    let run = new_run now fresh q policy in ok (run, record r { runs = put run_key run r.runs })

unfoldable pub create_keyed :
    ℕ → String → RunRequest → Repository → Option Run → Result ArtifactError (Run × Repository)
unfolding other_request run_policy create_run_found
create_keyed now fresh q r found = do
  raise_if (other_request q found) (value_error "idempotency_key_conflict")
  policy ← run_policy q (get_artifact q.artifact_id r)
  create_run_found now fresh q r policy found

unfoldable pub create_review_run :
    ℕ → String → RunRequest → Repository → Result ArtifactError (Run × Repository)
unfolding create_keyed run_with_key
create_review_run now fresh q r =
    create_keyed now fresh q r (run_with_key (text_or_none q.idempotency_key) r.runs)

-- `payload` of `complete_review_run`; an empty text is a missing entry.
pub record RunReport : Type 0 where
  pub status : RunStatus
  pub summary : String
  pub raw_result : Object
  pub raw_result_key : Option String
  pub error_code : String
  pub output_sha256 : String
  pub coverage : Option Object
  pub container_image_digest : String
  pub dependency_snapshot_sha256 : String
  pub worker_id : String
  pub input_sha256 : String
  pub ruleset_version : String

abbrev coverage_of : Object → Option Object → Object
coverage_of current none = current
coverage_of current (some coverage) = coverage

unfoldable pub ended : ℕ → RunReport → Run → Run
ended now q run = record run {
  status = q.status;
  summary = q.summary;
  raw_result = q.raw_result;
  raw_result_key = q.raw_result_key;
  error_code = q.error_code;
  output_sha256 = or_text q.output_sha256 run.output_sha256;
  coverage = coverage_of run.coverage q.coverage;
  container_image_digest = or_text q.container_image_digest run.container_image_digest;
  dependency_snapshot_sha256 = or_text q.dependency_snapshot_sha256 run.dependency_snapshot_sha256;
  worker_id = or_text q.worker_id run.worker_id;
  input_sha256 = or_text q.input_sha256 run.input_sha256;
  ruleset_version = or_text q.ruleset_version run.ruleset_version;
  completed_at = some now;
}

unfoldable pub complete_found : ℕ → RunReport → List Run → Option Run → Option Run × List Run
unfolding ended
complete_found now q runs none = (none, runs)
complete_found now q runs (some run) =
    if run.error_code == "manual_review_completed"
    then (some run, runs)
    else (some (ended now q run), put run_key (ended now q run) runs)

unfoldable pub complete_review_run : ℕ → String → RunReport → List Run → Option Run × List Run
unfolding complete_found
complete_review_run now run_id q runs = complete_found now q runs (get run_key run_id runs)

unfoldable pub list_review_runs : String → List Run → List Run
list_review_runs artifact_id runs =
    sort (λ a b. leb a.created_at b.created_at)
      (filter (λ run. run.artifact_id == artifact_id && run.superseded_at == none) runs)

-- An open run of an artifact and a type; an empty id stands for every run.
unfoldable pub is_open_run : String → RunType → String → Run → Bool
is_open_run artifact_id type run_id run =
    run.artifact_id == artifact_id
    && run.type == type
    && (run_id == "" || run.id == run_id)
    && (run.status == RunStatus.queued || run.status == RunStatus.running)

unfoldable pub failed_run : ℕ → String → String → Run → Run
failed_run now error_code summary run = record run {
  status = RunStatus.failed;
  error_code = error_code;
  summary = summary;
  completed_at = some now;
}

unfoldable pub fail_open : ℕ → String → RunType → String → String → String → Run → Run
unfolding is_open_run failed_run
fail_open now artifact_id type error_code summary run_id run =
    if is_open_run artifact_id type run_id run then failed_run now error_code summary run else run

-- The number of runs changed, and the runs.
unfoldable pub fail_open_review_runs :
    ℕ → String → RunType → String → String → String → List Run → ℕ × List Run
unfolding fail_open is_open_run
fail_open_review_runs now artifact_id type error_code summary run_id runs = (
  length (filter (is_open_run artifact_id type run_id) runs),
  map (fail_open now artifact_id type error_code summary run_id) runs,
)
