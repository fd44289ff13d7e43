-- ===== src/Policy.antt =====
-- apps/api/app/artifacts/policy.py: the parts of a review policy that orchestration and routing
-- read. `PolicySeverity` has the texts of `FindingSeverity`, and is that type here.
pub mod Validation
use astrbot_community_plugin.Prelude.{
  ℕ, String, Bool, false, ◌||◌, List, [], ◌∷◌, Eq, discrete_eq, leb, ltb, member, is_empty, Result,
  ok, raise_if, ◌>>◌,
}
use astrbot_community_plugin.Prelude.Sorting.{sort}
use astrbot_community_plugin.Lifecycle.Types.{FindingSeverity, RunType}
use astrbot_community_plugin.Lifecycle.{severity_order}

pub data Stage : Type 0 where
  static diff import_graph runtime category clamav yara dependency llm_package llm_file : Stage
  llm_summary : Stage

unfoldable pub Stage-discrete : Discrete Stage
Stage-discrete = hlevel

instance abbrev pub stage_eq : Eq Stage
stage_eq = discrete_eq Stage-discrete

unfoldable pub stage_value : Stage → String
stage_value Stage.static = "static"
stage_value Stage.diff = "diff"
stage_value Stage.import_graph = "import_graph"
stage_value Stage.runtime = "runtime"
stage_value Stage.category = "category"
stage_value Stage.clamav = "clamav"
stage_value Stage.yara = "yara"
stage_value Stage.dependency = "dependency"
stage_value Stage.llm_package = "llm_package"
stage_value Stage.llm_file = "llm_file"
stage_value Stage.llm_summary = "llm_summary"

-- The run type with the text of the stage.
unfoldable pub stage_run_type : Stage → RunType
stage_run_type Stage.static = RunType.static
stage_run_type Stage.diff = RunType.diff
stage_run_type Stage.import_graph = RunType.import_graph
stage_run_type Stage.runtime = RunType.runtime
stage_run_type Stage.category = RunType.category
stage_run_type Stage.clamav = RunType.clamav
stage_run_type Stage.yara = RunType.yara
stage_run_type Stage.dependency = RunType.dependency
stage_run_type Stage.llm_package = RunType.llm_package
stage_run_type Stage.llm_file = RunType.llm_file
stage_run_type Stage.llm_summary = RunType.llm_summary

-- `_STAGE_ORDER`
unfoldable pub stage_order : Stage → ℕ
stage_order Stage.static = 0
stage_order Stage.diff = 1
stage_order Stage.import_graph = 2
stage_order Stage.runtime = 3
stage_order Stage.category = 4
stage_order Stage.clamav = 5
stage_order Stage.yara = 6
stage_order Stage.dependency = 7
stage_order Stage.llm_package = 8
stage_order Stage.llm_file = 9
stage_order Stage.llm_summary = 10

pub data ToolFailureAction : Type 0 where
  manual_review fail_closed : ToolFailureAction

pub record RuntimeTarget : Type 0 where
  pub astrbot : String
  pub python : String

pub record RoutingPolicy : Type 0 where
  pub auto_approve : Bool
  pub manual_review_at : FindingSeverity
  pub deterministic_reject_at : FindingSeverity
  pub degraded_action : ToolFailureAction

-- The stages, targets and routing of a `ReviewPolicyV1`.
pub record ReviewPolicy : Type 0 where
  pub required_stages : List Stage
  pub runtime_targets : List RuntimeTarget
  pub routing : RoutingPolicy

-- `RoutingPolicy.validate_thresholds`
unfoldable pub validate_thresholds : RoutingPolicy → Result String RoutingPolicy
unfolding severity_order
validate_thresholds p = do
  raise_if (ltb (severity_order FindingSeverity.medium) (severity_order p.manual_review_at))
      "manual_review_at cannot be higher than medium"
  raise_if (ltb (severity_order p.deterministic_reject_at) (severity_order FindingSeverity.high))
      "deterministic_reject_at cannot be lower than high"
  raise_if (leb (severity_order p.deterministic_reject_at) (severity_order p.manual_review_at))
      "manual review threshold must be lower than reject threshold"
  ok p

-- `len(set(value)) != len(value)`
unfoldable pub has_duplicates : List Stage → Bool
has_duplicates [] = false
has_duplicates (s ∷ rest) = member s rest || has_duplicates rest

-- `ReviewPolicyV1.normalize_required_stages`
unfoldable pub normalize_required_stages : List Stage → Result String (List Stage)
unfolding has_duplicates stage_order
normalize_required_stages stages = do
  raise_if (is_empty stages) "required_stages cannot be empty"
  raise_if (has_duplicates stages) "required_stages cannot contain duplicates"
  ok (sort (λ a b. leb (stage_order a) (stage_order b)) stages)
