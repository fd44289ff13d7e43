-- ===== src/Policy/Validation.antt =====
-- ReviewPolicyV1.validate_stage_configuration and _validate_auto_approve of
-- apps/api/app/artifacts/policy.py: which stages a policy may require.
use astrbot_community_plugin.Prelude.{
  String, ◌≡◌, Bool, true, false, not, Option, none, some, ◌&&◌, ◌||◌, List, [], ◌∷◌, ◌++◌, map,
  member, filter, is_empty, Result, ok, raise_if, raise_if-then, >>=-eq-ok, ◌>>◌, if◌then◌else◌,
  ◌==◌, string_eq, arith,
}
use astrbot_community_plugin.Prelude.Text.{◌<>◌, text_le, join}
use astrbot_community_plugin.Prelude.Sorting.{sort}
use astrbot_community_plugin.Policy.{Stage, stage_eq, stage_value, ReviewPolicy}

-- What the configuration of the stages needs of the other parts of a policy: `category.enabled`,
-- `malware.clamav`, `malware.yara_ruleset`, `dependency.enabled`, `llm.enabled` and
-- `routing.require_complete_coverage`.
pub record StageSettings : Type 0 where
  pub category_enabled : Bool
  pub clamav : Bool
  pub yara_ruleset : Option String
  pub dependency_enabled : Bool
  pub llm_enabled : Bool
  pub require_complete_coverage : Bool

-- `bool(malware.yara_ruleset)`
abbrev pub has_ruleset : StageSettings → Bool
has_ruleset settings = elim settings.yara_ruleset [ none ↦ false | some name ↦ not (name == "") ]

-- `a <= b` on sets of stages.
abbrev is_subset : List Stage → List Stage → Bool
is_subset stages required = is_empty (filter (λ stage. not (member stage required)) stages)

-- `enabled_gates` of `_validate_auto_approve`, each gate once.
unfoldable pub enabled_gates : StageSettings → List Stage
enabled_gates settings =
    (if settings.dependency_enabled then Stage.dependency ∷ [] else [])
    ++ (if settings.clamav then Stage.clamav ∷ [] else [])
    ++ (if has_ruleset settings then Stage.yara ∷ [] else [])
    ++ (if settings.llm_enabled
        then Stage.llm_package ∷ Stage.llm_file ∷ Stage.llm_summary ∷ []
        else [])

unfoldable pub validate_auto_approve : StageSettings → List Stage → Result String (Unit {0})
unfolding enabled_gates stage_value
validate_auto_approve settings required =
    let missing : List Stage =
      filter (λ stage. not (member stage required)) (enabled_gates settings) in
    do
      raise_if (not (member Stage.runtime required))
          "auto approve requires runtime as a required stage"
      raise_if (not (is_empty missing)) (
          "auto approve requires enabled review gates: "
          <> join ", " (sort text_le (map stage_value missing)))
      raise_if (not settings.require_complete_coverage)
          "auto approve requires complete review coverage"

-- The raises of `validate_stage_configuration` before the one on automatic approval, in order.
unfoldable pub validate_stages : StageSettings → ReviewPolicy → Result String (Unit {0})
validate_stages settings policy =
    let needs : Stage → Bool = λ stage. member stage policy.required_stages in
    do
      raise_if (not (needs Stage.static)) "static must be a required stage"
      raise_if (needs Stage.runtime && is_empty policy.runtime_targets)
          "required runtime stage needs at least one exact runtime target"
      raise_if (needs Stage.category && not settings.category_enabled)
          "required category stage must be enabled"
      raise_if (needs Stage.clamav && not settings.clamav) "required ClamAV stage must be enabled"
      raise_if (needs Stage.yara && not (has_ruleset settings))
          "required YARA stage needs a ruleset"
      raise_if (needs Stage.dependency && not settings.dependency_enabled)
          "required dependency stage must be enabled"
      raise_if
          ((needs Stage.llm_package || needs Stage.llm_file || needs Stage.llm_summary)
            && not settings.llm_enabled)
          "required LLM stages need LLM review enabled"
      raise_if (needs Stage.llm_file && not (needs Stage.llm_package))
          "required llm_file stage needs llm_package"
      raise_if
          (needs Stage.llm_summary
            && not (is_subset (Stage.llm_package ∷ Stage.llm_file ∷ []) policy.required_stages))
          "required llm_summary stage needs llm_package and llm_file"
      raise_if (needs Stage.import_graph && not (needs Stage.diff))
          "required import_graph stage needs diff"

-- `ReviewPolicyV1.validate_stage_configuration`
unfoldable pub validate_stage_configuration :
    StageSettings → ReviewPolicy → Result String ReviewPolicy
unfolding validate_stages validate_auto_approve
validate_stage_configuration settings policy = do
  validate_stages settings policy
  if policy.routing.auto_approve
      then validate_auto_approve settings policy.required_stages
      else ok tt
  ok policy

no_target : (b c : Bool) → (b && c) ≡ false → b ≡ true → c ≡ false
no_target b c h t = ground arith

-- A policy that is accepted has a target for its runtime stage.
pub accepted-has_target :
    (settings : StageSettings) (policy : ReviewPolicy)
    → validate_stage_configuration settings policy ≡ ok policy
    → member Stage.runtime policy.required_stages ≡ true
    → is_empty policy.runtime_targets ≡ false
unfolding validate_stage_configuration validate_stages
accepted-has_target settings policy e m =
    let (u, a, _) = >>=-eq-ok (validate_stages settings policy) _ e in
    let (_, b) = raise_if-then (not (member Stage.static policy.required_stages)) _ _ a in
    let (c, _) =
      raise_if-then (member Stage.runtime policy.required_stages && is_empty policy.runtime_targets)
        _ _ b in
    no_target (member Stage.runtime policy.required_stages) (is_empty policy.runtime_targets) c m

of_not : (b : Bool) → not b ≡ false → b ≡ true
of_not b h = ground arith

-- A policy that is accepted requires the static scan, and the runtime test where it approves
-- automatically.
pub accepted-has_static :
    (settings : StageSettings) (policy : ReviewPolicy)
    → validate_stage_configuration settings policy ≡ ok policy
    → member Stage.static policy.required_stages ≡ true
unfolding validate_stage_configuration validate_stages
accepted-has_static settings policy e =
    let (u, a, _) = >>=-eq-ok (validate_stages settings policy) _ e in
    let (c, _) = raise_if-then (not (member Stage.static policy.required_stages)) _ _ a in
    of_not (member Stage.static policy.required_stages) c

pub accepted-has_runtime :
    (settings : StageSettings) (policy : ReviewPolicy)
    → validate_stage_configuration settings policy ≡ ok policy
    → policy.routing.auto_approve ≡ true
    → member Stage.runtime policy.required_stages ≡ true
unfolding validate_stage_configuration validate_auto_approve
accepted-has_runtime settings policy e auto =
    let (u, _, b) = >>=-eq-ok (validate_stages settings policy) _ e in
    let (_, c, _) =
      >>=-eq-ok
        (if policy.routing.auto_approve
          then validate_auto_approve settings policy.required_stages
          else ok tt)
        _ b in
    let (d, _) =
      raise_if-then (not (member Stage.runtime policy.required_stages)) _ _ (rw auto at c) in
    of_not (member Stage.runtime policy.required_stages) d
