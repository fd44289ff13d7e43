-- ===== src/Orchestration/Coverage.antt =====
-- The units that orchestration.py leads, under a policy that policy.py accepts.
use mathlib.Core.Path.{subst}
use astrbot_community_plugin.Prelude.{
  ◌≡◌, refl, sym, ap, inl, inr, true, false, List, [], ◌∷◌, In, In-map, member, In→member,
  member→In, is_empty, ok,
}
use astrbot_community_plugin.Policy.{RuntimeTarget, Stage, stage_eq, ReviewPolicy}
use astrbot_community_plugin.Policy.Validation.{
  StageSettings, validate_stage_configuration, accepted-has_target, accepted-has_static,
  accepted-has_runtime,
}
use astrbot_community_plugin.Orchestration.Units.{
  StageUnit, stage_phases, units_of, target_unit, stage_units,
}
use astrbot_community_plugin.Orchestration.Agreement.{
  units_from-Required, units_from_intro, every_stage-Placed,
}

-- The units of a stage: all of the stage, and at least one.
units_of-stage :
    (targets : List RuntimeTarget) (stage : Stage) (unit : StageUnit)
    → In unit (units_of targets stage)
    → unit.stage ≡ stage
unfolding units_of target_unit
units_of-stage targets Stage.runtime unit m =
    let (target, n, q) = In-map target_unit targets m in ap (λ (u : StageUnit). u.stage) q
units_of-stage targets stage unit m = elim m [
  | inl q ↦ ap (λ (u : StageUnit). u.stage) q
  | inr n ↦ absurd n
]

units_of_nonempty :
    (targets : List RuntimeTarget) (stage : Stage)
    → (stage ≡ Stage.runtime → is_empty targets ≡ false)
    → (unit : StageUnit) × In unit (units_of targets stage)
unfolding units_of
units_of_nonempty [] Stage.runtime h = cc (h refl)
units_of_nonempty (target ∷ targets) Stage.runtime h = (target_unit target, inl refl)
units_of_nonempty targets stage h = (_, inl refl)

stage-units :
    (policy : ReviewPolicy)
    → (member Stage.runtime policy.required_stages ≡ true → is_empty policy.runtime_targets ≡ false)
    → (stage : Stage) → In stage policy.required_stages
    → (unit : StageUnit) × (In unit (stage_units policy)) × (unit.stage ≡ stage)
unfolding stage_units
stage-units policy h stage r =
    let (unit, m) = units_of_nonempty policy.runtime_targets stage (λ q. h (
      In→member Stage.runtime policy.required_stages
        (subst (λ s. In s policy.required_stages) q r))) in
    (
      unit,
      units_from_intro policy stage_phases stage unit (every_stage-Placed stage) r m,
      units_of-stage policy.runtime_targets stage unit m,
    )

unit-required :
    (policy : ReviewPolicy) (unit : StageUnit)
    → In unit (stage_units policy)
    → In unit.stage policy.required_stages
unfolding stage_units
unit-required policy unit m =
    let (stage, r, n) = units_from-Required policy stage_phases unit m in
    subst (λ s. In s policy.required_stages)
      (sym (units_of-stage policy.runtime_targets stage unit n)) r

-- Under a policy that its validation accepts, the units that are led cover the policy: every required
-- stage has a unit, every unit is of a required stage, the static scan is among them, and so is the
-- runtime test where the policy approves automatically.
pub accepted_policy_covered :
    (settings : StageSettings) (policy : ReviewPolicy)
    → validate_stage_configuration settings policy ≡ ok policy
    → ((stage : Stage)
        → In stage policy.required_stages
        → (unit : StageUnit) × In unit (stage_units policy) × (unit.stage ≡ stage))
      × ((unit : StageUnit) → In unit (stage_units policy) → In unit.stage policy.required_stages)
      × ((unit : StageUnit) × In unit (stage_units policy) × (unit.stage ≡ Stage.static))
      × (policy.routing.auto_approve ≡ true
          → (unit : StageUnit) × In unit (stage_units policy) × (unit.stage ≡ Stage.runtime))
accepted_policy_covered settings policy v =
    let with_unit = stage-units policy (accepted-has_target settings policy v) in
    let of_member : (stage : Stage)
        → member stage policy.required_stages ≡ true
        → (unit : StageUnit) × In unit (stage_units policy) × (unit.stage ≡ stage) =
      λ stage m. with_unit stage (member→In stage policy.required_stages m) in
    (
      with_unit,
      unit-required policy,
      of_member Stage.static (accepted-has_static settings policy v),
      λ auto. of_member Stage.runtime (accepted-has_runtime settings policy v auto),
    )
