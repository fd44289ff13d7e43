-- ===== src/Orchestration/Agreement.antt =====
-- The units that orchestration.py works through and those that routing_evaluator.py expects.
use mathlib.Core.Path.{subst}
use astrbot_community_plugin.Prelude.{
  ◌≡◌, refl, sym, ◌⊎◌, inl, inr, List, [], ◌∷◌, ◌++◌, map, Bool-cases, In, In-map, In-map_intro,
  member, member→In, In→member, if◌then◌else◌,
}
use astrbot_community_plugin.Policy.{Stage, stage_eq, RuntimeTarget, ReviewPolicy}
use astrbot_community_plugin.Routing.{
  Expected, runtime_unit, expected_from, expected_units, stage_units as expected_of,
}
use astrbot_community_plugin.Orchestration.Units.{
  StageUnit, stage_phases, target_unit, units_of, phase_units, units_from, stage_units,
}
use astrbot_community_plugin.Orchestration.States.{astrbot_of, python_of}

In-append : {A : Type 0} (xs ys : List A) (a : A) → In a (xs ++ ys) → In a xs ⊎ In a ys
In-append [] ys a m = inr m
In-append (x ∷ xs) ys a (inl e) = inl (inl e)
In-append (x ∷ xs) ys a (inr m) = elim (In-append xs ys a m) [ inl n ↦ inl (inr n) | inr n ↦ inr n ]

In-append_left : {A : Type 0} (xs ys : List A) (a : A) → In a xs → In a (xs ++ ys)
In-append_left [] ys a m = absurd m
In-append_left (x ∷ xs) ys a (inl e) = inl e
In-append_left (x ∷ xs) ys a (inr m) = inr (In-append_left xs ys a m)

In-append_right : {A : Type 0} (xs ys : List A) (a : A) → In a ys → In a (xs ++ ys)
In-append_right [] ys a m = m
In-append_right (x ∷ xs) ys a m = inr (In-append_right xs ys a m)

-- A stage unit and an expected unit with one name, one type of run and one target.
abbrev pub SameUnit : StageUnit → Expected → Type 0
SameUnit unit expected =
    (unit.name ≡ expected.name)
    × (unit.run_type ≡ expected.run_type)
    × (astrbot_of unit.target ≡ expected.astrbot_version)
    × (python_of unit.target ≡ expected.python_version)

module _ (policy : ReviewPolicy) where
  -- A unit of a required stage.
  abbrev pub Required : StageUnit → Type 0
  Required unit =
      (stage : Stage) × In stage policy.required_stages
      × In unit (units_of policy.runtime_targets stage)

  phase_units-Required :
      (stages : List Stage) (unit : StageUnit) → In unit (phase_units policy stages) → Required unit
  unfolding phase_units
  phase_units-Required [] unit m = absurd m
  phase_units-Required (stage ∷ stages) unit m =
      elim (Bool-cases (member stage policy.required_stages)) [
        | inl t ↦
            elim (In-append (units_of policy.runtime_targets stage) (phase_units policy stages) unit
              (rw t at m)) [
                | inl n ↦ (stage, member→In stage policy.required_stages t, n)
                | inr n ↦ phase_units-Required stages unit n
              ]
        | inr f ↦ phase_units-Required stages unit (rw f at m)
      ]

  pub units_from-Required :
      (phases : List (List Stage)) (unit : StageUnit)
      → In unit (units_from policy phases)
      → Required unit
  unfolding units_from
  units_from-Required [] unit m = absurd m
  units_from-Required (phase ∷ phases) unit m =
      elim (In-append (phase_units policy phase) (units_from policy phases) unit m) [
        | inl n ↦ phase_units-Required phase unit n
        | inr n ↦ units_from-Required phases unit n
      ]

  phase_units_intro :
      (stages : List Stage) (stage : Stage) (unit : StageUnit)
      → In stage stages
      → In stage policy.required_stages
      → In unit (units_of policy.runtime_targets stage)
      → In unit (phase_units policy stages)
  unfolding phase_units
  phase_units_intro [] stage unit m r u = absurd m
  phase_units_intro (other ∷ stages) stage unit (inl e) r u =
      rw (← e, In→member stage policy.required_stages r)
        (In-append_left (units_of policy.runtime_targets stage) (phase_units policy stages) unit u)
  phase_units_intro (other ∷ stages) stage unit (inr m) r u =
      In-append_right
        (if member other policy.required_stages then units_of policy.runtime_targets other else [])
        (phase_units policy stages) unit (phase_units_intro stages stage unit m r u)

abbrev pub Placed : Stage → List (List Stage) → Type 0
Placed stage [] = ⊥
Placed stage (phase ∷ phases) = In stage phase ⊎ Placed stage phases

pub units_from_intro :
    (policy : ReviewPolicy) (phases : List (List Stage)) (stage : Stage) (unit : StageUnit)
    → Placed stage phases
    → In stage policy.required_stages
    → In unit (units_of policy.runtime_targets stage)
    → In unit (units_from policy phases)
unfolding units_from
units_from_intro policy [] stage unit m r u = absurd m
units_from_intro policy (phase ∷ phases) stage unit (inl m) r u =
    In-append_left (phase_units policy phase) (units_from policy phases) unit
      (phase_units_intro policy phase stage unit m r u)
units_from_intro policy (phase ∷ phases) stage unit (inr m) r u =
    In-append_right (phase_units policy phase) (units_from policy phases) unit
      (units_from_intro policy phases stage unit m r u)

pub every_stage-Placed : (stage : Stage) → Placed stage stage_phases
unfolding stage_phases
every_stage-Placed Stage.static = inl (inl refl)
every_stage-Placed Stage.diff = inr (inl (inl refl))
every_stage-Placed Stage.import_graph = inr (inr (inl (inl refl)))
every_stage-Placed Stage.clamav = inr (inr (inr (inl (inl refl))))
every_stage-Placed Stage.yara = inr (inr (inr (inl (inr (inl refl)))))
every_stage-Placed Stage.runtime = inr (inr (inr (inr (inl (inl refl)))))
every_stage-Placed Stage.dependency = inr (inr (inr (inr (inr (inl (inl refl))))))
every_stage-Placed Stage.category = inr (inr (inr (inr (inr (inr (inl (inl refl)))))))
every_stage-Placed Stage.llm_package = inr (inr (inr (inr (inr (inr (inr (inl (inl refl))))))))
every_stage-Placed Stage.llm_file = inr (inr (inr (inr (inr (inr (inr (inr (inl (inl refl)))))))))
every_stage-Placed Stage.llm_summary =
    inr (inr (inr (inr (inr (inr (inr (inr (inr (inl (inl refl))))))))))

expected_from-In :
    (targets : List RuntimeTarget) (stages : List Stage) (e : Expected)
    → In e (expected_from targets stages)
    → (stage : Stage) × In stage stages × In e (expected_of targets stage)
unfolding expected_from
expected_from-In targets [] e m = absurd m
expected_from-In targets (stage ∷ stages) e m =
    elim (In-append (expected_of targets stage) (expected_from targets stages) e m) [
      | inl n ↦ (stage, inl refl, n)
      | inr n ↦ let (at, k, u) = expected_from-In targets stages e n in (at, inr k, u)
    ]

expected_from_intro :
    (targets : List RuntimeTarget) (stages : List Stage) (stage : Stage) (e : Expected)
    → In stage stages
    → In e (expected_of targets stage)
    → In e (expected_from targets stages)
unfolding expected_from
expected_from_intro targets [] stage e m u = absurd m
expected_from_intro targets (other ∷ stages) stage e (inl q) u =
    In-append_left (expected_of targets other) (expected_from targets stages) e
      (subst (λ at. In e (expected_of targets at)) q u)
expected_from_intro targets (other ∷ stages) stage e (inr m) u =
    In-append_right (expected_of targets other) (expected_from targets stages) e
      (expected_from_intro targets stages stage e m u)

-- Two lists whose members answer to each other.
abbrev Answered : List StageUnit → List Expected → Type 0
Answered units expected =
    ((unit : StageUnit) → In unit units → (e : Expected) × In e expected × SameUnit unit e)
    × ((e : Expected) → In e expected → (unit : StageUnit) × In unit units × SameUnit unit e)

targets-Answered :
    (targets : List RuntimeTarget) → Answered (map target_unit targets) (map runtime_unit targets)
unfolding target_unit runtime_unit
targets-Answered targets = (
  λ unit m.
      let (target, n, q) = In-map target_unit targets m in
      (
        runtime_unit target,
        In-map_intro runtime_unit targets target n,
        subst (λ u. SameUnit u (runtime_unit target)) (sym q) (refl, refl, refl, refl),
      ),
  λ e m.
      let (target, n, q) = In-map runtime_unit targets m in
      (
        target_unit target,
        In-map_intro target_unit targets target n,
        subst (SameUnit (target_unit target)) (sym q) (refl, refl, refl, refl),
      ),
)

one-Answered : (unit : StageUnit) (e : Expected) → SameUnit unit e → Answered (unit ∷ []) (e ∷ [])
one-Answered unit e same = (
  λ other m. elim m [
    | inl q ↦ (e, inl refl, subst (λ u. SameUnit u e) (sym q) same)
    | inr n ↦ absurd n
  ],
  λ other m. elim m [
    | inl q ↦ (unit, inl refl, subst (SameUnit unit) (sym q) same)
    | inr n ↦ absurd n
  ],
)

stage-Answered :
    (targets : List RuntimeTarget) (stage : Stage)
    → Answered (units_of targets stage) (expected_of targets stage)
unfolding units_of expected_of
stage-Answered targets Stage.runtime = targets-Answered targets
stage-Answered targets stage = one-Answered _ _ (refl, refl, refl, refl)

-- The units that the orchestrator works through and those that routing expects to have run agree:
-- each has one of the same name, type of run and target among the others.
pub stage_units-expected_units :
    (policy : ReviewPolicy)
    → ((unit : StageUnit)
        → In unit (stage_units policy)
        → (e : Expected) × In e (expected_units policy) × SameUnit unit e)
      × ((e : Expected)
          → In e (expected_units policy)
          → (unit : StageUnit) × In unit (stage_units policy) × SameUnit unit e)
unfolding stage_units expected_units
stage_units-expected_units policy = (
  λ unit m.
      let (stage, r, u) = units_from-Required policy stage_phases unit m in
      let (e, n, same) = (stage-Answered policy.runtime_targets stage).0 unit u in
      (e, expected_from_intro policy.runtime_targets policy.required_stages stage e r n, same),
  λ e m.
      let (stage, r, u) = expected_from-In policy.runtime_targets policy.required_stages e m in
      let (unit, n, same) = (stage-Answered policy.runtime_targets stage).1 e u in
      (unit, units_from_intro policy stage_phases stage unit (every_stage-Placed stage) r n, same),
)
