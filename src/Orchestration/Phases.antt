-- ===== src/Orchestration/Phases.antt =====
-- The stage loop of reconcile of orchestration.py, stage by stage and phase by phase.
use mathlib.Core.Path.{subst}
use astrbot_community_plugin.Prelude.{
  ℕ, ◌+◌, ◌≤◌, String, ◌≡◌, refl, sym, ap, ◌⊎◌, inl, inr, Bool, true, false, not, ◌&&◌, Option,
  List, [], ◌∷◌, ◌++◌, map, arith, Bool-cases, if-cases, In, In-map_intro, In-filter,
  In-filter_intro, member, member→In, filter, is_empty, all, all-elim, &&-true, ◌==◌, ◌=/=◌, nat_eq,
  string_eq, ==→≡, ltb, ok, >>=-eq-ok, ok-injective,
}
use astrbot_community_plugin.Json.{Object}
use astrbot_community_plugin.Policy.{Stage, stage_eq, stage_value, ReviewPolicy}
use astrbot_community_plugin.Repository.Rows.{Artifact, Job, Repository}
use astrbot_community_plugin.Orchestration.Units.{
  StageState, stage_state_eq, is_terminal_state, Snapshot, StageUnit, stage_phases, stage_phase,
  stage_units,
}
use astrbot_community_plugin.Orchestration.States.{
  NamedState, state_key, units_at, aggregate_stage_state,
}
use astrbot_community_plugin.Orchestration.Completions.{NoneCompleted, aggregate-earlier}
use astrbot_community_plugin.Orchestration.{
  is_settled, Progress, dependency_states, act_units, act_stage, act_phase, act_phases,
  begin_progress, advance,
}
use astrbot_community_plugin.Orchestration.Steps.{Sound, act_units-Sound}

-- Nothing before the stage `dep` is held up by it, or its units had completed at the begin.
abbrev pub Cleared : ReviewPolicy → Stage → List NamedState → Stage → Type 0
Cleared policy dep initial stage =
    (stage_phase stage ≤ stage_phase dep)
    ⊎ (aggregate_stage_state dep (stage_units policy) initial ≡ StageState.completed)

below : (m n phase : ℕ) → m ≡ phase → ltb n phase ≡ false → m ≤ n
below m n phase q f = ground arith

all_pass :
    {A : Type 0} (p : A → Bool) (xs : List A) {a : A}
    → is_empty (filter (λ x. not (p x)) xs) ≡ true
    → In a xs
    → p a ≡ true
all_pass p xs {a} h m = elim (Bool-cases (p a)) [
  | inl t ↦ t
  | inr f ↦
      absurd (
        none_in a (filter (λ x. not (p x)) xs) h (In-filter_intro (λ x. not (p x)) xs m (ap not f)))
]
  where
    none_in : {A : Type 0} (a : A) (xs : List A) → is_empty xs ≡ true → ¬ In a xs
    none_in a [] h m = m
    none_in a (x ∷ xs) h m = cc

-- Without a dependency that ended otherwise than completed, an earlier stage has completed.
pub stage_clear :
    (policy : ReviewPolicy) (dep : Stage) (initial : List NamedState) (phase : ℕ) (stage : Stage)
    (p : Progress)
    → member dep policy.required_stages ≡ true
    → stage_phase stage ≡ phase
    → NoneCompleted initial p.states
    → is_empty (
        filter
          (λ entry. entry.state =/= StageState.completed)
          (dependency_states policy.required_stages phase (stage_units policy) p.states))
      ≡ true
    → Cleared policy dep initial stage
unfolding dependency_states
stage_clear policy dep initial phase stage p d q s b =
    elim (Bool-cases (ltb (stage_phase dep) phase)) [
      | inr f ↦ inl (below (stage_phase stage) (stage_phase dep) phase q f)
      | inl t ↦ inr (
          aggregate-earlier dep (stage_units policy) initial p.states s (
            ==→≡ _ StageState.completed (
              all_pass (λ (entry : NamedState). entry.state == StageState.completed) _ b
                (In-map_intro
                  (λ stage. record {
                    name = stage_value stage;
                    state = aggregate_stage_state stage (stage_units policy) p.states;
                  })
                  (filter (λ stage. ltb (stage_phase stage) phase) policy.required_stages) dep
                  (In-filter_intro (λ stage. ltb (stage_phase stage) phase) policy.required_stages
                    (member→In dep policy.required_stages d) t)))))
    ]

-- The stages of each phase of the list have its number.
abbrev phases_at : ℕ → List (List Stage) → Bool
phases_at phase [] = true
phases_at phase (stages ∷ rest) =
    all (λ stage. stage_phase stage == phase) stages && phases_at (phase + 1) rest

phases_right : phases_at 0 stage_phases ≡ true
unfolding stage_phases stage_phase
phases_right = refl

module _ (sha256 : String → String) (canonical_json : Object → String)
    (tools : Stage → Option Snapshot) (now : ℕ) (fresh : ℕ → String) (a : Artifact)
    (policy_id : String) (policy : ReviewPolicy) (Allowed : Stage → Type 0)
    (initial : List NamedState) (before : List Job) where
  abbrev Holds : Progress → Type 0
  Holds = Sound policy Allowed initial before

  module _
      (clear : (phase : ℕ) (stage : Stage) (p : Progress)
        → stage_phase stage ≡ phase
        → NoneCompleted initial p.states
        → is_empty (
            filter
              (λ entry. entry.state =/= StageState.completed)
              (dependency_states policy.required_stages phase (stage_units policy) p.states))
          ≡ true
        → Allowed stage) where
    act_stage-Sound :
        (phase : ℕ) (stage : Stage) (p : Progress) {q : Progress}
        → stage_phase stage ≡ phase
        → Holds p
        → act_stage sha256 canonical_json tools now fresh a policy_id policy phase stage p ≡ ok q
        → Holds q
    unfolding act_stage units_at
    act_stage-Sound phase stage p h s e =
        let units : List StageUnit = stage_units policy in
        let dependencies : List NamedState =
          dependency_states policy.required_stages phase units p.states in
        let incomplete : List NamedState =
          filter (λ entry. not (is_terminal_state entry.state)) dependencies in
        let blocking : List NamedState =
          filter (λ entry. entry.state =/= StageState.completed) dependencies in
        elim (if-cases (not (is_empty incomplete))
          (ok (record p { waiting = p.waiting ++ map state_key incomplete }))
          (act_units sha256 canonical_json tools now fresh a policy_id blocking
            (units_at stage units) p)
          e) [
            | inl (t, f) ↦ subst Holds (ok-injective f) (record {
              none_completed = s.none_completed;
              jobs_from = s.jobs_from;
              valid = s.valid;
            })
            | inr (t, f) ↦
                act_units-Sound sha256 canonical_json tools now fresh a policy_id policy Allowed
                  initial before blocking (units_at stage units) p
                  (λ unit m. (In-filter (λ unit. unit.stage == stage) units m).0)
                  (λ b unit m.
                    subst (λ at. Allowed at)
                      (sym
                        (==→≡ unit.stage stage (In-filter (λ unit. unit.stage == stage) units m).1))
                      (clear phase stage p h s.none_completed b))
                  s f
          ]

    act_phase-Sound :
        (phase : ℕ) (stages : List Stage) (p : Progress) {q : Progress}
        → ((stage : Stage) → In stage stages → stage_phase stage ≡ phase)
        → Holds p
        → act_phase sha256 canonical_json tools now fresh a policy_id policy phase stages p ≡ ok q
        → Holds q
    unfolding act_phase
    act_phase-Sound phase [] p h s e = subst Holds (ok-injective e) s
    act_phase-Sound phase (stage ∷ stages) p h s e =
        let (m, f, g) =
          >>=-eq-ok
            (act_stage sha256 canonical_json tools now fresh a policy_id policy phase stage p)
            (act_phase sha256 canonical_json tools now fresh a policy_id policy phase stages) e in
        act_phase-Sound phase stages m (λ k n. h k (inr n))
          (act_stage-Sound phase stage p (h stage (inl refl)) s f) g

    act_phases-Sound :
        (phase : ℕ) (phases : List (List Stage)) (p : Progress) {q : Progress}
        → phases_at phase phases ≡ true
        → Holds p
        → act_phases sha256 canonical_json tools now fresh a policy_id policy phase phases p ≡ ok q
        → Holds q
    unfolding act_phases
    act_phases-Sound phase [] p h s e = subst Holds (ok-injective e) s
    act_phases-Sound phase (stages ∷ rest) p h s e =
        let required : List Stage = filter (λ stage. member stage policy.required_stages) stages in
        let (m, f, g) =
          >>=-eq-ok
            (act_phase sha256 canonical_json tools now fresh a policy_id policy phase required p)
            (act_phases sha256 canonical_json tools now fresh a policy_id policy (phase + 1) rest)
            e in
        let (here, there) = &&-true _ _ h in
        act_phases-Sound (phase + 1) rest m there
          (act_phase-Sound phase required p
            (λ stage n. ==→≡ (stage_phase stage) phase (
              all-elim (λ stage. stage_phase stage == phase) stages here
                (In-filter (λ stage. member stage policy.required_stages) stages n).0))
            s f)
          g

    pub advance-Sound :
        (r : Repository) {q : Progress}
        → Holds (begin_progress sha256 canonical_json tools now fresh a policy_id policy r)
        → advance sha256 canonical_json tools now fresh a policy_id policy r ≡ ok q
        → Holds q
    unfolding advance
    advance-Sound r s e =
        let p : Progress =
          begin_progress sha256 canonical_json tools now fresh a policy_id policy r in
        elim (if-cases (is_settled a.review_status) (ok p)
          (act_phases sha256 canonical_json tools now fresh a policy_id policy 0 stage_phases p)
          e) [
            | inl (t, f) ↦ subst Holds (ok-injective f) s
            | inr (t, f) ↦ act_phases-Sound 0 stage_phases p phases_right s f
          ]
