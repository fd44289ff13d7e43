-- ===== src/Orchestration/Steps.antt =====
-- One unit in the stage loop of reconcile of orchestration.py: what the local state keeps, and where
-- the jobs come from.
use mathlib.Core.Path.{subst}
use astrbot_community_plugin.Prelude.{
  ℕ, String, ◌≡◌, ◌≢◌, refl, sym, ap, ◌∙◌, ◌⊎◌, inl, inr, Bool, true, not, Option, none, some, List,
  [], ◌∷◌, map, arith, if-cases, In, is_empty, not-false, ◌=/=◌, nat_eq, string_eq, Result, ok,
  >>=-eq-ok, raise_if-then, ok-injective, if◌then◌else◌,
}
use astrbot_community_plugin.Prelude.Dict.{In-put}
use astrbot_community_plugin.Json.{Object}
use astrbot_community_plugin.Lifecycle.{ArtifactError}
use astrbot_community_plugin.Policy.{Stage, stage_eq, ReviewPolicy}
use astrbot_community_plugin.Repository.Rows.{Artifact, Run, Job, Repository}
use astrbot_community_plugin.Repository.{get_artifact, text_or_none}
use astrbot_community_plugin.Repository.Jobs.{
  job_key, JobRequest, bind_request, new_job, job_with_key, enqueue_job,
}
use astrbot_community_plugin.Repository.Jobs.Invariant.{IsValid, enqueue_cases, enqueue_job-IsValid}
use astrbot_community_plugin.Orchestration.Units.{
  StageState, stage_state_eq, Snapshot, StageUnit, stage_units,
}
use astrbot_community_plugin.Orchestration.States.{NamedState, state_of, upstream_reason}
use astrbot_community_plugin.Orchestration.Requests.{synthetic_request, stage_job_request}
use astrbot_community_plugin.Orchestration.Completions.{NoneCompleted, mark-NoneCompleted}
use astrbot_community_plugin.Orchestration.{
  Progress, noted, listed, started, tool_snapshot, record_outcome, start_unit, act_unit, act_units,
}
use astrbot_community_plugin.Repository.Runs.{
  RunRequest, run_with_key, other_request, run_policy, create_run_found, create_keyed,
  create_review_run,
}

-- The jobs after an accepted request: the same ones, or with one of the request's type and stage.
pub enqueue-jobs :
    (now : ℕ) (fresh : String) (q : JobRequest) (r : Repository) {j : Job} {s : Repository}
    (k : Job)
    → enqueue_job now fresh q r ≡ ok (j, s)
    → In k s.jobs
    → In k r.jobs ⊎ ((k.type ≡ q.type) × (k.stage_name ≡ q.stage_name))
unfolding enqueue_job
enqueue-jobs now fresh q r {j} {s} k e m =
    let (bound, b, l) = >>=-eq-ok (bind_request q r) _ e in
    elim (enqueue_cases now fresh q r bound (job_with_key q.idempotency_key r.jobs) l) [
      | inl (f, t, u) ↦ inl (subst (λ x. In k x.jobs) u m)
      | inr (f, t, u) ↦ elim (In-put job_key j r.jobs k (subst (λ x. In k x.jobs) u m)) [
        | inl p ↦ inr (made (p ∙ t))
        | inr n ↦ inl n
      ]
    ]
  where
    made :
        {bound : Option String × Object}
        → k ≡ new_job now fresh q bound
        → (k.type ≡ q.type) × (k.stage_name ≡ q.stage_name)
    made p = unfold new_job in (ap (λ (x : Job). x.type) p, ap (λ (x : Job). x.stage_name) p)

create_run_found-jobs :
    (now : ℕ) (fresh : String) (q : RunRequest) (r : Repository) (policy : Option String)
    (found : Option Run) {run : Run} {s : Repository}
    → create_run_found now fresh q r policy found ≡ ok (run, s)
    → s.jobs ≡ r.jobs
unfolding create_run_found
create_run_found-jobs now fresh q r policy (some k) e = ground arith
create_run_found-jobs now fresh q r policy none e = ap (λ p. p.1.jobs) (sym (ok-injective e))

create_review_run-jobs :
    (now : ℕ) (fresh : String) (q : RunRequest) (r : Repository) {run : Run} {s : Repository}
    → create_review_run now fresh q r ≡ ok (run, s)
    → s.jobs ≡ r.jobs
unfolding create_review_run create_keyed
create_review_run-jobs now fresh q r e =
    let found : Option Run = run_with_key (text_or_none q.idempotency_key) r.runs in
    let (f, k) = raise_if-then (other_request q found) _ _ e in
    let (policy, g, l) = >>=-eq-ok (run_policy q (get_artifact q.artifact_id r)) _ k in
    create_run_found-jobs now fresh q r policy found l

-- A job of a unit of the policy whose stage has the property.
abbrev pub FromUnit : ReviewPolicy → (Stage → Type 0) → Job → Type 0
FromUnit policy Allowed job =
    (unit : StageUnit) × In unit (stage_units policy)
    × (job.type ≡ unit.job_type)
    × (job.stage_name ≡ unit.name)
    × Allowed unit.stage

-- What holds of the local state of `reconcile` at every step of its stage loop.
pub record Sound (policy : ReviewPolicy) (Allowed : Stage → Type 0) (initial : List NamedState)
    (before : List Job) (p : Progress) : Type 0 where
  pub none_completed : NoneCompleted initial p.states
  pub jobs_from :
      (job : Job) → In job p.repository.jobs → In job before ⊎ FromUnit policy Allowed job
  pub valid : IsValid before → IsValid p.repository.jobs

noted-Sound :
    {policy : ReviewPolicy} {Allowed : Stage → Type 0} {initial : List NamedState}
    {before : List Job} (unit : StageUnit) (state : StageState) (p : Progress)
    (call : Run × Repository)
    → state ≢ StageState.completed
    → call.1.jobs ≡ p.repository.jobs
    → Sound policy Allowed initial before p
    → Sound policy Allowed initial before (noted unit state p call)
unfolding noted
noted-Sound {initial = initial} unit state p call n j s = record {
  none_completed = mark-NoneCompleted unit state initial p.states n s.none_completed;
  jobs_from = λ job m. s.jobs_from job (subst (λ jobs. In job jobs) j m);
  valid = λ v. subst IsValid (sym j) (s.valid v);
}

started-Sound :
    {policy : ReviewPolicy} {Allowed : Stage → Type 0} {initial : List NamedState}
    {before : List Job} (unit : StageUnit) (p : Progress) (call : Job × Repository)
    → In unit (stage_units policy)
    → Allowed unit.stage
    → ((job : Job)
        → In job call.1.jobs
        → In job p.repository.jobs ⊎ ((job.type ≡ unit.job_type) × (job.stage_name ≡ unit.name)))
    → (IsValid p.repository.jobs → IsValid call.1.jobs)
    → Sound policy Allowed initial before p
    → Sound policy Allowed initial before (started unit p call)
unfolding started listed
started-Sound {initial = initial} unit p call u c j k s = record {
  none_completed =
      mark-NoneCompleted unit StageState.running initial p.states (λ e. cc e) s.none_completed;
  jobs_from =
      λ job m. elim (j job m) [ inl n ↦ s.jobs_from job n | inr (t, n) ↦ inr (unit, u, t, n, c) ];
  valid = λ v. k (s.valid v);
}

module _ (sha256 : String → String) (canonical_json : Object → String)
    (tools : Stage → Option Snapshot) (now : ℕ) (fresh : ℕ → String) (a : Artifact)
    (policy_id : String) (policy : ReviewPolicy) (Allowed : Stage → Type 0)
    (initial : List NamedState) (before : List Job) where
  abbrev Holds : Progress → Type 0
  Holds = Sound policy Allowed initial before

  record_outcome-Sound :
      (unit : StageUnit) (state : StageState) (reason : String) (upstream : List NamedState)
      (p : Progress) {q : Progress}
      → state ≢ StageState.completed
      → Holds p
      → record_outcome sha256 canonical_json tools now fresh a policy_id unit state reason upstream
          p
        ≡ ok q
      → Holds q
  unfolding record_outcome
  record_outcome-Sound unit state reason upstream p n s e =
      let request : RunRequest =
        synthetic_request sha256 canonical_json a policy_id unit
          (tool_snapshot sha256 canonical_json tools now fresh unit.stage) state reason upstream in
      let (call, c, f) =
        >>=-eq-ok (create_review_run now (fresh p.calls) request p.repository)
          (λ call. ok (noted unit state p call)) e in
      subst Holds (ok-injective f) (
        noted-Sound unit state p call n
          (create_review_run-jobs now (fresh p.calls) request p.repository c) s)

  stage_jobs :
      (unit : StageUnit) (tool : Snapshot) (jobs : List Job) (job : Job)
      → In job jobs
        ⊎ ((job.type ≡ (stage_job_request sha256 canonical_json a policy_id unit tool).type)
            × (job.stage_name
                ≡ (stage_job_request sha256 canonical_json a policy_id unit tool).stage_name))
      → In job jobs ⊎ ((job.type ≡ unit.job_type) × (job.stage_name ≡ unit.name))
  unfolding stage_job_request
  stage_jobs unit tool jobs job h = h

  start_unit-Sound :
      (unit : StageUnit) (p : Progress) {q : Progress}
      → In unit (stage_units policy)
      → Allowed unit.stage
      → Holds p
      → start_unit sha256 canonical_json tools now fresh a policy_id unit p ≡ ok q
      → Holds q
  unfolding start_unit
  start_unit-Sound unit p u c s e =
      let request : JobRequest =
        stage_job_request sha256 canonical_json a policy_id unit
          (tool_snapshot sha256 canonical_json tools now fresh unit.stage) in
      let (call, k, f) =
        >>=-eq-ok (enqueue_job now (fresh p.calls) request p.repository)
          (λ call. ok (started unit p call)) e in
      subst Holds (ok-injective f) (
        started-Sound unit p call u c
          (λ job m.
            stage_jobs unit (tool_snapshot sha256 canonical_json tools now fresh unit.stage) _ job
              (enqueue-jobs now (fresh p.calls) request p.repository job k m))
          (enqueue_job-IsValid now (fresh p.calls) request p.repository k) s)

  act_unit-Sound :
      (blocking : List NamedState) (unit : StageUnit) (p : Progress) {q : Progress}
      → In unit (stage_units policy)
      → (is_empty blocking ≡ true → Allowed unit.stage)
      → Holds p
      → act_unit sha256 canonical_json tools now fresh a policy_id blocking unit p ≡ ok q
      → Holds q
  unfolding act_unit
  act_unit-Sound blocking unit p u c s e =
      let skip : Result ArtifactError Progress =
        record_outcome sha256 canonical_json tools now fresh a policy_id unit StageState.skipped
          (upstream_reason (map (λ entry. entry.state) blocking)) blocking p in
      let degrade : Result ArtifactError Progress =
        record_outcome sha256 canonical_json tools now fresh a policy_id unit StageState.degraded
          "stage_tool_unavailable" [] p in
      let start : Result ArtifactError Progress =
        start_unit sha256 canonical_json tools now fresh a policy_id unit p in
      let ready : Bool = (tool_snapshot sha256 canonical_json tools now fresh unit.stage).ready in
      elim (if-cases (state_of unit.name p.states =/= StageState.pending) (ok p)
        (if not (is_empty blocking) then skip else if not ready then degrade else start) e) [
          | inl (t, f) ↦ subst Holds (ok-injective f) s
          | inr (t, f) ↦
              elim (if-cases (not (is_empty blocking)) skip (if not ready then degrade else start)
                f) [
                  | inl (b, g) ↦
                      record_outcome-Sound unit StageState.skipped
                        (upstream_reason (map (λ entry. entry.state) blocking)) blocking p
                        (λ k. cc k) s g
                  | inr (b, g) ↦ elim (if-cases (not ready) degrade start g) [
                    | inl (d, h) ↦
                        record_outcome-Sound unit StageState.degraded "stage_tool_unavailable" [] p
                          (λ k. cc k) s h
                    | inr (d, h) ↦
                        start_unit-Sound unit p u (c (not-false (is_empty blocking) b)) s h
                  ]
                ]
        ]

  pub act_units-Sound :
      (blocking : List NamedState) (units : List StageUnit) (p : Progress) {q : Progress}
      → ((unit : StageUnit) → In unit units → In unit (stage_units policy))
      → (is_empty blocking ≡ true → (unit : StageUnit) → In unit units → Allowed unit.stage)
      → Holds p
      → act_units sha256 canonical_json tools now fresh a policy_id blocking units p ≡ ok q
      → Holds q
  unfolding act_units
  act_units-Sound blocking [] p u c s e = subst Holds (ok-injective e) s
  act_units-Sound blocking (unit ∷ units) p u c s e =
      let (m, f, g) =
        >>=-eq-ok (act_unit sha256 canonical_json tools now fresh a policy_id blocking unit p) _
          e in
      act_units-Sound blocking units m (λ k n. u k (inr n)) (λ b k n. c b k (inr n))
        (act_unit-Sound blocking unit p (u unit (inl refl)) (λ b. c b unit (inl refl)) s f) g
