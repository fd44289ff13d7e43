-- ===== src/Orchestration/Readiness.antt =====
-- Which jobs reconcile of orchestration.py leaves: those that were there, jobs of units behind
-- completed stages, and the route job once every unit has ended.
use mathlib.Core.Path.{subst}
use astrbot_community_plugin.Prelude.{
  ℕ, String, ◌≡◌, sym, ap, ◌∙◌, ◌⊎◌, inl, inr, Bool, true, false, not, ◌&&◌, Option, some, List,
  arith, Option-cases, if-cases, In, member, &&-true, ◌==◌, nat_eq, string_eq, Result, ok, err,
  >>=-eq-ok, ok-injective, ◌>>=◌,
}
use astrbot_community_plugin.Json.{Object}
use astrbot_community_plugin.Lifecycle.Types.{JobType}
use astrbot_community_plugin.Lifecycle.{ArtifactError, value_error}
use astrbot_community_plugin.Policy.{Stage, stage_eq, ReviewPolicy}
use astrbot_community_plugin.Repository.Rows.{Artifact, Job, Repository}
use astrbot_community_plugin.Repository.{get_artifact, text_of}
use astrbot_community_plugin.Repository.Jobs.{JobRequest, enqueue_job}
use astrbot_community_plugin.Repository.Jobs.Invariant.{IsValid, enqueue_job-IsValid}
use astrbot_community_plugin.Orchestration.Units.{stage_state_eq, Snapshot}
use astrbot_community_plugin.Orchestration.States.{NamedState}
use astrbot_community_plugin.Orchestration.Requests.{route_request}
use astrbot_community_plugin.Orchestration.{
  is_settled, OrchestrationResult, Progress, all_terminal, begin_progress, advance, routed,
  unrouted, conclude, reconcile_under, reconcile_found, reconcile,
}
use astrbot_community_plugin.Orchestration.Steps.{FromUnit, Sound, enqueue-jobs}
use astrbot_community_plugin.Orchestration.Phases.{Cleared, stage_clear, advance-Sound}

not-true : (b : Bool) → not b ≡ true → b ≡ false
not-true b h = ground arith

module _ (sha256 : String → String) (canonical_json : Object → String)
    (tools : Stage → Option Snapshot) (now : ℕ) (fresh : ℕ → String) where
  -- What follows the lookup of an artifact with a policy.
  pub reconcile-cases :
      (policies : String → Option ReviewPolicy) (artifact_id : String) (r : Repository)
      (a : Artifact) (policy : ReviewPolicy) {out : OrchestrationResult × Repository}
      → get_artifact artifact_id r ≡ some a
      → policies (text_of a.policy_version_id) ≡ some policy
      → reconcile sha256 canonical_json tools now fresh policies artifact_id r ≡ ok out
      → (p : Progress) × (advance sha256 canonical_json tools now fresh a
            (text_of a.policy_version_id)
            policy
            r
          ≡ ok p)
        × (conclude sha256 canonical_json tools now fresh a (text_of a.policy_version_id) policy p
            ≡ ok out)
  unfolding reconcile reconcile_found reconcile_under
  reconcile-cases policies artifact_id r a policy {out} g h e =
      let policy_id : String = text_of a.policy_version_id in
      let found : reconcile_found sha256 canonical_json tools now fresh policies r (some a)
          ≡ ok out =
        sym (ap (reconcile_found sha256 canonical_json tools now fresh policies r) g) ∙ e in
      elim (if-cases (policy_id == "") (err (value_error "review_policy_unavailable"))
        (reconcile_under sha256 canonical_json tools now fresh a policy_id (policies policy_id) r)
        found) [
          | inl (t, f) ↦ cc f
          | inr (t, f) ↦
              >>=-eq-ok (advance sha256 canonical_json tools now fresh a policy_id policy r)
                (conclude sha256 canonical_json tools now fresh a policy_id policy)
                (sym (
                    ap (λ o. reconcile_under sha256 canonical_json tools now fresh a policy_id o r)
                      h)
                  ∙ f)
        ]

  conclude-jobs :
      (a : Artifact) (policy_id : String) (policy : ReviewPolicy) (p : Progress)
      {out : OrchestrationResult × Repository} (job : Job)
      → conclude sha256 canonical_json tools now fresh a policy_id policy p ≡ ok out
      → In job out.1.jobs
      → In job p.repository.jobs
        ⊎ ((job.type ≡ JobType.route_review)
            × (is_settled a.review_status ≡ false)
            × (all_terminal p.states ≡ true))
  unfolding conclude routed unrouted route_request
  conclude-jobs a policy_id policy p job e m =
      let request : JobRequest = route_request sha256 canonical_json a policy_id p.states in
      let route : Job × Repository → Result ArtifactError (OrchestrationResult × Repository) =
        λ call. ok (routed sha256 canonical_json tools now fresh a policy_id policy p call) in
      elim (if-cases (not (is_settled a.review_status) && all_terminal p.states)
        (enqueue_job now (fresh p.calls) request p.repository >>= route)
        (ok (unrouted sha256 canonical_json tools now fresh a policy_id policy p)) e) [
          | inr (t, f) ↦ inl (
              subst (λ (o : OrchestrationResult × Repository). In job o.1.jobs)
                (sym (ok-injective f)) m)
          | inl (t, f) ↦
              let (call, k, g) =
                >>=-eq-ok (enqueue_job now (fresh p.calls) request p.repository) route f in
              let (settled, ended) =
                &&-true (not (is_settled a.review_status)) (all_terminal p.states) t in
              elim (enqueue-jobs now (fresh p.calls) request p.repository job k (
                subst (λ (o : OrchestrationResult × Repository). In job o.1.jobs)
                  (sym (ok-injective g)) m)) [
                    | inl n ↦ inl n
                    | inr (q, _) ↦ inr (q, not-true (is_settled a.review_status) settled, ended)
                  ]
        ]

  conclude-IsValid :
      (a : Artifact) (policy_id : String) (policy : ReviewPolicy) (p : Progress)
      {out : OrchestrationResult × Repository}
      → conclude sha256 canonical_json tools now fresh a policy_id policy p ≡ ok out
      → IsValid p.repository.jobs
      → IsValid out.1.jobs
  unfolding conclude routed unrouted
  conclude-IsValid a policy_id policy p e v =
      let request : JobRequest = route_request sha256 canonical_json a policy_id p.states in
      let route : Job × Repository → Result ArtifactError (OrchestrationResult × Repository) =
        λ call. ok (routed sha256 canonical_json tools now fresh a policy_id policy p call) in
      let jobs_of : OrchestrationResult × Repository → Type 0 = λ o. IsValid o.1.jobs in
      elim (if-cases (not (is_settled a.review_status) && all_terminal p.states)
        (enqueue_job now (fresh p.calls) request p.repository >>= route)
        (ok (unrouted sha256 canonical_json tools now fresh a policy_id policy p)) e) [
          | inr (t, f) ↦ subst jobs_of (ok-injective f) v
          | inl (t, f) ↦
              let (call, k, g) =
                >>=-eq-ok (enqueue_job now (fresh p.calls) request p.repository) route f in
              subst jobs_of (ok-injective g)
                (enqueue_job-IsValid now (fresh p.calls) request p.repository k v)
        ]

  begin-Sound :
      (a : Artifact) (policy_id : String) (policy : ReviewPolicy) (r : Repository)
      (Allowed : Stage → Type 0)
      → Sound policy Allowed
          (begin_progress sha256 canonical_json tools now fresh a policy_id policy r).states
          r.jobs
          (begin_progress sha256 canonical_json tools now fresh a policy_id policy r)
  begin-Sound a policy_id policy r Allowed =
      unfold begin_progress in
      record { none_completed = λ name e. e; jobs_from = λ job m. inl m; valid = λ v. v }

  -- reconcile returns only for an artifact that is there, with a stored policy.
  pub reconcile-looked_up :
      (policies : String → Option ReviewPolicy) (artifact_id : String) (r : Repository)
      {out : OrchestrationResult × Repository}
      → reconcile sha256 canonical_json tools now fresh policies artifact_id r ≡ ok out
      → (a : Artifact) × (policy : ReviewPolicy) × (get_artifact artifact_id r ≡ some a)
        × (policies (text_of a.policy_version_id) ≡ some policy)
  unfolding reconcile reconcile_found reconcile_under
  reconcile-looked_up policies artifact_id r {out} e =
      elim (Option-cases (get_artifact artifact_id r)) [
        | inl n ↦
            cc (sym (ap (reconcile_found sha256 canonical_json tools now fresh policies r) n) ∙ e)
        | inr (a, g) ↦
            let found : reconcile_found sha256 canonical_json tools now fresh policies r (some a)
                ≡ ok out =
              sym (ap (reconcile_found sha256 canonical_json tools now fresh policies r) g) ∙ e in
            let policy_id : String = text_of a.policy_version_id in
            elim (if-cases (policy_id == "") (err (value_error "review_policy_unavailable"))
              (reconcile_under sha256 canonical_json tools now fresh a policy_id
                (policies policy_id) r)
              found) [
                | inl (t, f) ↦ cc f
                | inr (t, f) ↦ elim (Option-cases (policies policy_id)) [
                  | inl n ↦ cc (
                      sym (
                        ap
                          (λ o.
                            reconcile_under sha256 canonical_json tools now fresh a policy_id o r)
                          n)
                      ∙ f)
                  | inr (policy, h) ↦ (a, policy, g, h)
                ]
              ]
      ]

  -- reconcile leaves no job but those that were there, jobs of units of the policy that every
  -- required stage `dep` allows, and a route job of an artifact with an open status whose units have
  -- all ended. `dep` allows a unit of its own phase or an earlier one; it allows a unit of a later
  -- phase only where `dep` is `completed` by the runs and jobs that were there before the call.
  pub reconcile_readiness :
      (policies : String → Option ReviewPolicy) (artifact_id : String) (r : Repository)
      (a : Artifact) (policy : ReviewPolicy) (dep : Stage) {out : OrchestrationResult × Repository}
      (job : Job)
      → get_artifact artifact_id r ≡ some a
      → policies (text_of a.policy_version_id) ≡ some policy
      → member dep policy.required_stages ≡ true
      → reconcile sha256 canonical_json tools now fresh policies artifact_id r ≡ ok out
      → In job out.1.jobs
      → In job r.jobs
        ⊎ (FromUnit policy
              (Cleared policy dep
                (begin_progress sha256 canonical_json tools now fresh a
                  (text_of a.policy_version_id)
                  policy
                  r).states)
              job
            ⊎ ((job.type ≡ JobType.route_review)
                × (is_settled a.review_status ≡ false)
                × (p : Progress) × (advance sha256 canonical_json tools now fresh a
                      (text_of a.policy_version_id)
                      policy
                      r
                    ≡ ok p)
                × (all_terminal p.states ≡ true)))
  reconcile_readiness policies artifact_id r a policy dep job g h d e m =
      let policy_id : String = text_of a.policy_version_id in
      let (p, f, k) = reconcile-cases policies artifact_id r a policy g h e in
      let initial : List NamedState =
        (begin_progress sha256 canonical_json tools now fresh a policy_id policy r).states in
      let start : Sound policy (Cleared policy dep initial) initial r.jobs
          (begin_progress sha256 canonical_json tools now fresh a policy_id policy r) =
        begin-Sound a policy_id policy r (Cleared policy dep initial) in
      elim (conclude-jobs a policy_id policy p job k m) [
        | inr (t, open_status, ended) ↦ inr (inr (t, open_status, p, f, ended))
        | inl n ↦
            elim ((advance-Sound sha256 canonical_json tools now fresh a policy_id policy
                (Cleared policy dep initial) initial r.jobs
                (λ phase stage p q s b. stage_clear policy dep initial phase stage p d q s b) r
                start f).jobs_from
              job n) [ inl old ↦ inl old | inr new ↦ inr (inl new) ]
      ]

  -- reconcile leaves a valid job queue valid.
  pub reconcile-IsValid :
      (policies : String → Option ReviewPolicy) (artifact_id : String) (r : Repository)
      {out : OrchestrationResult × Repository}
      → reconcile sha256 canonical_json tools now fresh policies artifact_id r ≡ ok out
      → IsValid r.jobs
      → IsValid out.1.jobs
  reconcile-IsValid policies artifact_id r e v =
      let (a, policy, g, h) = reconcile-looked_up policies artifact_id r e in
      let policy_id : String = text_of a.policy_version_id in
      let (p, f, k) = reconcile-cases policies artifact_id r a policy g h e in
      let start : Sound policy (λ stage. Unit) _ r.jobs
          (begin_progress sha256 canonical_json tools now fresh a policy_id policy r) =
        begin-Sound a policy_id policy r (λ stage. Unit) in
      conclude-IsValid a policy_id policy p k (
        (advance-Sound sha256 canonical_json tools now fresh a policy_id policy (λ stage. Unit) _
            r.jobs (λ phase stage p q s b. tt) r start f).valid
          v)
