-- ===== src/Orchestration/Endings.antt =====
-- reconcile of orchestration.py on an artifact whose review is over.
use mathlib.Core.Path.{subst}
use astrbot_community_plugin.Prelude.{
  ℕ, String, ◌≡◌, refl, sym, ap, ◌∙◌, true, Option, some, [], ok, ok-injective,
}
use astrbot_community_plugin.Json.{Object}
use astrbot_community_plugin.Policy.{Stage, ReviewPolicy}
use astrbot_community_plugin.Repository.Rows.{Artifact, Repository}
use astrbot_community_plugin.Repository.{get_artifact, text_of}
use astrbot_community_plugin.Orchestration.Units.{Snapshot}
use astrbot_community_plugin.Orchestration.Readiness.{reconcile-looked_up, reconcile-cases}
use astrbot_community_plugin.Orchestration.{
  is_settled, OrchestrationResult, Progress, begin_progress, advance, result_of, unrouted, conclude,
  reconcile,
}

-- Nothing has been written or enqueued.
abbrev pub Untouched : Repository → OrchestrationResult × Repository → Type 0
Untouched r (result, after) =
    (after ≡ r) × (result.enqueued_job_ids ≡ []) × (result.recorded_run_ids ≡ [])

module _ (sha256 : String → String) (canonical_json : Object → String)
    (tools : Stage → Option Snapshot) (now : ℕ) (fresh : ℕ → String) where
  settled-advance :
      (a : Artifact) (policy_id : String) (policy : ReviewPolicy) (r : Repository) (p : Progress)
      → is_settled a.review_status ≡ true
      → advance sha256 canonical_json tools now fresh a policy_id policy r ≡ ok p
      → begin_progress sha256 canonical_json tools now fresh a policy_id policy r ≡ p
  unfolding advance
  settled-advance a policy_id policy r p t e = ok-injective (rw t at e)

  settled-conclude :
      (a : Artifact) (policy_id : String) (policy : ReviewPolicy) (p : Progress)
      (out : OrchestrationResult × Repository)
      → is_settled a.review_status ≡ true
      → conclude sha256 canonical_json tools now fresh a policy_id policy p ≡ ok out
      → unrouted sha256 canonical_json tools now fresh a policy_id policy p ≡ out
  unfolding conclude
  settled-conclude a policy_id policy p out t e = ok-injective (rw t at e)

  begin-Untouched :
      (a : Artifact) (policy_id : String) (policy : ReviewPolicy) (r : Repository)
      → Untouched r (
          unrouted sha256 canonical_json tools now fresh a policy_id policy
            (begin_progress sha256 canonical_json tools now fresh a policy_id policy r))
  unfolding unrouted result_of begin_progress
  begin-Untouched a policy_id policy r = (refl, refl, refl)

  -- reconcile of an artifact whose review is over writes nothing: the repository is the same after
  -- it, and it reports no job enqueued and no run recorded.
  pub reconcile_settled :
      (policies : String → Option ReviewPolicy) (artifact_id : String) (r : Repository)
      (a : Artifact) (out : OrchestrationResult × Repository)
      → get_artifact artifact_id r ≡ some a
      → is_settled a.review_status ≡ true
      → reconcile sha256 canonical_json tools now fresh policies artifact_id r ≡ ok out
      → Untouched r out
  reconcile_settled policies artifact_id r a out g t e =
      let (b, policy, found, h) =
        reconcile-looked_up sha256 canonical_json tools now fresh policies artifact_id r e in
      let same : b ≡ a = cc (found, g) in
      let (p, f, k) =
        reconcile-cases sha256 canonical_json tools now fresh policies artifact_id r b policy found
          h e in
      let settled : is_settled b.review_status ≡ true =
        subst (λ x. is_settled x.review_status ≡ true) (sym same) t in
      let id : String = text_of b.policy_version_id in
      subst (Untouched r)
        (ap (unrouted sha256 canonical_json tools now fresh b id policy)
            (settled-advance b id policy r p settled f)
          ∙ settled-conclude b id policy p out settled k)
        (begin-Untouched b id policy r)
