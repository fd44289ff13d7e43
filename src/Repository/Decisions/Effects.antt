-- ===== src/Repository/Decisions/Effects.antt =====
-- What an approval of repository.py leaves behind: locked comment threads and a publish
-- job.
use mathlib.Core.Path.{subst}
use astrbot_community_plugin.Prelude.{
  ℕ, String, ◌≡◌, ◌≢◌, refl, sym, ◌∙◌, ap, inl, inr, none, some, List, map, Bool-cases,
  some-injective, ◌==◌, string_eq, ==-refl, ok, In, In-map, &&-intro, ◌&&◌, option_eq, nat_eq,
}
use astrbot_community_plugin.Repository.Rows.{Artifact, Decision, Job, Thread, Repository}
use astrbot_community_plugin.Repository.{artifact_key, get_artifact}
use astrbot_community_plugin.Repository.Jobs.{job_with_key}
use astrbot_community_plugin.Lifecycle.Types.{ReviewStatus}
use astrbot_community_plugin.Prelude.Dict.{get-key, get-put}
use astrbot_community_plugin.Repository.Decisions.{decision_with_key, lock_thread}
use astrbot_community_plugin.Repository.Decisions.Approvals.{
  Approval, put_new_job, publish_job, publish_key, write_approval, approve_artifact,
}
use astrbot_community_plugin.Repository.Decisions.Automatic.{AutoApproval, auto_approve_artifact}
use astrbot_community_plugin.Repository.Decisions.Soundness.{
  has_job_after, approve_written, auto_written,
}

-- No thread of the artifact is open.
abbrev pub Locked : String → List Thread → Type 0
Locked artifact_id threads =
    (t : Thread) → In t threads → t.artifact_id ≡ artifact_id → t.locked_at ≢ none

lock_thread_lem :
    (now : ℕ) (id : String) (t : Thread)
    → (lock_thread now id t).artifact_id ≡ id
    → (lock_thread now id t).locked_at ≢ none
unfolding lock_thread
lock_thread_lem now id t h k = elim (Bool-cases (t.artifact_id == id && t.locked_at == none)) [
  | inl e ↦ cc (rw e at k)
  | inr e ↦ cc (
    e,
    &&-intro (t.artifact_id == id) (t.locked_at == none)
        ((string_eq.beq_iff t.artifact_id id).1 (rw e at h))
        ((option_eq.beq_iff t.locked_at none).1 (rw e at k)),
  )
]

lock-Locked :
    (now : ℕ) (id : String) (threads : List Thread) → Locked id (map (lock_thread now id) threads)
lock-Locked now id threads t m e =
    let (u, n, q) = In-map (lock_thread now id) threads m in
    subst (λ v. v.artifact_id ≡ id → v.locked_at ≢ none) (sym q) (lock_thread_lem now id u) e

-- What the repository holds for an artifact after an approval.
abbrev pub ApprovedIn : String → Artifact → Repository → Type 0
ApprovedIn id b s =
    (b.review_status ≡ ReviewStatus.approved)
    × (get_artifact id s ≡ some b)
    × Locked id s.threads
    × ((j : Job) × (job_with_key (publish_key id) s.jobs ≡ some j))

write_approval-effects :
    (now : ℕ) (a : Artifact) (d : Decision) (job : Job) (r : Repository) (b : Artifact)
    (s : Repository)
    → a.review_status ≡ ReviewStatus.approved
    → job.idempotency_key ≡ publish_key a.id
    → write_approval now a d job r ≡ (some b, s)
    → ApprovedIn a.id b s
unfolding write_approval
write_approval-effects now a d job r b s c key e =
    let q : (write_approval now a d job r).1 ≡ s = ap (λ p. p.1) e in
    let p : a ≡ b = some-injective (ap (λ p. p.0) e) in
    (
      ap (λ x. x.review_status) (sym p) ∙ c,
      subst (λ s. get_artifact a.id s ≡ some b) q
          (get-put artifact_key a.id a r.artifacts ∙ rw (==-refl a.id) (ap some p)),
      subst (λ s. Locked a.id s.threads) q (lock-Locked now a.id r.threads),
      subst (λ s. (j : Job) × (job_with_key (publish_key a.id) s.jobs ≡ some j)) q
          (subst (λ k. (j : Job) × (job_with_key k (put_new_job job r.jobs) ≡ some j)) key
            (has_job_after job r.jobs)),
    )

-- After an approval by a reviewer under a new key that returns an artifact, the repository holds
-- that artifact as approved, its comment threads are locked, and a job holds its publish key.
pub approve_effects :
    (now : ℕ) (fresh fresh_job id : String) (q : Approval) (r : Repository) (b : Artifact)
    (s : Repository)
    → decision_with_key q.idempotency_key r.decisions ≡ none
    → approve_artifact now fresh fresh_job id q r ≡ ok (some b, s)
    → ApprovedIn id b s
unfolding publish_job
approve_effects now fresh fresh_job id q r b s n e =
    let (a, f, facts) = approve_written now fresh fresh_job id q r b s n e in
    subst (λ i. ApprovedIn i b s) (get-key artifact_key id r.artifacts f)
      (write_approval-effects now _ _ _ r b s refl refl facts.result)

-- The same holds after an approval by the policy under a new key that returns an artifact.
pub auto_approve_effects :
    (now : ℕ) (fresh fresh_job id : String) (q : AutoApproval) (r : Repository) (b : Artifact)
    (s : Repository)
    → decision_with_key q.idempotency_key r.decisions ≡ none
    → auto_approve_artifact now fresh fresh_job id q r ≡ ok (some b, s)
    → ApprovedIn id b s
unfolding publish_job
auto_approve_effects now fresh fresh_job id q r b s n e =
    let (a, f, t, facts) = auto_written now fresh fresh_job id q r b s n e in
    subst (λ i. ApprovedIn i b s) (get-key artifact_key id r.artifacts f)
      (write_approval-effects now _ _ _ r b s refl refl facts.result)
