-- ===== src/Repository/Jobs/Requests.antt =====
-- The idempotency of enqueue_job.
use astrbot_community_plugin.Prelude.{
  ℕ, String, ◌≡◌, arith, refl, inl, inr, true, Option, none, some, List, string_eq, option_eq, ◌==◌,
  ==-refl, ok, >>=-eq-ok,
}
use astrbot_community_plugin.Prelude.Dict.{put, find-put_new}
use astrbot_community_plugin.Json.{Object}
use astrbot_community_plugin.Lifecycle.Types.{job_type_eq}
use astrbot_community_plugin.Repository.Rows.{Artifact, Job, Repository}
use astrbot_community_plugin.Repository.{get_artifact, text_or_none}
use astrbot_community_plugin.Repository.Jobs.{
  job_key, JobRequest, bind_artifact, bind_to, bind_request, new_job, job_with_key, same_request,
  enqueue_found, enqueue_job,
}
use astrbot_community_plugin.Repository.Jobs.Invariant.{enqueue_cases}

new_job-same_request :
    (now : ℕ) (fresh : String) (q : JobRequest) (bound : Option String × Object)
    → (same_request q bound.0 (new_job now fresh q bound) ≡ true)
      × (((new_job now fresh q bound).idempotency_key == q.idempotency_key) ≡ true)
unfolding same_request new_job
new_job-same_request now fresh q bound = (simp ==-refl, ==-refl q.idempotency_key)

same_found :
    (now : ℕ) (fresh : String) (q : JobRequest) (bound : Option String × Object) (r : Repository)
    (j : Job)
    → same_request q bound.0 j ≡ true
    → enqueue_found now fresh q r bound (some j) ≡ ok (j, r)
unfolding enqueue_found
same_found now fresh q bound r j t = rw t

bind_artifact-jobs :
    (q : JobRequest) (r : Repository) (jobs : List Job) (found : Option Artifact)
    → bind_artifact q found (record r { jobs = jobs }) ≡ bind_artifact q found r
unfolding bind_artifact
bind_artifact-jobs q r jobs none = refl
bind_artifact-jobs q r jobs (some a) = ground arith

bind_to-jobs :
    (q : JobRequest) (r : Repository) (jobs : List Job) (id : Option String)
    → bind_to q (record r { jobs = jobs }) id ≡ bind_to q r id
unfolding bind_to
bind_to-jobs q r jobs none = refl
bind_to-jobs q r jobs (some id) = bind_artifact-jobs q r jobs (get_artifact id r)

-- The policy and the payload of a request do not depend on the queue.
bind_request-jobs :
    (q : JobRequest) (r : Repository) (jobs : List Job)
    → bind_request q (record r { jobs = jobs }) ≡ bind_request q r
unfolding bind_request
bind_request-jobs q r jobs = bind_to-jobs q r jobs (text_or_none q.artifact_id)

-- An accepted request that is made again on the repository that the first call left, whatever the
-- clock and the new id are then, is answered with the same job and changes nothing.
pub enqueue_idempotent :
    (now now' : ℕ) (fresh fresh' : String) (q : JobRequest) (r : Repository) (j : Job)
    (s : Repository)
    → enqueue_job now fresh q r ≡ ok (j, s)
    → enqueue_job now' fresh' q s ≡ ok (j, s)
unfolding enqueue_job
enqueue_idempotent now now' fresh fresh' q r j s e =
    let (bound, b, k) = >>=-eq-ok (bind_request q r) _ e in
    elim (enqueue_cases now fresh q r bound (job_with_key q.idempotency_key r.jobs) k) [
      | inl (f, t, u) ↦ rw (u, b, f) (same_found now' fresh' q bound r j t)
      | inr (f, t, u) ↦
          let k : Job = new_job now fresh q bound in
          let (same, holds) = new_job-same_request now fresh q bound in
          rw
            (
              u,
              t,
              bind_request-jobs,
              b,
              find-put_new job_key (λ x. x.idempotency_key == q.idempotency_key) k r.jobs f holds,
            )
            (same_found now' fresh' q bound (record r { jobs = put job_key k r.jobs }) k same)
    ]
