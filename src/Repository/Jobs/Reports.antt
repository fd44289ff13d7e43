-- ===== src/Repository/Jobs/Reports.antt =====
-- The reports of a worker: renewal, completion and failure of a job.
use astrbot_community_plugin.Prelude.{
  ℕ, String, ◌≡◌, refl, ap, ◌≢◌, ◌⊎◌, inl, inr, Bool, true, false, Option, none, some, List, In,
  Bool-cases, &&-true, ==→≡, option_eq, string_eq, ◌==◌,
}
use astrbot_community_plugin.Prelude.Dict.{get, get_of_In}
use astrbot_community_plugin.Lifecycle.Types.{JobStatus, job_status_eq}
use astrbot_community_plugin.Repository.Rows.{Job}
use astrbot_community_plugin.Repository.Jobs.{
  job_key, lease_to, claim_jobs, holds_lease, report_on, renewed, renew_job_lease, completed,
  complete_job, failed, fail_job,
}
use astrbot_community_plugin.Repository.Jobs.Invariant.{IsValid, claim_jobs-IsValid}
use astrbot_community_plugin.Repository.Jobs.Claims.{claimed_lease}

-- A report is refused and changes nothing, or it comes from the holder of the lease of a running
-- job.
abbrev pub IsGuarded : String → String → List Job → Bool × List Job → Type 0
IsGuarded job_id w jobs outcome =
    (outcome ≡ (false, jobs))
    ⊎ ((j : Job) × (outcome.0 ≡ true)
        × (get job_key job_id jobs ≡ some j)
        × (j.status ≡ JobStatus.running)
        × (j.lease_owner ≡ some w))

holds_lease-elim :
    (w : String) (j : Job)
    → holds_lease w j ≡ true
    → (j.status ≡ JobStatus.running) × (j.lease_owner ≡ some w)
unfolding holds_lease
holds_lease-elim w j h =
    let (a, b) = &&-true (j.status == JobStatus.running) (j.lease_owner == some w) h in
    (==→≡ j.status JobStatus.running a, ==→≡ j.lease_owner (some w) b)

report_on-IsGuarded :
    (job_id w : String) (change : Job → Job) (jobs : List Job) (found : Option Job)
    → get job_key job_id jobs ≡ found
    → IsGuarded job_id w jobs (report_on w change jobs found)
unfolding report_on
report_on-IsGuarded job_id w change jobs none e = inl refl
report_on-IsGuarded job_id w change jobs (some j) e = elim (Bool-cases (holds_lease w j)) [
  | inl t ↦ rw t (let (a, b) = holds_lease-elim w j t in inr (j, refl, e, a, b))
  | inr f ↦ rw f (inl refl)
]

-- Renewal, completion and failure are each refused, with the queue left as it was, or come from the
-- worker that holds the lease of the running job.
pub reports-IsGuarded :
    (now : ℕ) (job_id w code message : String) (retry : Bool) (delay lease : ℕ) (jobs : List Job)
    → IsGuarded job_id w jobs (renew_job_lease now job_id w lease jobs)
      × IsGuarded job_id w jobs (complete_job now job_id w jobs)
      × IsGuarded job_id w jobs (fail_job now job_id w code message retry delay jobs)
unfolding renew_job_lease complete_job fail_job
reports-IsGuarded now job_id w code message retry delay lease jobs =
    let found : Option Job = get job_key job_id jobs in
    (
      report_on-IsGuarded job_id w (renewed now lease) jobs found refl,
      report_on-IsGuarded job_id w (completed now) jobs found refl,
      report_on-IsGuarded job_id w (failed now code message retry delay) jobs found refl,
    )

-- Once a job of a valid queue has been claimed, the reports of every other worker on it are
-- refused, and change nothing: a worker whose lease was taken over can neither prolong the lease
-- nor end the job.
pub stale_worker_refused :
    (texts : Job → String × String) (now later : ℕ) (w w' code message : String) (retry : Bool)
    (limit lease delay : ℕ) (jobs : List Job) (c : Job)
    → IsValid jobs
    → In c (claim_jobs texts now w limit lease jobs).0
    → w ≢ w'
    → let queue = (claim_jobs texts now w limit lease jobs).1 in
      (renew_job_lease later c.id w' lease queue ≡ (false, queue))
      × (complete_job later c.id w' queue ≡ (false, queue))
      × (fail_job later c.id w' code message retry delay queue ≡ (false, queue))
unfolding renew_job_lease complete_job fail_job report_on
stale_worker_refused texts now later w w' code message retry limit lease delay jobs c h m n =
    let (j, q, k, e, at) = claimed_lease texts now w limit lease jobs c m in
    let found : get job_key c.id (claim_jobs texts now w limit lease jobs).1 ≡ some c =
      get_of_In job_key (claim_jobs texts now w limit lease jobs).1 c
        (claim_jobs-IsValid texts now w limit lease jobs h).distinct_ids at in
    rw (found, other j e) (refl, refl, refl)
  where
    owner : (j : Job) → c ≡ lease_to now w lease j → c.lease_owner ≡ some w' → w ≡ w'
    owner j e o = unfold lease_to in cc (ap (λ (x : Job). x.lease_owner) e)

    other : (j : Job) → c ≡ lease_to now w lease j → holds_lease w' c ≡ false
    other j e = elim (Bool-cases (holds_lease w' c)) [
      | inl t ↦ absurd (n (owner j e (holds_lease-elim w' c t).1))
      | inr f ↦ f
    ]
