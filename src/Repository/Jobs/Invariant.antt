-- ===== src/Repository/Jobs/Invariant.antt =====
-- The invariant of the job queue: bounded attempts, leases only on running jobs, queued jobs that
-- can be claimed, one job to an id and to an idempotency key.
use astrbot_community_plugin.Prelude.{
  ℕ, ◌≤◌, ◌<◌, String, ◌≡◌, refl, sym, ap, ◌≢◌, ◌⊎◌, inl, inr, ◌∙◌, Bool, true, Option, none, some,
  List, map, arith, In, In-map, In-filter, In-take, member, member→In, Bool-cases, find-none, ok,
  >>=-eq-ok, string_eq, ◌==◌, nat_eq,
}
use astrbot_community_plugin.Prelude.Dict.{Distinct, get, put, get-In, In-put}
use astrbot_community_plugin.Prelude.Distinct.{
  eq_of_key, Distinct-put, Distinct-put_other, Distinct-map,
}
use astrbot_community_plugin.Prelude.Sorting.{sort, In-sort}
use astrbot_community_plugin.Json.{Object}
use astrbot_community_plugin.Lifecycle.Types.{JobStatus, job_status_eq}
use astrbot_community_plugin.Repository.Rows.{Job, Repository}
use astrbot_community_plugin.Repository.Jobs.{
  job_key, JobRequest, bind_request, new_job, job_with_key, same_request, enqueue_found,
  enqueue_job, is_candidate, claim_order, lease_to, lease_claimed, claimed_jobs, claim_jobs,
  holds_lease, report_on, report, renewed, renew_job_lease, completed, complete_job, failed,
  fail_job,
}

pub record IsSound (j : Job) : Type 0 where
  pub attempts_bounded : j.attempts ≤ j.max_attempts
  pub queued_claimable : j.status ≡ JobStatus.queued → j.attempts < j.max_attempts
  pub running_leased : j.status ≡ JobStatus.running → j.lease_owner ≢ none
  pub running_expires : j.status ≡ JobStatus.running → j.lease_expires_at ≢ none
  pub idle_unleased : j.status ≢ JobStatus.running → j.lease_owner ≡ none

abbrev pub key_of : Job → String
key_of j = j.idempotency_key

pub record IsValid (jobs : List Job) : Type 0 where
  pub distinct_ids : Distinct job_key jobs
  pub distinct_keys : Distinct key_of jobs
  pub sound : (j : Job) → In j jobs → IsSound j

new_job-IsSound :
    (now : ℕ) (fresh : String) (q : JobRequest) (bound : Option String × Object)
    → IsSound (new_job now fresh q bound)
unfolding new_job
new_job-IsSound now fresh q bound = ground arith

lease_to-IsSound :
    (now : ℕ) (w : String) (lease : ℕ) (j : Job)
    → is_candidate now j ≡ true
    → IsSound (lease_to now w lease j)
unfolding lease_to is_candidate
lease_to-IsSound now w lease j h = ground arith

renewed-IsSound :
    (now lease : ℕ) (w : String) (j : Job)
    → IsSound j
    → holds_lease w j ≡ true
    → IsSound (renewed now lease j)
unfolding renewed holds_lease
renewed-IsSound now lease w j s h = ground arith

completed-IsSound :
    (now : ℕ) (w : String) (j : Job)
    → IsSound j
    → holds_lease w j ≡ true
    → IsSound (completed now j)
unfolding completed holds_lease
completed-IsSound now w j s h = ground arith

failed-IsSound :
    (now : ℕ) (code message : String) (retry : Bool) (delay : ℕ) (w : String) (j : Job)
    → IsSound j
    → holds_lease w j ≡ true
    → IsSound (failed now code message retry delay j)
unfolding failed holds_lease
failed-IsSound now code message retry delay w j s h = ground arith

put-IsValid :
    (jobs : List Job) (v : Job)
    → IsValid jobs
    → IsSound v
    → ((j : Job) → In j jobs → j.id ≢ v.id → j.idempotency_key ≢ v.idempotency_key)
    → IsValid (put job_key v jobs)
put-IsValid jobs v h s fresh = record {
  distinct_ids = Distinct-put job_key v jobs h.distinct_ids;
  distinct_keys = Distinct-put_other job_key key_of v jobs h.distinct_keys fresh h.distinct_ids;
  sound = λ j m. elim (In-put job_key v jobs j m) [ inl e ↦ rw e s | inr n ↦ h.sound j n ];
}

-- A report by the lease's holder writes a job under its own id and key.
report_on-IsValid :
    (job_id w : String) (change : Job → Job) (jobs : List Job) (found : Option Job)
    → get job_key job_id jobs ≡ found
    → ((j : Job) → ((change j).id ≡ j.id) × ((change j).idempotency_key ≡ j.idempotency_key))
    → ((j : Job) → IsSound j → holds_lease w j ≡ true → IsSound (change j))
    → IsValid jobs
    → IsValid (report_on w change jobs found).1
unfolding report_on
report_on-IsValid job_id w change jobs none e same keep h = h
report_on-IsValid job_id w change jobs (some j) e same keep h =
    elim (Bool-cases (holds_lease w j)) [
      | inl t ↦ rw t (
          let m = get-In job_key job_id jobs e in
          put-IsValid jobs (change j) h (keep j (h.sound j m) t) (λ x n d q. d (
            ap job_key (eq_of_key key_of jobs x j h.distinct_keys n m (q ∙ (same j).1))
            ∙ sym (same j).0)))
      | inr f ↦ rw f h
    ]

report-IsValid :
    (job_id w : String) (change : Job → Job) (jobs : List Job)
    → ((j : Job) → ((change j).id ≡ j.id) × ((change j).idempotency_key ≡ j.idempotency_key))
    → ((j : Job) → IsSound j → holds_lease w j ≡ true → IsSound (change j))
    → IsValid jobs
    → IsValid (report job_id w change jobs).1
unfolding report
report-IsValid job_id w change jobs =
    report_on-IsValid job_id w change jobs (get job_key job_id jobs) refl

pub renew_job_lease-IsValid :
    (now : ℕ) (job_id w : String) (lease : ℕ) (jobs : List Job)
    → IsValid jobs
    → IsValid (renew_job_lease now job_id w lease jobs).1
unfolding renew_job_lease
renew_job_lease-IsValid now job_id w lease jobs =
    report-IsValid job_id w (renewed now lease) jobs (λ j. (refl, refl))
      (renewed-IsSound now lease w)

pub complete_job-IsValid :
    (now : ℕ) (job_id w : String) (jobs : List Job)
    → IsValid jobs
    → IsValid (complete_job now job_id w jobs).1
unfolding complete_job
complete_job-IsValid now job_id w jobs =
    report-IsValid job_id w (completed now) jobs (λ j. (refl, refl)) (completed-IsSound now w)

-- The report of a failure keeps a queue valid, with a retry or without.
pub fail_job-IsValid :
    (now : ℕ) (job_id w code message : String) (retry : Bool) (delay : ℕ) (jobs : List Job)
    → IsValid jobs
    → IsValid (fail_job now job_id w code message retry delay jobs).1
unfolding fail_job
fail_job-IsValid now job_id w code message retry delay jobs =
    report-IsValid job_id w (failed now code message retry delay) jobs (λ j. (refl, refl))
      (failed-IsSound now code message retry delay w)

module _ (texts : Job → String × String) where
  -- A job of the queue that is handed out is a candidate.
  pub claimed-is_candidate :
      (now limit : ℕ) (jobs : List Job) (j : Job)
      → In j (claimed_jobs texts now limit jobs)
      → In j jobs × (is_candidate now j ≡ true)
  unfolding claimed_jobs
  claimed-is_candidate now limit jobs j m =
      In-filter (is_candidate now) jobs
        (In-sort (claim_order texts) _ j (In-take limit (sort (claim_order texts) _) j m))

  -- With distinct ids, the job of the queue that has a claimed id is a claimed job.
  pub claimed_of_id :
      (now limit : ℕ) (jobs : List Job) (j : Job)
      → IsValid jobs
      → In j jobs
      → member j.id (map job_key (claimed_jobs texts now limit jobs)) ≡ true
      → In j (claimed_jobs texts now limit jobs)
  claimed_of_id now limit jobs j h m t =
      let (k, n, e) = In-map job_key (claimed_jobs texts now limit jobs) (member→In j.id _ t) in
      rw (eq_of_key job_key jobs j k h.distinct_ids m (claimed-is_candidate now limit jobs k n).0 e)
        n

  id-lease_claimed :
      (now : ℕ) (w : String) (lease : ℕ) (ids : List String) (j : Job)
      → ((lease_claimed now w lease ids j).id ≡ j.id)
        × ((lease_claimed now w lease ids j).idempotency_key ≡ j.idempotency_key)
  unfolding lease_claimed lease_to
  id-lease_claimed now w lease ids j = ground arith

  -- A claim keeps a queue valid: ids and keys are distinct, no job has more attempts than allowed, a
  -- queued job has one left, and exactly the running jobs are leased.
  pub claim_jobs-IsValid :
      (now : ℕ) (w : String) (limit lease : ℕ) (jobs : List Job)
      → IsValid jobs
      → IsValid (claim_jobs texts now w limit lease jobs).1
  unfolding claim_jobs
  claim_jobs-IsValid now w limit lease jobs h =
      let ids : List String = map job_key (claimed_jobs texts now limit jobs) in
      let f : Job → Job = lease_claimed now w lease ids in
      record {
        distinct_ids =
            Distinct-map job_key f jobs (λ j. (id-lease_claimed now w lease ids j).0)
              h.distinct_ids;
        distinct_keys =
            Distinct-map key_of f jobs (λ j. (id-lease_claimed now w lease ids j).1)
              h.distinct_keys;
        sound = λ j m. let (k, n, e) = In-map f jobs m in rw e (keep k n);
      }
    where
      keep :
          (k : Job)
          → In k jobs
          → IsSound (lease_claimed now w lease (map job_key (claimed_jobs texts now limit jobs)) k)
      keep k n =
          unfold lease_claimed in
          elim (Bool-cases (member k.id (map job_key (claimed_jobs texts now limit jobs)))) [
            | inl t ↦ rw t (
                lease_to-IsSound now w lease k
                  (claimed-is_candidate now limit jobs k (claimed_of_id now limit jobs k h n t)).1)
            | inr f ↦ rw f (h.sound k n)
          ]

-- What an accepted request leaves: the queue as it was, or one new job under a new key.
pub enqueue_cases :
    (now : ℕ) (fresh : String) (q : JobRequest) (r : Repository) (bound : Option String × Object)
    (found : Option Job) {j : Job} {s : Repository}
    → enqueue_found now fresh q r bound found ≡ ok (j, s)
    → ((found ≡ some j) × (same_request q bound.0 j ≡ true) × (s ≡ r))
      ⊎ ((found ≡ none)
          × (j ≡ new_job now fresh q bound)
          × (s ≡ record r { jobs = put job_key j r.jobs }))
unfolding enqueue_found
enqueue_cases now fresh q r bound (some k) e = inl (ground arith)
enqueue_cases now fresh q r bound none e = inr (ground arith)

insert-IsValid :
    (now : ℕ) (fresh : String) (q : JobRequest) (bound : Option String × Object) (jobs : List Job)
    → job_with_key q.idempotency_key jobs ≡ none
    → IsValid jobs
    → IsValid (put job_key (new_job now fresh q bound) jobs)
unfolding new_job
insert-IsValid now fresh q bound jobs f h =
    put-IsValid jobs (new_job now fresh q bound) h (new_job-IsSound now fresh q bound) (λ j m d e.
      cc (
        find-none (λ k. k.idempotency_key == q.idempotency_key) jobs f m,
        (string_eq.beq_iff j.idempotency_key q.idempotency_key).1 e,
      ))

-- An accepted request leaves a valid queue valid.
pub enqueue_job-IsValid :
    (now : ℕ) (fresh : String) (q : JobRequest) (r : Repository) {j : Job} {s : Repository}
    → enqueue_job now fresh q r ≡ ok (j, s)
    → IsValid r.jobs
    → IsValid s.jobs
unfolding enqueue_job
enqueue_job-IsValid now fresh q r {j} {s} e h =
    let (bound, b, k) = >>=-eq-ok (bind_request q r) _ e in
    elim (enqueue_cases now fresh q r bound (job_with_key q.idempotency_key r.jobs) k) [
      | inl (f, t, u) ↦ rw u h
      | inr (f, t, u) ↦ rw (u, t) (insert-IsValid now fresh q bound r.jobs f h)
    ]
