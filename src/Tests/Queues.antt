-- ===== src/Tests/Queues.antt =====
-- The job queue and the outbox with one job and one event.
use astrbot_community_plugin.Prelude.{
  ◌≤◌, ◌+◌, String, ◌≡◌, ◌≢◌, refl, ◌⊎◌, inl, inr, true, false, none, some, List, [], ◌∷◌, In, ok,
  err, arith, length, Result,
}
use astrbot_community_plugin.Prelude.Dict.{get, put, differ}
use astrbot_community_plugin.Prelude.Sorting.{sort}
use astrbot_community_plugin.Prelude.TextOrder.{pair_le}
use astrbot_community_plugin.Json.{empty}
use astrbot_community_plugin.Lifecycle.{ArtifactError}
use astrbot_community_plugin.Lifecycle.Types.{
  ReviewStatus, ReviewStatus-discrete, JobType, JobType-discrete, JobStatus, JobStatus-discrete,
}
use astrbot_community_plugin.Repository.Rows.{
  Job, OutboxStatus, OutboxStatus-discrete, OutboxEvent, Repository,
}
use astrbot_community_plugin.Repository.Jobs.{
  JobRequest, enqueue_job, is_candidate, claim_order, lease_to, claimed_jobs, claim_jobs,
  renew_job_lease, complete_job, fail_job,
}
use astrbot_community_plugin.Repository.Jobs.Invariant.{
  IsSound, IsValid, claim_jobs-IsValid, fail_job-IsValid,
}
use astrbot_community_plugin.Repository.Jobs.Claims.{
  IsFree, claim_limit, claim_hands_out, claim_spares, claim_fair, lease_kept, lease_exclusive,
  claim_all, last_attempt_stuck,
}
use astrbot_community_plugin.Repository.Jobs.Reports.{
  IsGuarded, reports-IsGuarded, stale_worker_refused,
}
use astrbot_community_plugin.Repository.Jobs.Requests.{enqueue_idempotent}
use astrbot_community_plugin.Repository.Outbox.{
  OutboxRequest, enqueue_outbox, claimed_events, claim_outbox,
}
use astrbot_community_plugin.Repository.Outbox
use astrbot_community_plugin.Repository.Outbox.Delivery
use astrbot_community_plugin.Repository.Outbox.Delivery.Attempts
use astrbot_community_plugin.Tests.Data.{repository, scan_job, notice}

-- The texts of two times, the same for every row.
abbrev row_texts : Job → String × String
row_texts job = ("2026-01-01T00:00:05Z", "2026-01-01T00:00:05Z")

abbrev event_texts : OutboxEvent → String × String
event_texts event = ("2026-01-01T00:00:05Z", "2026-01-01T00:00:05Z")

-- A queued job, a job in its last attempt, and queues with one of them.
abbrev waiting : Job
waiting = scan_job JobStatus.queued 0 none none

abbrev last_try : Job
last_try = scan_job JobStatus.running 3 (some "w1") (some 8)

abbrev later : Job
later = record waiting { id = "j2"; available_at = 6; idempotency_key = "clean2" }

abbrev queue : List Job
queue = waiting ∷ []

abbrev leased : Job
leased = lease_to 6 "w1" 60 waiting

waiting-IsSound : IsSound waiting
waiting-IsSound = ground arith

later-IsSound : IsSound later
later-IsSound = ground arith

last_try-IsSound : IsSound last_try
last_try-IsSound = ground arith

queue-IsValid : IsValid queue
queue-IsValid = record {
  distinct_ids = (λ y m. absurd m, tt);
  distinct_keys = (λ y m. absurd m, tt);
  sound = λ j m. elim m [ inl e ↦ rw e waiting-IsSound | inr n ↦ absurd n ];
}

both-IsValid : IsValid (waiting ∷ later ∷ [])
both-IsValid = record {
  distinct_ids =
      (λ y m. elim m [ inl e ↦ rw e (differ refl) | inr n ↦ absurd n ], (λ y m. absurd m, tt));
  distinct_keys =
      (λ y m. elim m [ inl e ↦ rw e (differ refl) | inr n ↦ absurd n ], (λ y m. absurd m, tt));
  sound = λ j m. elim m [
    | inl e ↦ rw e waiting-IsSound
    | inr (inl e) ↦ rw e later-IsSound
    | inr (inr n) ↦ absurd n
  ];
}

last_try-IsValid : IsValid (last_try ∷ [])
last_try-IsValid = record {
  distinct_ids = (λ y m. absurd m, tt);
  distinct_keys = (λ y m. absurd m, tt);
  sound = λ j m. elim m [ inl e ↦ rw e last_try-IsSound | inr n ↦ absurd n ];
}

claim_limit_example : length (claim_jobs row_texts 6 "w1" 1 60 queue).0 ≤ 1
claim_limit_example = claim_limit row_texts 6 "w1" 1 60 queue

claim_hands_out_example :
    (j : Job) × In j queue
    × IsFree 6 j
    × (leased ≡ record j {
      status = JobStatus.running;
      attempts = j.attempts + 1;
      lease_owner = some "w1";
      lease_expires_at = some (6 + 60);
      updated_at = 6;
    })
    × (leased.attempts ≤ leased.max_attempts)
    × In leased (claim_jobs row_texts 6 "w1" 1 60 queue).1
unfolding claim_jobs is_candidate JobStatus-discrete sort
claim_hands_out_example = claim_hands_out row_texts 6 "w1" 1 60 queue leased (inl refl)

claim_spares_example :
    In waiting (claim_jobs row_texts 4 "w1" 1 60 queue).1
    × ((c : Job) → In c (claim_jobs row_texts 4 "w1" 1 60 queue).0 → c.id ≢ waiting.id)
unfolding is_candidate JobStatus-discrete
claim_spares_example =
    claim_spares row_texts 4 "w1" 1 60 queue waiting queue-IsValid (inl refl) refl

claim_fair_example :
    (a : Job) × In a (waiting ∷ later ∷ [])
    × (a.id ≡ leased.id)
    × (((d : Job) × In d (claim_jobs row_texts 6 "w1" 1 60 (waiting ∷ later ∷ [])).0
          × (d.id ≡ later.id))
        ⊎ (pair_le (row_texts a) (row_texts later) ≡ true))
unfolding claim_jobs claimed_jobs is_candidate lease_to claim_order JobStatus-discrete sort pair_le
claim_fair_example =
    claim_fair row_texts 6 "w1" 1 60 (waiting ∷ later ∷ []) leased later (inl refl) (inr (inl refl))
      refl

lease_kept_example :
    In leased (claim_jobs row_texts 66 "w2" 1 60 (claim_jobs row_texts 6 "w1" 1 60 queue).1).1
unfolding claim_jobs claimed_jobs is_candidate JobStatus-discrete sort
lease_kept_example =
    lease_kept row_texts 6 66 "w1" "w2" 1 1 60 60 queue leased queue-IsValid (inl refl)
      (omega arith)

lease_exclusive_example : later.id ≢ waiting.id
unfolding claim_jobs claimed_jobs is_candidate lease_to JobStatus-discrete sort claim_order
lease_exclusive_example =
    lease_exclusive row_texts 6 7 "w1" "w2" 1 1 60 60 (waiting ∷ later ∷ []) leased
      (lease_to 7 "w2" 60 later) both-IsValid (inl refl) (omega arith) (inl refl)

last_attempt_stuck_example :
    In last_try (claim_all row_texts ((1000, "w2", 5, 60) ∷ []) (last_try ∷ []))
last_attempt_stuck_example =
    last_attempt_stuck row_texts ((1000, "w2", 5, 60) ∷ []) (last_try ∷ []) last_try
      last_try-IsValid (inl refl) refl refl

reports-IsGuarded_example :
    IsGuarded "j1" "w2" queue (renew_job_lease 7 "j1" "w2" 60 queue)
    × IsGuarded "j1" "w2" queue (complete_job 7 "j1" "w2" queue)
    × IsGuarded "j1" "w2" queue (fail_job 7 "j1" "w2" "error" "" true 10 queue)
reports-IsGuarded_example = reports-IsGuarded 7 "j1" "w2" "error" "" true 10 60 queue

stale_worker_refused_example :
    let after = (claim_jobs row_texts 6 "w1" 1 60 queue).1 in
    (renew_job_lease 7 "j1" "w2" 60 after ≡ (false, after))
    × (complete_job 7 "j1" "w2" after ≡ (false, after))
    × (fail_job 7 "j1" "w2" "error" "" true 10 after ≡ (false, after))
unfolding claim_jobs claimed_jobs is_candidate lease_to JobStatus-discrete sort claim_order
stale_worker_refused_example =
    stale_worker_refused row_texts 6 7 "w1" "w2" "error" "" true 1 60 10 queue leased queue-IsValid
      (inl refl) (differ refl)

abbrev request : JobRequest
request = record {
  id = "";
  artifact_id = some "a1";
  type = JobType.static_scan;
  payload = empty;
  max_attempts = 0;
  available_at = none;
  idempotency_key = "static_scan:a1";
  policy_version_id = some "p1";
  run_id = none;
  stage_name = "static";
}

abbrev job_of : Result ArtifactError (Job × Repository) → Job
job_of (ok (j, s)) = j
job_of (err e) = waiting

abbrev repository_of : Result ArtifactError (Job × Repository) → Repository
repository_of (ok (j, s)) = s
repository_of (err e) = repository ReviewStatus.rejected

abbrev enqueued : Result ArtifactError (Job × Repository)
enqueued = enqueue_job 6 "j7" request (repository ReviewStatus.scanning)

enqueue_idempotent_example :
    enqueue_job 9 "j8" request (repository_of enqueued)
    ≡ ok (job_of enqueued, repository_of enqueued)
unfolding enqueue_job get JobType-discrete ReviewStatus-discrete
enqueue_idempotent_example =
    enqueue_idempotent 6 9 "j7" "j8" request (repository ReviewStatus.scanning) (job_of enqueued)
      (repository_of enqueued) refl

claim_jobs-IsValid_example : IsValid (claim_jobs row_texts 6 "w1" 1 60 queue).1
claim_jobs-IsValid_example = claim_jobs-IsValid row_texts 6 "w1" 1 60 queue queue-IsValid

fail_job-IsValid_example : IsValid (fail_job 7 "j1" "w1" "error" "" true 10 (last_try ∷ [])).1
fail_job-IsValid_example =
    fail_job-IsValid 7 "j1" "w1" "error" "" true 10 (last_try ∷ []) last_try-IsValid

abbrev sent : OutboxEvent
sent = notice OutboxStatus.delivered

delivery_final_example : In sent (claim_outbox event_texts 1000 "w1" 5 60 (sent ∷ [])).1
delivery_final_example =
    Delivery.delivery_final event_texts sent
      (record {
        distinct_ids = (λ y m. absurd m, tt);
        distinct_keys = (λ y m. absurd m, tt);
        bounded = λ e m. elim m [ inl q ↦ rw q (omega arith) | inr n ↦ absurd n ];
      })
      (inl refl) refl (Delivery.next Delivery.here (Delivery.claim 1000 "w1" 5 60))

abbrev message : OutboxRequest
message = record {
  id = "";
  event_type = "approved";
  aggregate_type = "artifact";
  aggregate_id = "a1";
  recipient_user_id = none;
  payload = empty;
  dedupe_key = "d1";
}

handed_at_most_five_example :
    (1 ≤ 5)
    × Delivery.IsValid (claim_outbox event_texts 7 "w1" 5 60 (enqueue_outbox 6 "e1" message []).1).1
unfolding enqueue_outbox claim_outbox claimed_events Outbox.is_candidate OutboxStatus-discrete
    Attempts.handed sort put Outbox.lease_to
handed_at_most_five_example = Attempts.handed_at_most_five event_texts "e1" (
    Attempts.call (Attempts.call Attempts.start (Delivery.enqueue 6 "e1" message (λ e m. absurd m)))
      (Delivery.claim 7 "w1" 5 60))
