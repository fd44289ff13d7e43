-- ===== src/Repository/Jobs/Claims.antt =====
-- What a claim hands out, what it leaves alone, and in which order.
use astrbot_community_plugin.Prelude.{
  refl, Option, none, some, ltb, ltb→lt, leb, leb→le, &&-true, ||-true, ◌==◌, ==→≡, Bool, ◌<◌, ◌&&◌,
  ℕ, ◌+◌, ◌≤◌, String, ◌≡◌, sym, ap, ◌≢◌, ◌⊎◌, inl, inr, ◌∙◌, true, false, List, [], ◌∷◌, map,
  arith, In, In-map, In-map_intro, In-filter_intro, member, In→member, Bool-cases, length,
  length-map, length-take-le, take, filter, string_eq,
}
use mathlib.Core.Path.{subst}
use astrbot_community_plugin.Prelude.Distinct.{eq_of_key}
use astrbot_community_plugin.Prelude.Sorting.{sort, In-sort_intro, Ordered-sort, Ordered-take}
use astrbot_community_plugin.Prelude.TextOrder.{pair_le, pair_le_total, pair_le_trans}
use astrbot_community_plugin.Lifecycle.Types.{JobStatus, JobStatus-discrete, job_status_eq}
use astrbot_community_plugin.Repository.Rows.{Job}
use astrbot_community_plugin.Repository.Jobs.{
  job_key, lease_expired, is_candidate, claim_order, lease_to, lease_claimed, claimed_jobs,
  claim_jobs,
}
use astrbot_community_plugin.Repository.Jobs.Invariant.{
  IsValid, claimed-is_candidate, claimed_of_id, claim_jobs-IsValid,
}

-- A job with an attempt left that waits and is available, or that runs without a lease that holds.
abbrev pub IsExpired : ℕ → Option ℕ → Type 0
IsExpired now none = Unit
IsExpired now (some expires) = expires < now

abbrev pub IsFree : ℕ → Job → Type 0
IsFree now j =
    (j.attempts < j.max_attempts)
    × (((j.status ≡ JobStatus.queued) × (j.available_at ≤ now))
        ⊎ ((j.status ≡ JobStatus.running) × IsExpired now j.lease_expires_at))

expired : (now : ℕ) (expires : Option ℕ) → lease_expired now expires ≡ true → IsExpired now expires
expired now none h = tt
expired now (some expires) h = ltb→lt expires now h

candidate-IsFree : (now : ℕ) (j : Job) → is_candidate now j ≡ true → IsFree now j
unfolding is_candidate
candidate-IsFree now j h =
    let (a, t) = &&-true (ltb j.attempts j.max_attempts) _ h in
    (
      ltb→lt j.attempts j.max_attempts a,
      elim (||-true (j.status == JobStatus.queued && leb j.available_at now) _ t) [
        | inl q ↦
            let (s, v) = &&-true (j.status == JobStatus.queued) (leb j.available_at now) q in
            inl (==→≡ j.status JobStatus.queued s, leb→le j.available_at now v)
        | inr r ↦
            let (s, v) =
              &&-true (j.status == JobStatus.running) (lease_expired now j.lease_expires_at) r in
            inr (==→≡ j.status JobStatus.running s, expired now j.lease_expires_at v)
      ],
    )

module _ (texts : Job → String × String) where
  -- The queue in which a claimed job stands is leased there.
  leased_In :
      (now : ℕ) (w : String) (lease : ℕ) (jobs claimed : List Job) (j : Job)
      → In j claimed
      → In j jobs
      → In (lease_to now w lease j) (map (lease_claimed now w lease (map job_key claimed)) jobs)
  leased_In now w lease jobs claimed j c m =
      let f : Job → Job = lease_claimed now w lease (map job_key claimed) in
      let e : f j ≡ lease_to now w lease j =
        unfold lease_claimed in
        rw (In→member j.id (map job_key claimed) (In-map_intro job_key claimed j c)) in
      rw (← e) (In-map_intro f jobs j m)

  -- A claim hands out at most `limit` jobs.
  pub claim_limit :
      (now : ℕ) (w : String) (limit lease : ℕ) (jobs : List Job)
      → length (claim_jobs texts now w limit lease jobs).0 ≤ limit
  unfolding claim_jobs claimed_jobs
  claim_limit now w limit lease jobs =
      let pool : List Job = sort (claim_order texts) (filter (is_candidate now) jobs) in
      omega (arith, length-map (lease_to now w lease) (take limit pool), length-take-le limit pool)

  candidate_bounded :
      (now : ℕ) (w : String) (lease : ℕ) (j : Job)
      → is_candidate now j ≡ true
      → (lease_to now w lease j).attempts ≤ (lease_to now w lease j).max_attempts
  unfolding is_candidate lease_to
  candidate_bounded now w lease j h = ground arith

  pub claimed_lease :
      (now : ℕ) (w : String) (limit lease : ℕ) (jobs : List Job) (c : Job)
      → In c (claim_jobs texts now w limit lease jobs).0
      → (j : Job) × In j jobs
        × (is_candidate now j ≡ true)
        × (c ≡ lease_to now w lease j)
        × In c (claim_jobs texts now w limit lease jobs).1
  unfolding claim_jobs
  claimed_lease now w limit lease jobs c m =
      let (j, n, e) = In-map (lease_to now w lease) (claimed_jobs texts now limit jobs) m in
      let (q, t) = claimed-is_candidate texts now limit jobs j n in
      (j, q, t, e, rw e (leased_In now w lease jobs (claimed_jobs texts now limit jobs) j n q))

  -- A job that is handed out was in the queue with an attempt left, queued and available or running
  -- under a lease that has expired. It now stands in the queue with one attempt more, at most the
  -- allowed number, running under the worker's lease until `now + lease`, otherwise as it was.
  pub claim_hands_out :
      (now : ℕ) (w : String) (limit lease : ℕ) (jobs : List Job) (c : Job)
      → In c (claim_jobs texts now w limit lease jobs).0
      → (j : Job) × In j jobs
        × IsFree now j
        × (c ≡ record j {
          status = JobStatus.running;
          attempts = j.attempts + 1;
          lease_owner = some w;
          lease_expires_at = some (now + lease);
          updated_at = now;
        })
        × (c.attempts ≤ c.max_attempts)
        × In c (claim_jobs texts now w limit lease jobs).1
  claim_hands_out now w limit lease jobs c m =
      let (j, n, t, e, q) = claimed_lease now w limit lease jobs c m in
      (
        j,
        n,
        candidate-IsFree now j t,
        unfold lease_to in e,
        rw e (candidate_bounded now w lease j t),
        q,
      )

  -- In a valid queue a job that is no candidate is left as it is, and none that is handed out has
  -- its id.
  pub claim_spares :
      (now : ℕ) (w : String) (limit lease : ℕ) (jobs : List Job) (j : Job)
      → IsValid jobs
      → In j jobs
      → is_candidate now j ≡ false
      → In j (claim_jobs texts now w limit lease jobs).1
        × ((c : Job) → In c (claim_jobs texts now w limit lease jobs).0 → c.id ≢ j.id)
  unfolding claim_jobs
  claim_spares now w limit lease jobs j h m f = (kept, apart)
    where
      unclaimed : In j (claimed_jobs texts now limit jobs) → ⊥
      unclaimed n = cc (f, (claimed-is_candidate texts now limit jobs j n).1)

      out : member j.id (map job_key (claimed_jobs texts now limit jobs)) ≡ false
      out = elim (Bool-cases (member j.id (map job_key (claimed_jobs texts now limit jobs)))) [
        | inl t ↦ absurd (unclaimed (claimed_of_id texts now limit jobs j h m t))
        | inr e ↦ e
      ]

      kept :
          In j
            (map (lease_claimed now w lease (map job_key (claimed_jobs texts now limit jobs))) jobs)
      kept =
          let g : Job → Job =
            lease_claimed now w lease (map job_key (claimed_jobs texts now limit jobs)) in
          let e : g j ≡ j = unfold lease_claimed in rw out in
          let n : In (g j) (map g jobs) = In-map_intro g jobs j m in
          subst (λ x. In x (map g jobs)) e n

      apart :
          (c : Job)
          → In c (map (lease_to now w lease) (claimed_jobs texts now limit jobs))
          → c.id ≢ j.id
      apart c n q =
          let (k, l, e) = In-map (lease_to now w lease) (claimed_jobs texts now limit jobs) n in
          let same : k.id ≡ j.id = unfold lease_to in sym (ap job_key e) ∙ q in
          unclaimed (
            subst (λ x. In x (claimed_jobs texts now limit jobs))
              (eq_of_key job_key jobs k j h.distinct_ids
                (claimed-is_candidate texts now limit jobs k l).0 m same)
              l)

  -- Jobs are handed out in the order of the texts in `available_at` and then `created_at`: where a job
  -- is handed out, a candidate of the queue is handed out too, or does not come before that job.
  pub claim_fair :
      (now : ℕ) (w : String) (limit lease : ℕ) (jobs : List Job) (c b : Job)
      → In c (claim_jobs texts now w limit lease jobs).0
      → In b jobs
      → is_candidate now b ≡ true
      → (a : Job) × In a jobs
        × (a.id ≡ c.id)
        × (((d : Job) × In d (claim_jobs texts now w limit lease jobs).0 × (d.id ≡ b.id))
            ⊎ (pair_le (texts a) (texts b) ≡ true))
  unfolding claim_jobs claimed_jobs lease_to claim_order
  claim_fair now w limit lease jobs c b m n t =
      let pool : List Job = filter (is_candidate now) jobs in
      let order : Job → Job → Bool = λ x y. pair_le (texts x) (texts y) in
      let total : (x y : Job) → order x y ≡ false → order y x ≡ true =
        λ x y. pair_le_total (texts x) (texts y) in
      let trans : (x y z : Job) → order x y ≡ true → order y z ≡ true → order x z ≡ true =
        λ x y z. pair_le_trans (texts x) (texts y) (texts z) in
      let (a, k, e) = In-map (lease_to now w lease) (take limit (sort order pool)) m in
      let q : In a jobs = (claimed-is_candidate texts now limit jobs a k).0 in
      (
        a,
        q,
        sym (ap job_key e),
        elim (Ordered-take order total trans limit (sort order pool) a b
            (Ordered-sort order total trans pool) k
            (In-sort_intro order pool b (In-filter_intro (is_candidate now) jobs n t))) [
              | inl l ↦ inl (
                lease_to now w lease b,
                In-map_intro (lease_to now w lease) (take limit (sort order pool)) b l,
                refl,
              )
              | inr o ↦ inr o
            ],
      )

  leased_not_candidate :
      (now now' : ℕ) (w : String) (lease : ℕ) (j : Job)
      → now' ≤ now + lease
      → is_candidate now' (lease_to now w lease j) ≡ false
  unfolding is_candidate lease_to JobStatus-discrete
  leased_not_candidate now now' w lease j h = ground arith

  lease_spared :
      (now now' : ℕ) (w w' : String) (limit limit' lease lease' : ℕ) (jobs : List Job) (c : Job)
      → IsValid jobs
      → In c (claim_jobs texts now w limit lease jobs).0
      → now' ≤ now + lease
      → let queue = (claim_jobs texts now w limit lease jobs).1 in
        In c (claim_jobs texts now' w' limit' lease' queue).1
        × ((d : Job) → In d (claim_jobs texts now' w' limit' lease' queue).0 → d.id ≢ c.id)
  lease_spared now now' w w' limit limit' lease lease' jobs c h m t =
      let (j, n, k, e, q) = claimed_lease now w limit lease jobs c m in
      claim_spares now' w' limit' lease' (claim_jobs texts now w limit lease jobs).1 c
        (claim_jobs-IsValid texts now w limit lease jobs h) q
        (rw e (leased_not_candidate now now' w lease j t))

  -- While the lease of a job claimed from a valid queue runs, a further claim leaves the job in the
  -- queue as it is, whoever makes it.
  pub lease_kept :
      (now now' : ℕ) (w w' : String) (limit limit' lease lease' : ℕ) (jobs : List Job) (c : Job)
      → IsValid jobs
      → In c (claim_jobs texts now w limit lease jobs).0
      → now' ≤ now + lease
      → In c (claim_jobs texts now' w' limit' lease' (claim_jobs texts now w limit lease jobs).1).1
  lease_kept now now' w w' limit limit' lease lease' jobs c h m t =
      (lease_spared now now' w w' limit limit' lease lease' jobs c h m t).0

  -- Two claims from a valid queue, the second while the leases of the first run, hand out different
  -- jobs.
  pub lease_exclusive :
      (now now' : ℕ) (w w' : String) (limit limit' lease lease' : ℕ) (jobs : List Job) (c d : Job)
      → IsValid jobs
      → In c (claim_jobs texts now w limit lease jobs).0
      → now' ≤ now + lease
      → In d (claim_jobs texts now' w' limit' lease' (claim_jobs texts now w limit lease jobs).1).0
      → d.id ≢ c.id
  lease_exclusive now now' w w' limit limit' lease lease' jobs c d h m t =
      (lease_spared now now' w w' limit limit' lease lease' jobs c h m t).1 d

  -- A sequence of claims, each with its time, worker, limit and lease.
  abbrev pub Claim : Type 0
  Claim = ℕ × String × ℕ × ℕ

  pub claim_all : List Claim → List Job → List Job
  claim_all [] jobs = jobs
  claim_all ((now, w, limit, lease) ∷ rest) jobs =
      claim_all rest (claim_jobs texts now w limit lease jobs).1

  spent_not_candidate :
      (now : ℕ) (j : Job) → j.max_attempts ≤ j.attempts → is_candidate now j ≡ false
  unfolding is_candidate
  spent_not_candidate now j h = ground arith

  -- A running job of a valid queue that has used up its attempts stays in the queue as it is through
  -- every sequence of claims, however late they come: no claim takes it over or ends it.
  pub last_attempt_stuck :
      (claims : List Claim) (jobs : List Job) (j : Job)
      → IsValid jobs
      → In j jobs
      → j.status ≡ JobStatus.running
      → j.attempts ≡ j.max_attempts
      → In j (claim_all claims jobs)
  unfolding claim_all
  last_attempt_stuck [] jobs j h m r s = m
  last_attempt_stuck ((now, w, limit, lease) ∷ rest) jobs j h m r s =
      last_attempt_stuck rest (claim_jobs texts now w limit lease jobs).1 j
        (claim_jobs-IsValid texts now w limit lease jobs h)
        (claim_spares now w limit lease jobs j h m (spent_not_candidate now j (omega arith))).0 r s
