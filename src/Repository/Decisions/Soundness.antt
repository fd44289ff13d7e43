-- ===== src/Repository/Decisions/Soundness.antt =====
-- The approvals of repository.py against what they have to check, the publish job they leave, the
-- comment threads they lock, and the repetition of a decision.
use mathlib.Core.Path.{subst}
use astrbot_community_plugin.Prelude.{
  ℕ, String, ◌≡◌, ◌≢◌, ap, inl, inr, true, false, Option, none, some, List, Option-cases, ◌==◌,
  string_eq, ==→≡, ==-refl, ok, raise_if-then, ok-injective, is_empty, In, any, any-elim, all,
  all-elim, &&-true, option_eq, nat_eq,
}
use astrbot_community_plugin.Prelude.Dict.{get, get-key, find-put_new}
use astrbot_community_plugin.Prelude.Text.{sorted_set, In-sorted_set_intro}
use astrbot_community_plugin.Lifecycle.Types.{
  ReviewStatus, RunType, run_type_eq, RunStatus, run_status_eq,
}
use astrbot_community_plugin.Repository.Rows.{Artifact, Run, Job, Repository}
use astrbot_community_plugin.Repository.{
  artifact_key, get_artifact, get_plugin, text_or_none, text_of, resolved_policy_snapshot,
}
use astrbot_community_plugin.Repository.Jobs.{job_key, job_with_key}
use astrbot_community_plugin.Repository.Decisions.{run_key, decision_with_key}
use astrbot_community_plugin.Repository.Decisions.Approvals.{
  Approval, owner_of, repo_version_of, is_success, required_runs, put_new_job, approve_found,
  approve_keyed, approve_artifact,
}
use astrbot_community_plugin.Repository.Decisions.Automatic.{
  AutoApproval, is_matching, matching_run, auto_found, auto_keyed, auto_approve_artifact,
}
use astrbot_community_plugin.Repository.Decisions.Grounds.{
  Approved, approve_found-Approved, AutoApproved, auto_found-AutoApproved,
}

some_none : {a : Artifact} → none ≢ some a
some_none h = cc

-- A succeeded run of one type for an artifact under a policy.
abbrev pub HasRun : RunType → String → Option String → List Run → Type 0
HasRun type artifact_id policy runs =
    (run : Run) × In run runs
    × (run.type ≡ type)
    × (run.artifact_id ≡ artifact_id)
    × (run.status ≡ RunStatus.succeeded)
    × (run.policy_version_id ≡ policy)

has_run :
    (type : RunType) (artifact_id : String) (policy : Option String) (runs : List Run)
    → any (is_success type artifact_id policy) runs ≡ true
    → HasRun type artifact_id policy runs
unfolding is_success
has_run type artifact_id policy runs e =
    let (run, m, t) = any-elim (is_success type artifact_id policy) runs e in
    let (t1, p) = &&-true _ _ t in
    let (t2, s) = &&-true _ _ t1 in
    let (k, i) = &&-true _ _ t2 in (run, m, ==→≡ _ _ k, ==→≡ _ _ i, ==→≡ _ _ s, ==→≡ _ _ p)

both_runs :
    (artifact_id : String) (policy : Option String) (runs : List Run)
    → required_runs artifact_id policy runs ≡ true
    → HasRun RunType.precheck artifact_id policy runs
      × HasRun RunType.static artifact_id policy runs
unfolding required_runs
both_runs artifact_id policy runs e =
    let (p, s) = &&-true _ _ e in
    (
      has_run RunType.precheck artifact_id policy runs p,
      has_run RunType.static artifact_id policy runs s,
    )

-- After an approval some job holds the key of the publish job.
pub has_job_after :
    (job : Job) (jobs : List Job)
    → (j : Job) × (job_with_key job.idempotency_key (put_new_job job jobs) ≡ some j)
unfolding put_new_job
has_job_after job jobs = elim (Option-cases (job_with_key job.idempotency_key jobs)) [
  | inl n ↦ (
    job,
    rw (n, put_new_job)
        (find-put_new job_key (λ j. j.idempotency_key == job.idempotency_key) job jobs n
          (==-refl job.idempotency_key)),
  )
  | inr (j, f) ↦ (j, rw (f, put_new_job) f)
]

approve_none :
    (now : ℕ) (fresh fresh_job : String) (q : Approval) (r : Repository) {b : Artifact}
    {s : Repository}
    → approve_found now fresh fresh_job q r none ≢ ok (some b, s)
unfolding approve_found
approve_none now fresh fresh_job q r e = some_none (ap (λ p. p.0) (ok-injective e))

approve_there :
    (now : ℕ) (fresh fresh_job : String) (q : Approval) (r : Repository) (found : Option Artifact)
    {b : Artifact} {s : Repository}
    → approve_found now fresh fresh_job q r found ≡ ok (some b, s)
    → (a : Artifact) × (found ≡ some a) × Approved now fresh fresh_job q r a (some b) s
approve_there now fresh fresh_job q r found {b} {s} e = elim (Option-cases found) [
  | inl n ↦ absurd (
      approve_none now fresh fresh_job q r
        (subst (λ o. approve_found now fresh fresh_job q r o ≡ ok (some b, s)) n e))
  | inr (a, f) ↦ (
    a,
    f,
    approve_found-Approved now fresh fresh_job q r a
        (subst (λ o. approve_found now fresh fresh_job q r o ≡ ok (some b, s)) f e),
  )
]

pub approve_written :
    (now : ℕ) (fresh fresh_job id : String) (q : Approval) (r : Repository) (b : Artifact)
    (s : Repository)
    → decision_with_key q.idempotency_key r.decisions ≡ none
    → approve_artifact now fresh fresh_job id q r ≡ ok (some b, s)
    → (a : Artifact) × (get_artifact id r ≡ some a) × Approved now fresh fresh_job q r a (some b) s
unfolding approve_artifact approve_keyed
approve_written now fresh fresh_job id q r b s n e =
    approve_there now fresh fresh_job q r (get_artifact id r)
      (subst (λ d. approve_keyed now fresh fresh_job id q r d ≡ ok (some b, s)) n e)

auto_none :
    (now : ℕ) (fresh fresh_job : String) (q : AutoApproval) (r : Repository) {b : Artifact}
    {s : Repository}
    → auto_found now fresh fresh_job q r none ≢ ok (some b, s)
unfolding auto_found
auto_none now fresh fresh_job q r e = some_none (ap (λ p. p.0) (ok-injective e))

auto_there :
    (now : ℕ) (fresh fresh_job : String) (q : AutoApproval) (r : Repository)
    (found : Option Artifact) {b : Artifact} {s : Repository}
    → auto_found now fresh fresh_job q r found ≡ ok (some b, s)
    → (a : Artifact) × (found ≡ some a) × AutoApproved now fresh fresh_job q r a (some b) s
auto_there now fresh fresh_job q r found {b} {s} e = elim (Option-cases found) [
  | inl n ↦ absurd (
      auto_none now fresh fresh_job q r
        (subst (λ o. auto_found now fresh fresh_job q r o ≡ ok (some b, s)) n e))
  | inr (a, f) ↦ (
    a,
    f,
    auto_found-AutoApproved now fresh fresh_job q r a
        (subst (λ o. auto_found now fresh fresh_job q r o ≡ ok (some b, s)) f e),
  )
]

pub auto_written :
    (now : ℕ) (fresh fresh_job id : String) (q : AutoApproval) (r : Repository) (b : Artifact)
    (s : Repository)
    → decision_with_key q.idempotency_key r.decisions ≡ none
    → auto_approve_artifact now fresh fresh_job id q r ≡ ok (some b, s)
    → (a : Artifact) × (get_artifact id r ≡ some a)
      × (is_empty q.input_run_ids ≡ false)
      × AutoApproved now fresh fresh_job q r a (some b) s
unfolding auto_approve_artifact auto_keyed
auto_written now fresh fresh_job id q r b s n e =
    let (t, k) = raise_if-then (is_empty q.input_run_ids) _ _ e in
    let (a, f, facts) =
      auto_there now fresh fresh_job q r (get_artifact id r)
        (subst (λ d. auto_keyed now fresh fresh_job id q r d ≡ ok (some b, s)) n k) in
    (a, f, t, facts)

-- An approval under a new key that returns an artifact was of a pending one whose plugin the
-- reviewer does not own, at the versions the reviewer saw, with a succeeded precheck and a
-- succeeded static scan of that artifact under its policy.
pub approve_sound :
    (now : ℕ) (fresh fresh_job id : String) (q : Approval) (r : Repository) (b : Artifact)
    (s : Repository)
    → decision_with_key q.idempotency_key r.decisions ≡ none
    → approve_artifact now fresh fresh_job id q r ≡ ok (some b, s)
    → (a : Artifact) × (get_artifact id r ≡ some a)
      × (a.review_status ≡ ReviewStatus.pending_review)
      × (owner_of (get_plugin a.plugin_id r) ≢ text_of q.reviewer.id)
      × (repo_version_of (get_plugin a.plugin_id r) ≡ q.expected_repo_version)
      × (a.normalized_version ≡ q.expected_normalized_version)
      × HasRun RunType.precheck id (text_or_none a.policy_version_id) r.runs
      × HasRun RunType.static id (text_or_none a.policy_version_id) r.runs
approve_sound now fresh fresh_job id q r b s n e =
    let (a, f, facts) = approve_written now fresh fresh_job id q r b s n e in
    let k : a.id ≡ id = get-key artifact_key id r.artifacts f in
    let (p, t) = both_runs id (text_or_none a.policy_version_id) r.runs (
      subst (λ i. required_runs i (text_or_none a.policy_version_id) r.runs ≡ true) k
        facts.runs_there) in
    (a, f, facts.pending, facts.other_owner, facts.same_repo_version, facts.same_version, p, t)

matching_run_there :
    (id : String) (policy : Option String) (runs : List Run) (run_id : String)
    → matching_run id policy runs run_id ≡ true
    → (run : Run) × (get run_key run_id runs ≡ some run)
      × (run.artifact_id ≡ id)
      × (run.policy_version_id ≡ policy)
      × (run.status ≡ RunStatus.succeeded)
unfolding matching_run is_matching
matching_run_there id policy runs run_id e = elim (Option-cases (get run_key run_id runs)) [
  | inl n ↦ cc (subst (λ o. is_matching id policy o ≡ true) n e)
  | inr (run, f) ↦
      let (t, c) = &&-true _ _ (subst (λ o. is_matching id policy o ≡ true) f e) in
      let (i, p) = &&-true _ _ t in (run, f, ==→≡ _ _ i, ==→≡ _ _ p, ==→≡ _ _ c)
]

-- An approval by the policy under a new key that returns an artifact was of one that is being
-- scanned, at the versions named in the call. The call names at least one run, and every run that it
-- names is a succeeded run of that artifact under the policy that the artifact and the call agree on.
pub auto_approve_sound :
    (now : ℕ) (fresh fresh_job id : String) (q : AutoApproval) (r : Repository) (b : Artifact)
    (s : Repository)
    → decision_with_key q.idempotency_key r.decisions ≡ none
    → auto_approve_artifact now fresh fresh_job id q r ≡ ok (some b, s)
    → (a : Artifact) × (policy : Option String) × (get_artifact id r ≡ some a)
      × (a.review_status ≡ ReviewStatus.scanning)
      × (resolved_policy_snapshot a.policy_version_id (some q.policy_version_id) ≡ ok policy)
      × (repo_version_of (get_plugin a.plugin_id r) ≡ q.expected_repo_version)
      × (a.normalized_version ≡ q.expected_normalized_version)
      × (a.version ≡ q.expected_version)
      × (is_empty q.input_run_ids ≡ false)
      × ((run_id : String)
          → In run_id q.input_run_ids
          → (run : Run) × (get run_key run_id r.runs ≡ some run)
            × (run.artifact_id ≡ id)
            × (run.policy_version_id ≡ policy)
            × (run.status ≡ RunStatus.succeeded))
auto_approve_sound now fresh fresh_job id q r b s n e =
    let (a, f, t, facts) = auto_written now fresh fresh_job id q r b s n e in
    let k : a.id ≡ id = get-key artifact_key id r.artifacts f in
    let matched : all (matching_run id facts.policy_id r.runs) (sorted_set q.input_run_ids) ≡ true =
      subst (λ i. all (matching_run i facts.policy_id r.runs) (sorted_set q.input_run_ids) ≡ true) k
        facts.runs_match in
    (
      a,
      facts.policy_id,
      f,
      facts.scanning,
      facts.snapshot,
      facts.same_repo_version,
      facts.same_normalized,
      facts.same_version,
      t,
      λ run_id m. matching_run_there id facts.policy_id r.runs run_id (
          all-elim (matching_run id facts.policy_id r.runs) (sorted_set q.input_run_ids) matched
            (In-sorted_set_intro q.input_run_ids run_id m)),
    )
