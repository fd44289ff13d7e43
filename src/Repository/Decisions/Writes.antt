-- ===== src/Repository/Decisions/Writes.antt =====
-- The writes of decide_artifact, approve_artifact and auto_approve_artifact of repository.py to the
-- artifacts.
use astrbot_community_plugin.Prelude.{
  ℕ, String, ◌≡◌, refl, sym, ◌∙◌, ap, ◌⊎◌, inl, inr, false, Option, none, some, Bool-cases,
  some-injective, ◌==◌, string_eq, ==→≡, ok, >>=-eq-ok, raise_if-then, ok-injective, arith,
  if◌then◌else◌,
}
use mathlib.Core.Path.{subst}
use astrbot_community_plugin.Prelude.Dict.{get, put, get-key, get-put}
use astrbot_community_plugin.Lifecycle.Types.{ReviewStatus, ReviewStatus-discrete}
use astrbot_community_plugin.Lifecycle.{validate_review_transition}
use astrbot_community_plugin.Lifecycle.Reviews.{Allowed}
use astrbot_community_plugin.Repository.Rows.{Artifact, Decision, Repository}
use astrbot_community_plugin.Repository.{artifact_key, get_artifact, resolved_policy_snapshot}
use astrbot_community_plugin.Repository.Decisions.{
  DecisionRequest, policy_text, decided, is_terminal, write_decision, decide_found, decide_replayed,
  decide_keyed,
}
use astrbot_community_plugin.Repository.Decisions.Approvals.{
  Approval, write_approval, approval_replayed, approve_found, approve_keyed,
}
use astrbot_community_plugin.Repository.Decisions.Automatic.{AutoApproval, auto_found, auto_keyed}
use astrbot_community_plugin.Repository.Decisions.Grounds.{
  approve_found-Approved, auto_found-AutoApproved,
}

-- A write to one artifact, not decided before, along the transition table.
pub record Write (r s : Repository) : Type 0 where
  pub before : Artifact
  pub after : Artifact
  pub found : get_artifact before.id r ≡ some before
  pub open_before : is_terminal before.review_status ≡ false
  pub allowed : Allowed before.review_status after.review_status
  pub same_id : after.id ≡ before.id
  pub written : s.artifacts ≡ put artifact_key after r.artifacts

found_by_id :
    (id : String) (r : Repository) {a : Artifact}
    → get_artifact id r ≡ some a
    → get_artifact a.id r ≡ some a
found_by_id id r {a} f =
    subst (λ k. get_artifact k r ≡ some a) (sym (get-key artifact_key id r.artifacts f)) f

decide_found-writes :
    (now : ℕ) (fresh id : String) (q : DecisionRequest) (r : Repository) (found : Option Artifact)
    {x : Option Artifact} {s : Repository}
    → get_artifact id r ≡ found
    → decide_found now fresh id q r found ≡ ok (x, s)
    → (s ≡ r) ⊎ Write r s
unfolding decide_found write_decision decided
decide_found-writes now fresh id q r none f e = inl (cc)
decide_found-writes now fresh id q r (some a) f e =
    let (p, e1, k1) =
      >>=-eq-ok (resolved_policy_snapshot a.policy_version_id q.policy_version_id) _ e in
    let (v, e2, k2) = >>=-eq-ok (policy_text q.policy_version p r) _ k1 in
    let (n, k3) = raise_if-then (is_terminal a.review_status) _ _ k2 in
    let (w, e4, k4) = >>=-eq-ok (validate_review_transition a.review_status q.target) _ k3 in
    inr (record {
      before = a;
      after = decided now q a;
      found = found_by_id id r f;
      open_before = n;
      allowed = e4;
      same_id = refl;
      written = sym (ap (λ p. p.1.artifacts) (ok-injective k4));
    })

approve_found-writes :
    (now : ℕ) (fresh fresh_job id : String) (q : Approval) (r : Repository)
    (found : Option Artifact) {x : Option Artifact} {s : Repository}
    → get_artifact id r ≡ found
    → approve_found now fresh fresh_job q r found ≡ ok (x, s)
    → (s ≡ r) ⊎ Write r s
unfolding approve_found write_approval is_terminal ReviewStatus-discrete
approve_found-writes now fresh fresh_job id q r none f e = inl (cc)
approve_found-writes now fresh fresh_job id q r (some a) f e =
    let facts = approve_found-Approved now fresh fresh_job q r a e in
    inr (record {
      before = a;
      after = record a {
        review_status = ReviewStatus.approved;
        reviewed_at = some now;
        updated_at = now;
      };
      found = found_by_id id r f;
      open_before = rw facts.pending refl;
      allowed = unfold validate_review_transition in rw facts.pending refl;
      same_id = refl;
      written = sym (ap (λ p. p.1.artifacts) facts.result);
    })

auto_found-writes :
    (now : ℕ) (fresh fresh_job id : String) (q : AutoApproval) (r : Repository)
    (found : Option Artifact) {x : Option Artifact} {s : Repository}
    → get_artifact id r ≡ found
    → auto_found now fresh fresh_job q r found ≡ ok (x, s)
    → (s ≡ r) ⊎ Write r s
unfolding auto_found write_approval is_terminal ReviewStatus-discrete
auto_found-writes now fresh fresh_job id q r none f e = inl (cc)
auto_found-writes now fresh fresh_job id q r (some a) f e =
    let facts = auto_found-AutoApproved now fresh fresh_job q r a e in
    inr (record {
      before = a;
      after = record a {
        review_status = ReviewStatus.approved;
        risk_level = q.risk_level;
        reviewed_at = some now;
        updated_at = now;
      };
      found = found_by_id id r f;
      open_before = rw facts.scanning refl;
      allowed = unfold validate_review_transition in rw facts.scanning refl;
      same_id = refl;
      written = sym (ap (λ p. p.1.artifacts) facts.result);
    })

pub decide_keyed-writes :
    (now : ℕ) (fresh id : String) (q : DecisionRequest) (r : Repository) (found : Option Decision)
    {x : Option Artifact} {s : Repository}
    → decide_keyed now fresh id q r found ≡ ok (x, s)
    → (s ≡ r) ⊎ Write r s
unfolding decide_keyed decide_replayed
decide_keyed-writes now fresh id q r none e =
    decide_found-writes now fresh id q r (get_artifact id r) refl e
decide_keyed-writes now fresh id q r (some d) e = inl (ground arith)

pub approve_keyed-writes :
    (now : ℕ) (fresh fresh_job id : String) (q : Approval) (r : Repository)
    (found : Option Decision) {x : Option Artifact} {s : Repository}
    → approve_keyed now fresh fresh_job id q r found ≡ ok (x, s)
    → (s ≡ r) ⊎ Write r s
unfolding approve_keyed approval_replayed
approve_keyed-writes now fresh fresh_job id q r none e =
    approve_found-writes now fresh fresh_job id q r (get_artifact id r) refl e
approve_keyed-writes now fresh fresh_job id q r (some d) e = inl (ground arith)

pub auto_keyed-writes :
    (now : ℕ) (fresh fresh_job id : String) (q : AutoApproval) (r : Repository)
    (found : Option Decision) {x : Option Artifact} {s : Repository}
    → auto_keyed now fresh fresh_job id q r found ≡ ok (x, s)
    → (s ≡ r) ⊎ Write r s
unfolding auto_keyed approval_replayed
auto_keyed-writes now fresh fresh_job id q r none e =
    auto_found-writes now fresh fresh_job id q r (get_artifact id r) refl e
auto_keyed-writes now fresh fresh_job id q r (some d) e = inl (ground arith)

-- The artifact under an id after a write: the one that was there, or the one written over it.
pub Write-at :
    {r s : Repository} (w : Write r s) (id : String) {a : Artifact}
    → get_artifact id r ≡ some a
    → (get_artifact id s ≡ some a) ⊎ ((w.before ≡ a) × (get_artifact id s ≡ some w.after))
Write-at {r} {s} w id {a} f =
    let e : get_artifact id s ≡ (if w.after.id == id then some w.after else get_artifact id r) =
      ap (get artifact_key id) w.written ∙ get-put artifact_key id w.after r.artifacts in
    elim (Bool-cases (w.after.id == id)) [
      | inl t ↦
          let q : w.before.id ≡ id = sym w.same_id ∙ ==→≡ w.after.id id t in
          let g : get_artifact id r ≡ some w.before =
            subst (λ k. get_artifact k r ≡ some w.before) q w.found in
          inr (some-injective (sym g ∙ f), rw t at e)
      | inr n ↦ inl (rw n at e ∙ f)
    ]
