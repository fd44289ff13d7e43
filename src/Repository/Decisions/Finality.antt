-- ===== src/Repository/Decisions/Finality.antt =====
-- What decide_artifact, approve_artifact and auto_approve_artifact of repository.py change: the
-- status of one artifact that is not decided, along the transition table of models.py.
use astrbot_community_plugin.Prelude.{
  ℕ, String, ◌≡◌, ◌∙◌, ap, ◌⊎◌, inl, inr, true, false, Option, some, List, [], ◌∷◌, is_empty,
  string_eq, ok, raise_if-then,
}
use mathlib.Core.Path.{subst}
use astrbot_community_plugin.Lifecycle.Types.{ReviewStatus}
use astrbot_community_plugin.Lifecycle.Reviews.{Allowed, History, start, change}
use astrbot_community_plugin.Repository.Rows.{Artifact, Repository}
use astrbot_community_plugin.Repository.{get_artifact}
use astrbot_community_plugin.Repository.Decisions.{
  DecisionRequest, decision_with_key, is_terminal, target_mismatch, decide_artifact,
}
use astrbot_community_plugin.Repository.Decisions.Approvals.{Approval, approve_artifact}
use astrbot_community_plugin.Repository.Decisions.Automatic.{AutoApproval, auto_approve_artifact}
use astrbot_community_plugin.Repository.Decisions.Writes.{
  Write, decide_keyed-writes, approve_keyed-writes, auto_keyed-writes, Write-at,
}

-- A successful call of one of the three operations that decide.
pub data Step : Repository → Repository → Type 0 where
  decide :
      (now : ℕ) (fresh id : String) (q : DecisionRequest) {r s : Repository} {x : Option Artifact}
      → decide_artifact now fresh id q r ≡ ok (x, s)
      → Step r s
  approve :
      (now : ℕ) (fresh fresh_job id : String) (q : Approval) {r s : Repository}
      {x : Option Artifact}
      → approve_artifact now fresh fresh_job id q r ≡ ok (x, s)
      → Step r s
  auto_approve :
      (now : ℕ) (fresh fresh_job id : String) (q : AutoApproval) {r s : Repository}
      {x : Option Artifact}
      → auto_approve_artifact now fresh fresh_job id q r ≡ ok (x, s)
      → Step r s

pub data Reach : Repository → Repository → Type 0 where
  done : {r : Repository} → Reach r r
  step : {r s t : Repository} → Step r s → Reach s t → Reach r t

Step-writes : {r s : Repository} → Step r s → (s ≡ r) ⊎ Write r s
unfolding decide_artifact approve_artifact auto_approve_artifact
Step-writes {r} (decide now fresh id q e) =
    let (t, k) = raise_if-then (target_mismatch q) _ _ e in
    decide_keyed-writes now fresh id q r (decision_with_key q.idempotency_key r.decisions) k
Step-writes {r} (approve now fresh fresh_job id q e) =
    approve_keyed-writes now fresh fresh_job id q r
      (decision_with_key q.idempotency_key r.decisions) e
Step-writes {r} (auto_approve now fresh fresh_job id q e) =
    let (t, k) = raise_if-then (is_empty q.input_run_ids) _ _ e in
    auto_keyed-writes now fresh fresh_job id q r (decision_with_key q.idempotency_key r.decisions) k

Step-of :
    {r s : Repository} {a : Artifact} (id : String)
    → Step r s
    → get_artifact id r ≡ some a
    → (get_artifact id s ≡ some a)
      ⊎ ((b : Artifact) × (get_artifact id s ≡ some b)
          × (is_terminal a.review_status ≡ false)
          × Allowed a.review_status b.review_status)
Step-of id t f = elim (Step-writes t) [
  | inl e ↦ inl (ap (get_artifact id) e ∙ f)
  | inr w ↦ elim (Write-at w id f) [
    | inl g ↦ inl g
    | inr (q, g) ↦ inr (
      w.after,
      g,
      subst (λ a. is_terminal a.review_status ≡ false) q w.open_before,
      subst (λ a. Allowed a.review_status w.after.review_status) q w.allowed,
    )
  ]
]

-- An artifact with a decided status stays in the repository as it is, whatever sequence of
-- decisions and approvals follows.
pub decided_final :
    {r s : Repository} (id : String) (a : Artifact)
    → Reach r s
    → get_artifact id r ≡ some a
    → is_terminal a.review_status ≡ true
    → get_artifact id s ≡ some a
decided_final id a done f t = f
decided_final id a (step p h) f t = elim (Step-of id p f) [
  | inl g ↦ decided_final id a h g t
  | inr (b, g, n, k) ↦ cc (t, n)
]

-- A sequence of decisions and approvals keeps every artifact, and takes its status along a history
-- of changes that the transition table accepts.
pub decisions_follow_table :
    {r s : Repository} (id : String) (a : Artifact)
    → Reach r s
    → get_artifact id r ≡ some a
    → (b : Artifact) × (path : List ReviewStatus) × (get_artifact id s ≡ some b)
      × History a.review_status path b.review_status
decisions_follow_table id a done f = (a, a.review_status ∷ [], f, start a.review_status)
decisions_follow_table id a (step p h) f = elim (Step-of id p f) [
  | inl g ↦ decisions_follow_table id a h g
  | inr (b, g, n, k) ↦
      let (c, path, m, l) = decisions_follow_table id b h g in
      (c, a.review_status ∷ path, m, change k l)
]
