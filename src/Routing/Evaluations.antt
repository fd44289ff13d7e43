-- ===== src/Routing/Evaluations.antt =====
-- The evaluation of an artifact: when it is approved, when it is rejected, and how the verdict
-- depends on the findings.
use astrbot_community_plugin.Prelude.{
  ℕ, ◌≤◌, ◌<◌, String, ◌≡◌, sym, ◌∙◌, ap, ◌↔◌, inl, inr, Bool, true, false, Option, List, arith, In,
  In-filter, In-filter_intro, any, any-intro, any-elim, filter, Bool-cases, ◌==◌, le→leb, string_eq,
  ok,
}
use astrbot_community_plugin.Prelude.Sorting.{In-sort, In-sort_intro}
use astrbot_community_plugin.Lifecycle.Types.{FindingSeverity}
use astrbot_community_plugin.Lifecycle.{severity_order, risk_rank}
use astrbot_community_plugin.Policy.{RoutingPolicy, ReviewPolicy, validate_thresholds}
use astrbot_community_plugin.Repository.Rows.{Artifact, Run}
use astrbot_community_plugin.Repository.{text_of}
use astrbot_community_plugin.Routing.{
  Finding, RouteKind, expected_units, Gates, route, Audit, Evaluation, current_runs, is_open,
  finding_le, open_findings, is_blocker, needs_manual, gates_of, version_match, verdict, evaluate,
}
use astrbot_community_plugin.Routing.Verdicts.{
  IsApprovable, results, missed, approval_sound, approval_complete,
}

-- How strict a verdict is.
abbrev pub strictness : RouteKind → ℕ
strictness RouteKind.auto_approve = 0
strictness RouteKind.manual_review = 1
strictness RouteKind.auto_reject = 2

open_findings-In :
    (runs : List Run) (findings : List Finding) (f : Finding)
    → In f (open_findings runs findings)
    → In f findings × (is_open runs f ≡ true)
unfolding open_findings
open_findings-In runs findings f m =
    In-filter (is_open runs) findings (In-sort finding_le (filter (is_open runs) findings) f m)

open_findings-In_intro :
    (runs : List Run) (findings : List Finding) (f : Finding)
    → In f findings
    → is_open runs f ≡ true
    → In f (open_findings runs findings)
unfolding open_findings
open_findings-In_intro runs findings f m o =
    In-sort_intro finding_le (filter (is_open runs) findings) f
      (In-filter_intro (is_open runs) findings m o)

route_blocked :
    (p : RoutingPolicy) (g : Gates)
    → g.deterministic_blockers ≡ true
    → (route p g).0 ≡ RouteKind.auto_reject
unfolding route
route_blocked p g h = ground arith

-- More blockers and more manual findings make the route no less strict.
route_monotone :
    (p : RoutingPolicy) (g : Gates) (b m : Bool)
    → (g.deterministic_blockers ≡ true → b ≡ true)
    → (g.manual_findings ≡ true → m ≡ true)
    → strictness (route p g).0
      ≤ strictness (route p (record g { deterministic_blockers = b; manual_findings = m })).0
unfolding route
route_monotone p g b m hb hm = ground arith

any_monotone :
    {A : Type 0} (q : A → Bool) (xs ys : List A)
    → ((x : A) → In x xs → In x ys)
    → any q xs ≡ true
    → any q ys ≡ true
any_monotone q xs ys sub h = let (x, m, k) = any-elim q xs h in any-intro q ys (sub x m) k

below_medium :
    (p : RoutingPolicy) (f : Finding)
    → validate_thresholds p ≡ ok p
    → needs_manual p f ≡ false
    → severity_order f.severity < severity_order FindingSeverity.medium
unfolding validate_thresholds needs_manual risk_rank severity_order
below_medium p f v h = ground arith

module _ (canonical_version : String → Option String) (audit_sha256 : Audit → String) where
  -- The evaluation of an artifact that has a policy.
  abbrev pub outcome : Artifact → String → ReviewPolicy → List Run → List Finding → Evaluation
  outcome artifact repo_version policy runs findings =
      let current : List Run = current_runs (text_of artifact.policy_version_id) runs in
      verdict canonical_version audit_sha256 (text_of artifact.policy_version_id) policy.routing
        (results current (expected_units policy)) (missed current (expected_units policy))
        (version_match canonical_version audit_sha256 artifact repo_version)
        (open_findings current findings)

  module _ (artifact : Artifact) (repo_version : String) (policy : ReviewPolicy)
      (runs : List Run) where
    abbrev pub current : List Run
    current = current_runs (text_of artifact.policy_version_id) runs

    evaluate_cases :
        (findings : List Finding) {e : Evaluation}
        → evaluate canonical_version audit_sha256 artifact repo_version policy runs findings ≡ ok e
        → e ≡ outcome artifact repo_version policy runs findings
    unfolding evaluate
    evaluate_cases findings h = elim (Bool-cases (text_of artifact.policy_version_id == "")) [
      | inl e ↦ cc (rw e at h)
      | inr e ↦ cc (rw e at h)
    ]

    abbrev gates : List Finding → Gates
    gates findings =
        gates_of policy.routing (results current (expected_units policy))
          (missed current (expected_units policy))
          (version_match canonical_version audit_sha256 artifact repo_version)
          (open_findings current findings)

    route-evaluate :
        (findings : List Finding) {e : Evaluation}
        → evaluate canonical_version audit_sha256 artifact repo_version policy runs findings ≡ ok e
        → e.route ≡ (route policy.routing (gates findings)).0
    unfolding verdict
    route-evaluate findings h = ap (λ (x : Evaluation). x.route) (evaluate_cases findings h)

    abbrev pub IsApproved : List Finding → Type 0
    IsApproved findings =
        IsApprovable current (expected_units policy) policy.routing
          (version_match canonical_version audit_sha256 artifact repo_version)
          (open_findings current findings)

    -- An artifact is approved automatically exactly when every unit that its policy requires has a
    -- latest run of that policy which succeeded, completed and is not marked incomplete, no open
    -- finding of those runs reaches the thresholds for a manual review or a rejection, the versions
    -- of the artifact and the repository match, and the policy enables automatic approval.
    pub auto_approve_iff :
        (findings : List Finding) {e : Evaluation}
        → evaluate canonical_version audit_sha256 artifact repo_version policy runs findings ≡ ok e
        → (e.route ≡ RouteKind.auto_approve) ↔ IsApproved findings
    auto_approve_iff findings {e} h = (
      λ a.
          approval_sound current (expected_units policy) policy.routing
            (version_match canonical_version audit_sha256 artifact repo_version)
            (open_findings current findings) (sym (route-evaluate findings h) ∙ a),
      λ a.
          route-evaluate findings h
          ∙ approval_complete current (expected_units policy) policy.routing
              (version_match canonical_version audit_sha256 artifact repo_version)
              (open_findings current findings) a,
    )

    -- Under a policy with valid thresholds, an artifact that is approved automatically has no open
    -- finding of medium or higher severity among the findings of its policy's runs.
    pub approved_below_medium :
        (findings : List Finding) {e : Evaluation} (f : Finding)
        → evaluate canonical_version audit_sha256 artifact repo_version policy runs findings ≡ ok e
        → validate_thresholds policy.routing ≡ ok policy.routing
        → e.route ≡ RouteKind.auto_approve
        → In f findings
        → is_open current f ≡ true
        → severity_order f.severity < severity_order FindingSeverity.medium
    approved_below_medium findings f h v a m o = below_medium policy.routing f v (
        ((auto_approve_iff findings h).0 a).below_manual f
          (open_findings-In_intro current findings f m o))

    -- An open deterministic finding of the policy's runs at or above the reject threshold rejects
    -- the artifact, whatever else the runs say.
    pub blocker_rejects :
        (findings : List Finding) {e : Evaluation} (f : Finding)
        → evaluate canonical_version audit_sha256 artifact repo_version policy runs findings ≡ ok e
        → In f findings
        → is_open current f ≡ true
        → f.deterministic ≡ true
        → risk_rank policy.routing.deterministic_reject_at ≤ risk_rank f.severity
        → e.route ≡ RouteKind.auto_reject
    unfolding gates_of
    blocker_rejects findings f h m o d r =
        route-evaluate findings h
        ∙ route_blocked policy.routing (gates findings) (
            any-intro (is_blocker policy.routing) (open_findings current findings)
              (open_findings-In_intro current findings f m o)
              (unfold is_blocker in rw (d, le→leb _ _ r)))

    -- The verdict is monotone in the findings: with every finding that it had, and perhaps more, in
    -- any order, the same artifact with the same runs gets no milder verdict.
    pub verdict_monotone :
        (findings more : List Finding) {e e' : Evaluation}
        → evaluate canonical_version audit_sha256 artifact repo_version policy runs findings ≡ ok e
        → evaluate canonical_version audit_sha256 artifact repo_version policy runs more ≡ ok e'
        → ((f : Finding) → In f findings → In f more)
        → strictness e.route ≤ strictness e'.route
    unfolding gates_of
    verdict_monotone findings more h h' sub =
        rw (route-evaluate findings h, route-evaluate more h')
          (route_monotone policy.routing (gates findings)
            (any (is_blocker policy.routing) (open_findings current more))
            (any (needs_manual policy.routing) (open_findings current more))
            (any_monotone (is_blocker policy.routing) (open_findings current findings)
              (open_findings current more) wider)
            (any_monotone (needs_manual policy.routing) (open_findings current findings)
              (open_findings current more) wider))
      where
        wider :
            (f : Finding)
            → In f (open_findings current findings)
            → In f (open_findings current more)
        wider f m =
            let (n, o) = open_findings-In current findings f m in
            open_findings-In_intro current more f (sub f n) o
