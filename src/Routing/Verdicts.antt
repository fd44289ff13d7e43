-- ===== src/Routing/Verdicts.antt =====
-- What the verdicts of the routing evaluator guarantee.
use mathlib.Core.Path.{subst}
use astrbot_community_plugin.Prelude.{
  String, ◌≡◌, refl, ap, ◌⊎◌, inl, inr, Bool, true, false, not, ◌&&◌, Option, none, some, List, [],
  ◌∷◌, arith, In, any, any-none, is_empty, Bool-cases, &&-true, ==→≡, ◌==◌, string_eq, option_eq,
}
use astrbot_community_plugin.Prelude.Sorting.{insert, sort, In-sort, In-sort_intro}
use astrbot_community_plugin.Prelude.Text.{text_le}
use astrbot_community_plugin.Lifecycle.Types.{RunStatus, RunStatus-discrete, run_status_eq}
use astrbot_community_plugin.Policy.{RoutingPolicy}
use astrbot_community_plugin.Repository.Rows.{Run}
use astrbot_community_plugin.Routing.{
  Finding, RouteKind, Expected, UnitResult, coverage_text, marked_complete, latest_unit_run,
  unit_result, add_result, unit_results, add_missing, missing_units, is_degraded, is_blocked,
  is_incomplete, Gates, fails_closed, route, is_blocker, needs_manual, gates_of,
  is_deterministic_gate,
}

-- Every gate of an automatic approval is open exactly when the route is an approval.
record IsOpenGates (p : RoutingPolicy) (g : Gates) : Type 0 where
  no_missing : g.missing ≡ false
  no_degraded : g.degraded ≡ false
  no_det_degraded : (g.deterministic_degraded && fails_closed p.degraded_action) ≡ false
  no_det_blocked : g.deterministic_blocked ≡ false
  no_adv_blocked : g.advisory_blocked ≡ false
  no_incomplete : g.incomplete ≡ false
  matched : g.version_match ≡ true
  no_blockers : g.deterministic_blockers ≡ false
  no_manual : g.manual_findings ≡ false
  enabled : p.auto_approve ≡ true

route_approves :
    (p : RoutingPolicy) (g : Gates) → (route p g).0 ≡ RouteKind.auto_approve → IsOpenGates p g
unfolding route
route_approves p g h = ground arith

approves_route :
    (p : RoutingPolicy) (g : Gates) → IsOpenGates p g → (route p g).0 ≡ RouteKind.auto_approve
unfolding route
approves_route p g h = ground arith

-- Where a unit result comes from.
abbrev Origin : List Run → List Expected → UnitResult → Type 0
Origin runs units u =
    (unit : Expected) × In unit units
    × (run : Run) × (latest_unit_run unit runs ≡ some run)
    × (u ≡ unit_result unit run)

add_result-In :
    (runs : List Run) (unit : Expected) (rest : List UnitResult) (u : UnitResult)
    (found : Option Run)
    → latest_unit_run unit runs ≡ found
    → In u (add_result unit rest found)
    → In u rest
      ⊎ ((run : Run) × (latest_unit_run unit runs ≡ some run) × (u ≡ unit_result unit run))
unfolding add_result
add_result-In runs unit rest u none q m = inl m
add_result-In runs unit rest u (some run) q (inl e) = inr (run, q, e)
add_result-In runs unit rest u (some run) q (inr m) = inl m

add_result-In_intro :
    (unit : Expected) (rest : List UnitResult) (u : UnitResult) (found : Option Run)
    → In u rest
    → In u (add_result unit rest found)
unfolding add_result
add_result-In_intro unit rest u none m = m
add_result-In_intro unit rest u (some run) m = inr m

unit_results-In :
    (runs : List Run) (units : List Expected) (u : UnitResult)
    → In u (unit_results runs units)
    → Origin runs units u
unfolding unit_results
unit_results-In runs [] u m = absurd m
unit_results-In runs (unit ∷ units) u m =
    elim (add_result-In runs unit (unit_results runs units) u (latest_unit_run unit runs) refl m) [
      | inl n ↦ let (e, k, run, q, r) = unit_results-In runs units u n in (e, inr k, run, q, r)
      | inr (run, q, r) ↦ (unit, inl refl, run, q, r)
    ]

unit_results-In_intro :
    (runs : List Run) (units : List Expected) (unit : Expected) (run : Run)
    → In unit units
    → latest_unit_run unit runs ≡ some run
    → In (unit_result unit run) (unit_results runs units)
unfolding unit_results
unit_results-In_intro runs [] unit run m q = absurd m
unit_results-In_intro runs (x ∷ units) unit run (inl e) q =
    let q' : latest_unit_run x runs ≡ some run = rw e at q in
    rw (q', add_result) (inl (ap (λ z. unit_result z run) e))
unit_results-In_intro runs (x ∷ units) unit run (inr m) q =
    add_result-In_intro x (unit_results runs units) (unit_result unit run) (latest_unit_run x runs)
      (unit_results-In_intro runs units unit run m q)

-- Every unit has a run exactly when none is missing.
abbrev HasRuns : List Run → List Expected → Type 0
HasRuns runs units =
    (unit : Expected) → In unit units → (run : Run) × (latest_unit_run unit runs ≡ some run)

add_missing-nil :
    (runs : List Run) (unit : Expected) (rest : List String) (found : Option Run)
    → latest_unit_run unit runs ≡ found
    → add_missing unit rest found ≡ []
    → ((run : Run) × (latest_unit_run unit runs ≡ some run)) × (rest ≡ [])
unfolding add_missing
add_missing-nil runs unit rest none q h = cc
add_missing-nil runs unit rest (some run) q h = ((run, q), h)

missing_units-HasRuns :
    (runs : List Run) (units : List Expected) → missing_units runs units ≡ [] → HasRuns runs units
unfolding missing_units
missing_units-HasRuns runs [] h unit m = absurd m
missing_units-HasRuns runs (x ∷ units) h unit m =
    let (a, b) =
      add_missing-nil runs x (missing_units runs units) (latest_unit_run x runs) refl h in
    elim m [ inl e ↦ rw e a | inr n ↦ missing_units-HasRuns runs units b unit n ]

HasRuns-missing_units :
    (runs : List Run) (units : List Expected) → HasRuns runs units → missing_units runs units ≡ []
unfolding missing_units
HasRuns-missing_units runs [] h = refl
HasRuns-missing_units runs (x ∷ units) h =
    let (run, q) = h x (inl refl) in
    rw (q, add_missing) (HasRuns-missing_units runs units (λ u m. h u (inr m)))

-- A sorted list is empty exactly when the list is.
is_empty-sort : (xs : List String) → is_empty (sort text_le xs) ≡ is_empty xs
unfolding sort
is_empty-sort [] = refl
is_empty-sort (x ∷ xs) = is_empty-insert x (sort text_le xs)
  where
    is_empty-insert : (y : String) (ys : List String) → is_empty (insert text_le y ys) ≡ false
    is_empty-insert y [] = unfold insert in refl
    is_empty-insert y (z ∷ zs) =
        unfold insert in elim (Bool-cases (text_le y z)) [ inl e ↦ rw e | inr e ↦ rw e ]

is_empty-nil : (xs : List String) → not (is_empty xs) ≡ false → xs ≡ []
is_empty-nil [] h = refl
is_empty-nil (x ∷ xs) h = cc

-- The three tests of a unit all fail exactly when the unit is complete.
complete_of_tests :
    (u : UnitResult)
    → is_degraded u ≡ false
    → is_blocked u ≡ false
    → is_incomplete u ≡ false
    → u.complete ≡ true
unfolding is_incomplete
complete_of_tests u d b i = ground arith

-- A run that shows that its unit has been passed.
abbrev pub Passed : Run → Type 0
Passed run =
    (run.status ≡ RunStatus.succeeded)
    × (coverage_text "outcome" run.coverage ≡ "completed")
    × (marked_complete run.coverage ≡ true)

complete-Passed :
    (unit : Expected) (run : Run) → (unit_result unit run).complete ≡ true → Passed run
unfolding unit_result
complete-Passed unit run h =
    let (a, d) =
      &&-true
        (run.status == RunStatus.succeeded && coverage_text "outcome" run.coverage == "completed")
        (marked_complete run.coverage) h in
    let (b, c) =
      &&-true (run.status == RunStatus.succeeded)
        (coverage_text "outcome" run.coverage == "completed") a in
    (
      ==→≡ run.status RunStatus.succeeded b,
      ==→≡ (coverage_text "outcome" run.coverage) "completed" c,
      d,
    )

Passed-tests :
    (unit : Expected) (run : Run)
    → Passed run
    → (is_degraded (unit_result unit run) ≡ false)
      × (is_blocked (unit_result unit run) ≡ false)
      × (is_incomplete (unit_result unit run) ≡ false)
unfolding unit_result is_incomplete RunStatus-discrete
Passed-tests unit run (s, o, c) = rw (s, o, c) (refl, refl, refl)

-- What an automatic approval rests on: every required unit has a latest run of the policy that was
-- passed, no open finding of those runs reaches a threshold, the versions match, and the policy
-- enables automatic approval.
pub record IsApprovable (runs : List Run) (units : List Expected) (p : RoutingPolicy)
    (matched : Bool) (opened : List Finding) : Type 0 where
  pub passed :
      (unit : Expected)
      → In unit units
      → (run : Run) × (latest_unit_run unit runs ≡ some run) × Passed run
  pub below_manual : (f : Finding) → In f opened → needs_manual p f ≡ false
  pub below_reject : (f : Finding) → In f opened → is_blocker p f ≡ false
  pub versions : matched ≡ true
  pub enabled : p.auto_approve ≡ true

any-false :
    {A : Type 0} (q : A → Bool) (xs : List A) → ((x : A) → In x xs → q x ≡ false) → any q xs ≡ false
any-false q [] h = refl
any-false q (x ∷ xs) h = rw (h x (inl refl), any-false q xs (λ y m. h y (inr m)))

split_false : (b d : Bool) → (b && d) ≡ false → (b && not d) ≡ false → b ≡ false
split_false b d h k = ground arith

any_&&_false :
    {A : Type 0} (q r : A → Bool) (xs : List A)
    → any q xs ≡ false
    → any (λ x. q x && r x) xs ≡ false
any_&&_false q r xs h = any-false (λ x. q x && r x) xs (λ x m. rw (any-none q xs h m))

-- `_required_unit_results`, sorted by name.
abbrev pub results : List Run → List Expected → List UnitResult
results runs units = sort (λ a b. text_le a.name b.name) (unit_results runs units)

abbrev pub missed : List Run → List Expected → List String
missed runs units = sort text_le (missing_units runs units)

module _ (runs : List Run) (units : List Expected) (p : RoutingPolicy) (matched : Bool)
    (opened : List Finding) where
  pub approval_sound :
      (route p (gates_of p (results runs units) (missed runs units) matched opened)).0
        ≡ RouteKind.auto_approve
      → IsApprovable runs units p matched opened
  unfolding gates_of
  approval_sound h =
      let g =
        route_approves p (gates_of p (results runs units) (missed runs units) matched opened) h in
      let found = missing_units-HasRuns runs units (
        is_empty-nil (missing_units runs units)
          (rw (← is_empty-sort (missing_units runs units)) g.no_missing)) in
      record {
        passed = λ unit m.
            let (run, q) = found unit m in
            let n : In (unit_result unit run) (results runs units) =
              In-sort_intro (λ a b. text_le a.name b.name) (unit_results runs units)
                (unit_result unit run) (unit_results-In_intro runs units unit run m q) in
            (
              run,
              q,
              complete-Passed unit run (
                  complete_of_tests (unit_result unit run)
                    (any-none is_degraded (results runs units) g.no_degraded n)
                    (split_false (is_blocked (unit_result unit run))
                      (is_deterministic_gate (unit_result unit run).run_type)
                      (any-none (λ v. is_blocked v && is_deterministic_gate v.run_type)
                        (results runs units) g.no_det_blocked n)
                      (any-none (λ v. is_blocked v && not (is_deterministic_gate v.run_type))
                        (results runs units) g.no_adv_blocked n))
                    (any-none is_incomplete (results runs units) g.no_incomplete n)),
            );
        below_manual = λ f m. any-none (needs_manual p) opened g.no_manual m;
        below_reject = λ f m. any-none (is_blocker p) opened g.no_blockers m;
        versions = g.matched;
        enabled = g.enabled;
      }

  pub approval_complete :
      IsApprovable runs units p matched opened
      → (route p (gates_of p (results runs units) (missed runs units) matched opened)).0
        ≡ RouteKind.auto_approve
  unfolding gates_of
  approval_complete h =
      approves_route p (gates_of p (results runs units) (missed runs units) matched opened)
        (record {
          no_missing = rw (
            is_empty-sort (missing_units runs units),
            HasRuns-missing_units runs units (λ u m. let (r, q, k) = h.passed u m in (r, q)),
          );
          no_degraded = any-false is_degraded (results runs units) (λ u m. (tests u m).0);
          no_det_degraded = rw (
              any_&&_false is_degraded (λ u. is_deterministic_gate u.run_type) (results runs units)
                (any-false is_degraded (results runs units) (λ u m. (tests u m).0)));
          no_det_blocked =
              any_&&_false is_blocked (λ u. is_deterministic_gate u.run_type) (results runs units)
                (any-false is_blocked (results runs units) (λ u m. (tests u m).1));
          no_adv_blocked =
              any_&&_false is_blocked (λ u. not (is_deterministic_gate u.run_type))
                (results runs units)
                (any-false is_blocked (results runs units) (λ u m. (tests u m).1));
          no_incomplete = any-false is_incomplete (results runs units) (λ u m. (tests u m).2);
          matched = h.versions;
          no_blockers = any-false (is_blocker p) opened h.below_reject;
          no_manual = any-false (needs_manual p) opened h.below_manual;
          enabled = h.enabled;
        })
    where
      tests :
          (u : UnitResult)
          → In u (results runs units)
          → (is_degraded u ≡ false) × (is_blocked u ≡ false) × (is_incomplete u ≡ false)
      tests u m =
          let (unit, k, run, q, r) =
            unit_results-In runs units u
              (In-sort (λ a b. text_le a.name b.name) (unit_results runs units) u m) in
          let (run', q', pass) = h.passed unit k in
          let same : run' ≡ run = cc in rw r (Passed-tests unit run (subst Passed same pass))
