-- ===== src/Lifecycle/Risks.antt =====
-- The ranking of risks of models.py.
use mathlib.Core.Path.{subst}
use astrbot_community_plugin.Prelude.{
  ◌≤◌, ◌≡◌, refl, sym, ◌≢◌, ◌⊎◌, inl, inr, List, [], ◌∷◌, arith, In, Bool, true, all, ◌==◌,
  Bool-cases, leb, leb→le, le→leb,
}
use astrbot_community_plugin.Lifecycle.Types.{
  FindingSeverity, FindingSeverity-discrete, finding_severity_eq, RiskLevel,
}
use astrbot_community_plugin.Lifecycle.{
  severity_order, risk_rank, risk_rank_level, risk_of_severity, max_severity, highest_risk,
}

-- `max` is at least its start and every member, and is one of them.
max_severity-ge :
    (b : FindingSeverity) (vs : List FindingSeverity) (v : FindingSeverity)
    → (v ≡ b) ⊎ In v vs
    → severity_order v ≤ severity_order (max_severity b vs)
unfolding max_severity
max_severity-ge b [] v (inl e) = rw e (omega arith)
max_severity-ge b [] v (inr m) = absurd m
max_severity-ge b (x ∷ xs) v h = elim (Bool-cases (leb (severity_order x) (severity_order b))) [
  | inl e ↦ rw e (elim h [
    | inl q ↦ max_severity-ge b xs v (inl q)
    | inr (inl q) ↦ rw q (
        omega (
          arith,
          leb→le (severity_order x) (severity_order b) e,
          max_severity-ge b xs b (inl refl),
        ))
    | inr (inr m) ↦ max_severity-ge b xs v (inr m)
  ])
  | inr e ↦ rw e (elim h [
    | inl q ↦ rw q (ground (arith, e, max_severity-ge x xs x (inl refl)))
    | inr (inl q) ↦ max_severity-ge x xs v (inl q)
    | inr (inr m) ↦ max_severity-ge x xs v (inr m)
  ])
]

max_severity-In :
    (b : FindingSeverity) (vs : List FindingSeverity) (m : FindingSeverity)
    → max_severity b vs ≡ m
    → (m ≡ b) ⊎ In m vs
unfolding max_severity
max_severity-In b [] m h = inl (sym h)
max_severity-In b (x ∷ xs) m h = elim (Bool-cases (leb (severity_order x) (severity_order b))) [
  | inl e ↦ elim (max_severity-In b xs m (rw e at h)) [ inl q ↦ inl q | inr t ↦ inr (inr t) ]
  | inr e ↦ inr (max_severity-In x xs m (rw e at h))
]

-- The level that is reported for a severity: none for `info`, else one of the same rank.
reported :
    (v : FindingSeverity)
    → ((v ≡ FindingSeverity.info) × (risk_of_severity v ≡ RiskLevel.none))
      ⊎ ((v ≢ FindingSeverity.info) × (risk_rank_level (risk_of_severity v) ≡ risk_rank v))
unfolding risk_rank risk_rank_level risk_of_severity severity_order
reported FindingSeverity.info = inl (refl, refl)
reported FindingSeverity.low = inr (λ e. cc e, refl)
reported FindingSeverity.medium = inr (λ e. cc e, refl)
reported FindingSeverity.high = inr (λ e. cc e, refl)
reported FindingSeverity.critical = inr (λ e. cc e, refl)

least :
    (v : FindingSeverity)
    → severity_order v ≤ severity_order FindingSeverity.info
    → (v == FindingSeverity.info) ≡ true
unfolding severity_order FindingSeverity-discrete
least FindingSeverity.info h = refl
least FindingSeverity.low h = ground arith
least FindingSeverity.medium h = ground arith
least FindingSeverity.high h = ground arith
least FindingSeverity.critical h = ground arith

all_hold :
    {A : Type 0} (p : A → Bool) (xs : List A) → ((x : A) → In x xs → p x ≡ true) → all p xs ≡ true
all_hold p [] h = refl
all_hold p (x ∷ xs) h = rw (h x (inl refl)) (all_hold p xs (λ y m. h y (inr m)))

-- The highest risk of a list of severities is `none` where every severity is `info`, as in an empty
-- list; else it has the rank of a severity of the list other than `info` that no severity of the
-- list exceeds.
pub highest_risk_bounds :
    (vs : List FindingSeverity)
    → ((highest_risk vs ≡ RiskLevel.none) × (all (λ v. v == FindingSeverity.info) vs ≡ true))
      ⊎ ((w : FindingSeverity) × In w vs
          × (w ≢ FindingSeverity.info)
          × (risk_rank_level (highest_risk vs) ≡ risk_rank w)
          × (all (λ v. leb (severity_order v) (severity_order w)) vs ≡ true))
unfolding highest_risk
highest_risk_bounds [] = inl (refl, refl)
highest_risk_bounds (x ∷ xs) =
    let w : FindingSeverity = max_severity x xs in
    elim (reported w) [
      | inl (e, r) ↦ inl (
        r,
        all_hold (λ v. v == FindingSeverity.info) (x ∷ xs)
            (λ v m.
              least v
                (subst (λ u. severity_order v ≤ severity_order u) e (max_severity-ge x xs v m))),
      )
      | inr (n, r) ↦ inr (
        w,
        max_severity-In x xs w refl,
        n,
        r,
        all_hold (λ v. leb (severity_order v) (severity_order w)) (x ∷ xs)
            (λ v m. le→leb (severity_order v) (severity_order w) (max_severity-ge x xs v m)),
      )
    ]
