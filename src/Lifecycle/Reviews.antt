-- ===== src/Lifecycle/Reviews.antt =====
-- The review lifecycle of models.py: which statuses a review can pass through.
use astrbot_community_plugin.Prelude.{
  ◌≡◌, refl, sym, ◌↔◌, ◌⊎◌, inl, inr, Bool, true, false, some, List, [], ◌∷◌, arith, member, In, ok,
}
use astrbot_community_plugin.Lifecycle.Types.{
  ReviewStatus, ReviewStatus-discrete, review_status_eq, DecisionAction,
}
use astrbot_community_plugin.Lifecycle.{
  terminal_review_statuses, review_target_for_decision, validate_review_transition,
}

-- One accepted change of the status.
abbrev pub Allowed : ReviewStatus → ReviewStatus → Type 0
Allowed s t = validate_review_transition s t ≡ ok tt

-- A history of accepted changes, with the statuses passed through, the first one included.
pub data History : ReviewStatus → List ReviewStatus → ReviewStatus → Type 0 where
  start : (s : ReviewStatus) → History s (s ∷ []) s
  change :
      {s t u : ReviewStatus} {path : List ReviewStatus}
      → Allowed s t
      → History t path u
      → History s (s ∷ path) u

-- A status is in the terminal set exactly when every accepted change from it keeps it.
pub terminal_iff_absorbing :
    (s : ReviewStatus)
    → (member s terminal_review_statuses ≡ true) ↔ ((t : ReviewStatus) → Allowed s t → t ≡ s)
unfolding validate_review_transition terminal_review_statuses ReviewStatus-discrete
terminal_iff_absorbing s =
    (λ h t a. ground arith, λ h. ground (arith, h ReviewStatus.rejected, h ReviewStatus.scanning))

-- What a submission can be before its precheck has begun.
abbrev unchecked : ReviewStatus → Bool
unchecked ReviewStatus.quarantined = true
unchecked ReviewStatus.rejected = true
unchecked ReviewStatus.withdrawn = true
unchecked _ = false

stays_unchecked :
    (s t : ReviewStatus)
    → unchecked s ≡ true
    → Allowed s t
    → (unchecked t ≡ true) ⊎ (t ≡ ReviewStatus.prechecking)
unfolding validate_review_transition ReviewStatus-discrete
stays_unchecked s t e a = ground arith

path_begins :
    {s t u : ReviewStatus} {path : List ReviewStatus} → s ≡ t → History t path u → In s path
path_begins e (start s) = inl e
path_begins e (change a h) = inl e

-- Statuses from which an approval is possible with no further scan.
abbrev past_scan : ReviewStatus → Bool
past_scan ReviewStatus.scanning = true
past_scan ReviewStatus.pending_review = true
past_scan ReviewStatus.changes_requested = true
past_scan ReviewStatus.approved = true
past_scan _ = false

not_past_scan :
    (s t : ReviewStatus)
    → past_scan s ≡ false
    → Allowed s t
    → (past_scan t ≡ false) ⊎ (t ≡ ReviewStatus.scanning)
unfolding validate_review_transition ReviewStatus-discrete
not_past_scan s t e a = ground arith

passes_scan :
    {s u : ReviewStatus} {path : List ReviewStatus}
    → past_scan s ≡ false
    → past_scan u ≡ true
    → History s path u
    → In ReviewStatus.scanning path
passes_scan e p (start s) = cc
passes_scan e p (change {s} {t} a h) = elim (not_past_scan s t e a) [
  | inl f ↦ inr (passes_scan f p h)
  | inr q ↦ inr (path_begins (sym q) h)
]

passes_precheck :
    {s u : ReviewStatus} {path : List ReviewStatus}
    → unchecked s ≡ true
    → unchecked u ≡ false
    → History s path u
    → In ReviewStatus.prechecking path
passes_precheck e p (start s) = cc
passes_precheck e p (change {s} {t} a h) = elim (stays_unchecked s t e a) [
  | inl f ↦ inr (passes_precheck f p h)
  | inr q ↦ inr (path_begins (sym q) h)
]

-- Every history of accepted changes from a new submission to an approval passes through the
-- precheck and through the scan.
pub approval_needs_scan :
    (path : List ReviewStatus)
    → History ReviewStatus.quarantined path ReviewStatus.approved
    → In ReviewStatus.prechecking path × In ReviewStatus.scanning path
approval_needs_scan path h = (passes_precheck refl refl h, passes_scan refl refl h)

-- The status that a decision leads to is terminal, and a reviewer may take it from a review that
-- is pending.
pub decision_target_terminal :
    (a : DecisionAction) (t : ReviewStatus)
    → review_target_for_decision a ≡ some t
    → (member t terminal_review_statuses ≡ true) × Allowed ReviewStatus.pending_review t
unfolding review_target_for_decision terminal_review_statuses validate_review_transition
    ReviewStatus-discrete
decision_target_terminal a t h = ground arith
