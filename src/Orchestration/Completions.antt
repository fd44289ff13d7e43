-- ===== src/Orchestration/Completions.antt =====
-- When the aggregate of a stage of orchestration.py is `completed`, and how that survives the marks
-- that reconcile makes.
use mathlib.Core.Path.{subst}
use astrbot_community_plugin.Prelude.{
  String, ◌≡◌, ◌≢◌, refl, sym, ap, ◌∙◌, Bool, false, ◌||◌, List, [], ◌∷◌, map, inl, inr, arith,
  Bool-cases, In, In-map, In-map_intro, member, member→In, In→member, is_empty, ◌==◌, string_eq,
  Option, none, some, if◌then◌else◌,
}
use astrbot_community_plugin.Prelude.Dict.{get, put, get-put}
use astrbot_community_plugin.Policy.{Stage}
use astrbot_community_plugin.Orchestration.Units.{StageState, stage_state_eq, StageUnit}
use astrbot_community_plugin.Orchestration.States.{
  NamedState, state_key, state_of, aggregate, units_at, aggregate_stage_state,
}
use astrbot_community_plugin.Orchestration.{mark}

only_completed :
    (s : StageState)
    → s ≢ StageState.pending
    → s ≢ StageState.running
    → s ≢ StageState.blocked
    → s ≢ StageState.degraded
    → s ≢ StageState.failed
    → s ≢ StageState.skipped
    → s ≡ StageState.completed
only_completed s a b c d e f = ground (arith, a, b, c, d, e, f)

absent :
    (x : StageState) (states : List StageState) (s : StageState)
    → member x states ≡ false
    → In s states
    → s ≢ x
absent x states s f m q = cc (f, In→member x states (subst (λ k. In k states) q m))

-- The tests of the aggregate, where it is `completed`.
all_tests_fail :
    (n p r b d f k : Bool)
    → (if n || p
        then StageState.pending
        else if r
        then StageState.running
        else if b
        then StageState.blocked
        else if d
        then StageState.degraded
        else if f
        then StageState.failed
        else if k
        then StageState.skipped
        else StageState.completed)
      ≡ StageState.completed
    → (n ≡ false)
      × (p ≡ false)
      × (r ≡ false)
      × (b ≡ false)
      × (d ≡ false)
      × (f ≡ false)
      × (k ≡ false)
all_tests_fail n p r b d f k e = ground arith

-- The units of a stage whose aggregate is `completed` are all completed, and there is one.
pub aggregate-completed :
    (states : List StageState) (s : StageState)
    → aggregate states ≡ StageState.completed
    → In s states
    → s ≡ StageState.completed
unfolding aggregate
aggregate-completed states s e m =
    let (n, p, r, b, d, f, k) = all_tests_fail _ _ _ _ _ _ _ e in
    only_completed s (absent StageState.pending states s p m)
      (absent StageState.running states s r m) (absent StageState.blocked states s b m)
      (absent StageState.degraded states s d m) (absent StageState.failed states s f m)
      (absent StageState.skipped states s k m)

pub aggregate_nonempty :
    (states : List StageState) → aggregate states ≡ StageState.completed → is_empty states ≡ false
unfolding aggregate
aggregate_nonempty states e = (all_tests_fail _ _ _ _ _ _ _ e).0

absent_intro :
    (x : StageState) (states : List StageState)
    → x ≢ StageState.completed
    → ((s : StageState) → In s states → s ≡ StageState.completed)
    → member x states ≡ false
absent_intro x states n h = elim (Bool-cases (member x states)) [
  | inl t ↦ absurd (n (h x (member→In x states t)))
  | inr f ↦ f
]

pub aggregate_all :
    (states : List StageState)
    → is_empty states ≡ false
    → ((s : StageState) → In s states → s ≡ StageState.completed)
    → aggregate states ≡ StageState.completed
unfolding aggregate
aggregate_all states n h =
    rw
      (
        n,
        absent_intro StageState.pending states (λ e. cc e) h,
        absent_intro StageState.running states (λ e. cc e) h,
        absent_intro StageState.blocked states (λ e. cc e) h,
        absent_intro StageState.degraded states (λ e. cc e) h,
        absent_intro StageState.failed states (λ e. cc e) h,
        absent_intro StageState.skipped states (λ e. cc e) h,
      )
      refl

-- What is completed in the later states was completed in the earlier ones.
abbrev pub NoneCompleted : List NamedState → List NamedState → Type 0
NoneCompleted earlier later =
    (name : String)
    → state_of name later ≡ StageState.completed
    → state_of name earlier ≡ StageState.completed

abbrev state_or_pending : Option NamedState → StageState
state_or_pending found = elim found [ none ↦ StageState.pending | some entry ↦ entry.state ]

pub state_of-mark :
    (unit : StageUnit) (state : StageState) (states : List NamedState) (name : String)
    → state_of name (mark unit state states)
      ≡ (if unit.name == name then state else state_of name states)
unfolding state_of mark
state_of-mark unit state states name =
    let e : get state_key name (put state_key (record { name = unit.name; state = state }) states)
        ≡ (if unit.name == name
            then some (record { name = unit.name; state = state })
            else get state_key name states) =
      get-put state_key name (record { name = unit.name; state = state }) states in
    elim (Bool-cases (unit.name == name)) [
      | inl t ↦ rw t (ap state_or_pending (rw t at e))
      | inr f ↦ rw f (ap state_or_pending (rw f at e))
    ]

pub mark-NoneCompleted :
    (unit : StageUnit) (state : StageState) (earlier later : List NamedState)
    → state ≢ StageState.completed
    → NoneCompleted earlier later
    → NoneCompleted earlier (mark unit state later)
mark-NoneCompleted unit state earlier later n h name e = elim (Bool-cases (unit.name == name)) [
  | inl t ↦ absurd (n (let k = state_of-mark unit state later name in rw t at (sym k ∙ e)))
  | inr f ↦ h name (let k = state_of-mark unit state later name in rw f at (sym k ∙ e))
]

is_empty-map : {A B : Type 0} (f : A → B) (xs : List A) → is_empty (map f xs) ≡ is_empty xs
is_empty-map f [] = refl
is_empty-map f (x ∷ xs) = refl

-- A stage that is completed later was completed earlier.
pub aggregate-earlier :
    (stage : Stage) (units : List StageUnit) (earlier later : List NamedState)
    → NoneCompleted earlier later
    → aggregate_stage_state stage units later ≡ StageState.completed
    → aggregate_stage_state stage units earlier ≡ StageState.completed
unfolding aggregate_stage_state
aggregate-earlier stage units earlier later h e =
    let at : List StageUnit = units_at stage units in
    aggregate_all (map (λ unit. state_of unit.name earlier) at)
      (is_empty-map (λ unit. state_of unit.name earlier) at
        ∙ sym (is_empty-map (λ unit. state_of unit.name later) at)
        ∙ aggregate_nonempty (map (λ unit. state_of unit.name later) at) e)
      (λ s m.
        let (unit, n, q) = In-map (λ (unit : StageUnit). state_of unit.name earlier) at m in
        q
        ∙ h unit.name (
            aggregate-completed (map (λ unit. state_of unit.name later) at)
              (state_of unit.name later) e
              (In-map_intro (λ (unit : StageUnit). state_of unit.name later) at unit n)))
