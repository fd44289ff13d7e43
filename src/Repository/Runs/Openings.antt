-- ===== src/Repository/Runs/Openings.antt =====
-- What ends a run of repository.py: fail_open_review_runs and complete_review_run.
use mathlib.Core.Path.{subst}
use astrbot_community_plugin.Prelude.Dict.{Distinct, get, get-In, In-put_keep}
use astrbot_community_plugin.Prelude.Distinct.{eq_of_key}
use astrbot_community_plugin.Repository.Decisions.{run_key}
use astrbot_community_plugin.Prelude.{
  Bool, true, ◌⊎◌, ◌||◌, &&-true, &&-intro, ||-true, ==→≡, ℕ, String, ◌≡◌, refl, sym, ◌∙◌, ap, inl,
  inr, Option, none, some, List, map, Bool-cases, In, In-map, In-map_intro, arith, ◌==◌, string_eq,
}
use astrbot_community_plugin.Lifecycle.Types.{RunType, run_type_eq, RunStatus, run_status_eq}
use astrbot_community_plugin.Repository.Rows.{Run}
use astrbot_community_plugin.Repository.Runs.{
  RunReport, complete_found, complete_review_run, is_open_run, failed_run, fail_open,
  fail_open_review_runs,
}

-- A run of the artifact and the type that has not ended; an empty id stands for every run.
abbrev pub IsUnended : String → RunType → String → Run → Type 0
IsUnended artifact_id type run_id run =
    (run.artifact_id ≡ artifact_id)
    × (run.type ≡ type)
    × ((run_id ≡ "") ⊎ (run.id ≡ run_id))
    × ((run.status ≡ RunStatus.queued) ⊎ (run.status ≡ RunStatus.running))

module _ (artifact_id : String) (type : RunType) (run_id : String) where
  open_run-IsUnended :
      (run : Run)
      → is_open_run artifact_id type run_id run ≡ true
      → IsUnended artifact_id type run_id run
  unfolding is_open_run
  open_run-IsUnended run t =
      let (t1, d) = &&-true _ _ t in
      let (t2, c) = &&-true _ _ t1 in
      let (a, b) = &&-true _ _ t2 in
      (
        ==→≡ run.artifact_id artifact_id a,
        ==→≡ run.type type b,
        elim (||-true (run_id == "") (run.id == run_id) c) [
          | inl e ↦ inl (==→≡ run_id "" e)
          | inr e ↦ inr (==→≡ run.id run_id e)
        ],
        elim (||-true (run.status == RunStatus.queued) (run.status == RunStatus.running) d) [
          | inl e ↦ inl (==→≡ run.status RunStatus.queued e)
          | inr e ↦ inr (==→≡ run.status RunStatus.running e)
        ],
      )

  IsUnended-open_run :
      (run : Run)
      → IsUnended artifact_id type run_id run
      → is_open_run artifact_id type run_id run ≡ true
  unfolding is_open_run
  IsUnended-open_run run (a, b, c, d) =
      &&-intro _ _
        (&&-intro _ _
          (&&-intro _ _ ((string_eq.beq_iff run.artifact_id artifact_id).1 a)
            ((run_type_eq.beq_iff run.type type).1 b))
          (elim c [
            | inl e ↦ or_left _ (run.id == run_id) ((string_eq.beq_iff run_id "").1 e)
            | inr e ↦ or_right (run_id == "") _ ((string_eq.beq_iff run.id run_id).1 e)
          ]))
        (elim d [
          | inl e ↦
              or_left _ (run.status == RunStatus.running)
                ((run_status_eq.beq_iff run.status RunStatus.queued).1 e)
          | inr e ↦
              or_right (run.status == RunStatus.queued) _
                ((run_status_eq.beq_iff run.status RunStatus.running).1 e)
        ])
    where
      or_left : (p q : Bool) → p ≡ true → (p || q) ≡ true
      or_left p q h = ground arith

      or_right : (p q : Bool) → q ≡ true → (p || q) ≡ true
      or_right p q h = ground arith

-- The call fails every run of the artifact and the type, with the id if one is given, that is queued
-- or running, and leaves every other run as it is; no run after it is such a run.
pub fail_open_closes :
    (now : ℕ) (artifact_id : String) (type : RunType) (code summary run_id : String)
    (runs : List Run) (run final : Run)
    → In run runs
    → In final (fail_open_review_runs now artifact_id type code summary run_id runs).1
    → ((IsUnended artifact_id type run_id run
          × In
              (record run {
                status = RunStatus.failed;
                error_code = code;
                summary = summary;
                completed_at = some now;
              })
              (fail_open_review_runs now artifact_id type code summary run_id runs).1)
        ⊎ ((¬ IsUnended artifact_id type run_id run)
            × In run (fail_open_review_runs now artifact_id type code summary run_id runs).1))
      × (¬ IsUnended artifact_id type run_id final)
unfolding fail_open_review_runs failed_run
fail_open_closes now artifact_id type code summary run_id runs run final m n =
    let change : Run → Run = fail_open now artifact_id type code summary run_id in
    let (old, k, e) = In-map change runs n in
    let there : In (change run) (map change runs) = In-map_intro change runs run m in
    (
      elim (Bool-cases (is_open_run artifact_id type run_id run)) [
        | inl t ↦ inl (
          open_run-IsUnended artifact_id type run_id run t,
          subst (λ x. In x (map change runs)) (unfold fail_open in rw t refl) there,
        )
        | inr f ↦ inr (
          λ o. cc (f, IsUnended-open_run artifact_id type run_id run o),
          subst (λ x. In x (map change runs)) (unfold fail_open in rw f refl) there,
        )
      ],
      λ o. closed old (subst (IsUnended artifact_id type run_id) e o),
    )
  where
    closed :
        (old : Run)
        → ¬ IsUnended artifact_id type run_id
            (fail_open now artifact_id type code summary run_id old)
    closed old o = elim (Bool-cases (is_open_run artifact_id type run_id old)) [
      | inl t ↦
          let same : (fail_open now artifact_id type code summary run_id old).status
              ≡ RunStatus.failed =
            unfold fail_open in rw t refl in
          elim o.3 [ inl q ↦ cc (same, q) | inr q ↦ cc (same, q) ]
      | inr f ↦
          let same : fail_open now artifact_id type code summary run_id old ≡ old =
            unfold fail_open in rw f refl in
          cc (
            f,
            IsUnended-open_run artifact_id type run_id old
                (subst (IsUnended artifact_id type run_id) same o),
          )
    ]

complete_found-keeps :
    (now : ℕ) (q : RunReport) (id : String) (runs : List Run) (found : Option Run) (run : Run)
    → Distinct run_key runs
    → get run_key id runs ≡ found
    → In run runs
    → run.error_code ≡ "manual_review_completed"
    → In run (complete_found now q runs found).1
unfolding complete_found
complete_found-keeps now q id runs none run d g m e = m
complete_found-keeps now q id runs (some k) run d g m e =
    elim (Bool-cases (k.error_code == "manual_review_completed")) [
      | inl t ↦ rw t m
      | inr f ↦ rw f (
          In-put_keep run_key _ runs run m (λ same.
            let p : run ≡ k = eq_of_key run_key runs run k d m (get-In run_key id runs g) same in
            cc (
              f,
              (string_eq.beq_iff k.error_code "manual_review_completed").1
                  (ap (λ x. x.error_code) (sym p) ∙ e),
            )))
    ]

-- A run that a manual review has ended stays as it is when a worker reports on it, or on another
-- run, afterwards.
pub manual_end_kept :
    (now : ℕ) (id : String) (q : RunReport) (runs : List Run) (run : Run)
    → Distinct run_key runs
    → In run runs
    → run.error_code ≡ "manual_review_completed"
    → In run (complete_review_run now id q runs).1
unfolding complete_review_run
manual_end_kept now id q runs run d m e =
    complete_found-keeps now q id runs (get run_key id runs) run d refl m e
