-- ===== src/Repository/Releases/Uniqueness.antt =====
-- One published release of a version, through submissions, publications and revocations.
use mathlib.Core.Path.{subst}
use astrbot_community_plugin.Prelude.{
  ℕ, String, ◌≡◌, ◌≢◌, sym, ◌∙◌, ap, inl, inr, false, not, Option, none, some, List, Bool-cases,
  ◌==◌, string_eq, ==→≡, ok, >>=-eq-ok, raise_if-then, ok-injective, In, any, any-none, find,
}
use astrbot_community_plugin.Prelude.Dict.{put, In-put}
use astrbot_community_plugin.Lifecycle.Types.{PublicationStatus, publication_status_eq}
use astrbot_community_plugin.Lifecycle.{validate_publication_transition}
use astrbot_community_plugin.Repository.Rows.{Artifact, Plugin, Repository}
use astrbot_community_plugin.Repository.{artifact_key, get_artifact, get_plugin}
use astrbot_community_plugin.Repository.Submissions.{
  Submission, same_archive, new_artifact, create_found, create_artifact, put_artifact,
  publication_moved, transition_publication_status,
}
use astrbot_community_plugin.Repository.Releases.{
  check_publication_cdn, Release, unauthorized, is_conflict, published, publish_for, publish_found,
  publish_artifact, revoked, revoke_found, revoke_artifact,
}

-- Two published artifacts of one version of a plugin are the same.
abbrev pub IsUnique : List Artifact → Type 0
IsUnique artifacts =
    (a b : Artifact)
    → In a artifacts
    → In b artifacts
    → a.publication_status ≡ PublicationStatus.published
    → b.publication_status ≡ PublicationStatus.published
    → a.plugin_id ≡ b.plugin_id
    → a.normalized_version ≡ b.normalized_version
    → a.id ≡ b.id

no_conflict :
    (a b : Artifact)
    → is_conflict a b ≡ false
    → b.publication_status ≡ PublicationStatus.published
    → b.plugin_id ≡ a.plugin_id
    → b.normalized_version ≡ a.normalized_version
    → b.id ≡ a.id
unfolding is_conflict
no_conflict a b n p i v = elim (Bool-cases (b.id == a.id)) [
  | inl e ↦ ==→≡ b.id a.id e
  | inr e ↦ cc (
    n,
    e,
    (string_eq.beq_iff b.plugin_id a.plugin_id).1 i,
    (string_eq.beq_iff b.normalized_version a.normalized_version).1 v,
    (publication_status_eq.beq_iff b.publication_status PublicationStatus.published).1 p,
  )
]

put-IsUnique :
    (v : Artifact) (artifacts : List Artifact)
    → IsUnique artifacts
    → ((b : Artifact)
        → In b artifacts
        → v.publication_status ≡ PublicationStatus.published
        → b.publication_status ≡ PublicationStatus.published
        → b.plugin_id ≡ v.plugin_id
        → b.normalized_version ≡ v.normalized_version
        → b.id ≡ v.id)
    → IsUnique (put artifact_key v artifacts)
put-IsUnique v artifacts u new a b m n p q i w = elim (In-put artifact_key v artifacts a m) [
  | inl e ↦ elim (In-put artifact_key v artifacts b n) [
    | inl f ↦ ap artifact_key (e ∙ sym f)
    | inr l ↦
        ap artifact_key e
        ∙ sym (
            new b l (ap (λ x. x.publication_status) (sym e) ∙ p) q (sym i ∙ ap (λ x. x.plugin_id) e)
              (sym w ∙ ap (λ x. x.normalized_version) e))
  ]
  | inr k ↦ elim (In-put artifact_key v artifacts b n) [
    | inl f ↦
        new a k (ap (λ x. x.publication_status) (sym f) ∙ q) p (i ∙ ap (λ x. x.plugin_id) f)
          (w ∙ ap (λ x. x.normalized_version) f)
        ∙ sym (ap artifact_key f)
    | inr l ↦ u a b k l p q i w
  ]
]

-- A write of an artifact that is not published keeps the releases unique.
put_unpublished :
    (v : Artifact) (artifacts : List Artifact)
    → IsUnique artifacts
    → v.publication_status ≢ PublicationStatus.published
    → IsUnique (put artifact_key v artifacts)
put_unpublished v artifacts u n = put-IsUnique v artifacts u (λ b m p. absurd (n p))

publish_for-IsUnique :
    (now : ℕ) (q : Release) (r : Repository) (a : Artifact) (plugin : Option Plugin)
    {x : Option Artifact} {s : Repository}
    → publish_for now q r a plugin ≡ ok (x, s)
    → IsUnique r.artifacts
    → IsUnique s.artifacts
unfolding publish_for published
publish_for-IsUnique now q r a none e u = cc
publish_for-IsUnique now q r a (some plugin) e u =
    let (c1, k1) = raise_if-then (not (plugin.repo_version == q.expected_repo_version)) _ _ e in
    let (c2, k2) = raise_if-then (unauthorized q plugin) _ _ k1 in
    let (c3, k3) = raise_if-then (any (is_conflict a) r.artifacts) _ _ k2 in
    let (t, c4, k4) =
      >>=-eq-ok (validate_publication_transition a.publication_status PublicationStatus.published) _
        k3 in
    subst IsUnique (ap (λ p. p.1.artifacts) (ok-injective k4)) (
      put-IsUnique (published now q a) r.artifacts u
        (λ b m p f. no_conflict a b (any-none (is_conflict a) r.artifacts c3 m) f))

publish_found-IsUnique :
    (now : ℕ) (q : Release) (r : Repository) (found : Option Artifact) {x : Option Artifact}
    {s : Repository}
    → publish_found now q r found ≡ ok (x, s)
    → IsUnique r.artifacts
    → IsUnique s.artifacts
unfolding publish_found
publish_found-IsUnique now q r none e u =
    subst IsUnique (ap (λ p. p.1.artifacts) (ok-injective e)) u
publish_found-IsUnique now q r (some a) e u =
    let (t, c, k) =
      >>=-eq-ok (check_publication_cdn (get_plugin a.plugin_id r) q.expected_cdn_generation) _ e in
    publish_for-IsUnique now q r a (get_plugin a.plugin_id r) k u

revoke_found-IsUnique :
    (now : ℕ) (r : Repository) (found : Option Artifact) {x : Option Artifact} {s : Repository}
    → revoke_found now r found ≡ ok (x, s)
    → IsUnique r.artifacts
    → IsUnique s.artifacts
unfolding revoke_found revoked
revoke_found-IsUnique now r none e u = subst IsUnique (ap (λ p. p.1.artifacts) (ok-injective e)) u
revoke_found-IsUnique now r (some a) e u =
    let (t, c, k) =
      >>=-eq-ok (validate_publication_transition a.publication_status PublicationStatus.revoked) _
        e in
    subst IsUnique (ap (λ p. p.1.artifacts) (ok-injective k))
      (put_unpublished (revoked now a) r.artifacts u (λ p. cc p))

moved-IsUnique :
    (now : ℕ) (target : PublicationStatus) (r : Repository) (found : Option Artifact)
    {x : Option Artifact} {s : Repository}
    → target ≢ PublicationStatus.published
    → publication_moved now target r found ≡ ok (x, s)
    → IsUnique r.artifacts
    → IsUnique s.artifacts
unfolding publication_moved put_artifact
moved-IsUnique now target r none n e u = subst IsUnique (ap (λ p. p.1.artifacts) (ok-injective e)) u
moved-IsUnique now target r (some a) n e u =
    let (t, c, k) = >>=-eq-ok (validate_publication_transition a.publication_status target) _ e in
    subst IsUnique (ap (λ p. p.1.artifacts) (ok-injective k))
      (put_unpublished (record a { publication_status = target; updated_at = now }) r.artifacts u n)

create_found-IsUnique :
    (now : ℕ) (fresh suffix : String) (q : Submission) (r : Repository) (found : Option Artifact)
    → IsUnique r.artifacts
    → IsUnique (create_found now fresh suffix q r found).1.artifacts
unfolding create_found new_artifact
create_found-IsUnique now fresh suffix q r none u =
    put_unpublished (new_artifact now fresh suffix q) r.artifacts u (λ p. cc p)
create_found-IsUnique now fresh suffix q r (some a) u = u

-- A call that submits, publishes or revokes, or that moves the publication status of an artifact to
-- one that is not published.
pub data Step : Repository → Repository → Type 0 where
  submit :
      (now : ℕ) (fresh suffix : String) (q : Submission) {r : Repository}
      → Step r (create_artifact now fresh suffix q r).1
  move :
      (now : ℕ) (id : String) (target : PublicationStatus) {r s : Repository} {x : Option Artifact}
      → target ≢ PublicationStatus.published
      → transition_publication_status now id target r ≡ ok (x, s)
      → Step r s
  publish :
      (now : ℕ) (id : String) (q : Release) {r s : Repository} {x : Option Artifact}
      → publish_artifact now id q r ≡ ok (x, s)
      → Step r s
  revoke :
      (now : ℕ) (id : String) {r s : Repository} {x : Option Artifact}
      → revoke_artifact now id r ≡ ok (x, s)
      → Step r s

pub data Reach : Repository → Repository → Type 0 where
  done : {r : Repository} → Reach r r
  step : {r s t : Repository} → Step r s → Reach s t → Reach r t

Step-IsUnique : {r s : Repository} → Step r s → IsUnique r.artifacts → IsUnique s.artifacts
unfolding create_artifact transition_publication_status publish_artifact revoke_artifact
Step-IsUnique {r} (submit now fresh suffix q) u =
    create_found-IsUnique now fresh suffix q r (find (same_archive q) r.artifacts) u
Step-IsUnique {r} (move now id target n e) u = moved-IsUnique now target r (get_artifact id r) n e u
Step-IsUnique {r} (publish now id q e) u = publish_found-IsUnique now q r (get_artifact id r) e u
Step-IsUnique {r} (revoke now id e) u = revoke_found-IsUnique now r (get_artifact id r) e u

-- From a repository in which no version of a plugin has two published artifacts, no sequence of
-- submissions, publications, revocations, and changes of the publication status to one that is not
-- published leads to a repository in which some version has.
pub releases-IsUnique : {r s : Repository} → Reach r s → IsUnique r.artifacts → IsUnique s.artifacts
releases-IsUnique done u = u
releases-IsUnique (step p h) u = releases-IsUnique h (Step-IsUnique p u)
