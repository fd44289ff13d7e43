-- ===== src/Lifecycle/Publications.antt =====
-- The publication lifecycle of models.py: how a release can be published and taken down.
use astrbot_community_plugin.Prelude.{
  ◌≡◌, refl, sym, ◌⊎◌, inl, inr, Bool, true, false, List, [], ◌∷◌, arith, In, ok,
}
use astrbot_community_plugin.Lifecycle.Types.{PublicationStatus, PublicationStatus-discrete}
use astrbot_community_plugin.Lifecycle.{validate_publication_transition}

abbrev pub Allowed : PublicationStatus → PublicationStatus → Type 0
Allowed s t = validate_publication_transition s t ≡ ok tt

-- A history of accepted changes, with the statuses passed through, the first one included.
pub data History : PublicationStatus → List PublicationStatus → PublicationStatus → Type 0 where
  start : (s : PublicationStatus) → History s (s ∷ []) s
  change :
      {s t u : PublicationStatus} {path : List PublicationStatus}
      → Allowed s t
      → History t path u
      → History s (s ∷ path) u

-- The statuses before the first publication.
abbrev unreleased : PublicationStatus → Bool
unreleased PublicationStatus.unpublished = true
unreleased PublicationStatus.publishing = true
unreleased PublicationStatus.publish_failed = true
unreleased _ = false

stays_unreleased :
    (s t : PublicationStatus)
    → unreleased s ≡ true
    → Allowed s t
    → (unreleased t ≡ true) ⊎ (t ≡ PublicationStatus.published)
unfolding validate_publication_transition PublicationStatus-discrete
stays_unreleased s t e a = ground arith

path_begins :
    {s t u : PublicationStatus} {path : List PublicationStatus}
    → s ≡ t
    → History t path u
    → In s path
path_begins e (start s) = inl e
path_begins e (change a h) = inl e

passes_release :
    {s u : PublicationStatus} {path : List PublicationStatus}
    → unreleased s ≡ true
    → unreleased u ≡ false
    → History s path u
    → In PublicationStatus.published path
passes_release e p (start s) = cc
passes_release e p (change {s} {t} a h) = elim (stays_unreleased s t e a) [
  | inl f ↦ inr (passes_release f p h)
  | inr q ↦ inr (path_begins (sym q) h)
]

-- In every history of accepted changes from an unpublished release to one that is revoked, or
-- being revoked, the release was published.
pub revocation_needs_release :
    {u : PublicationStatus} (path : List PublicationStatus)
    → (u ≡ PublicationStatus.revoked) ⊎ (u ≡ PublicationStatus.revoking)
    → History PublicationStatus.unpublished path u
    → In PublicationStatus.published path
revocation_needs_release path (inl e) h = passes_release refl (rw e) h
revocation_needs_release path (inr e) h = passes_release refl (rw e) h

-- The statuses from the begin of a revocation on.
abbrev pub withdrawing : PublicationStatus → Bool
withdrawing PublicationStatus.revoking = true
withdrawing PublicationStatus.revoked = true
withdrawing PublicationStatus.revoke_failed = true
withdrawing _ = false

stays_withdrawing :
    (s t : PublicationStatus) → withdrawing s ≡ true → Allowed s t → withdrawing t ≡ true
unfolding validate_publication_transition PublicationStatus-discrete
stays_withdrawing s t e a = ground arith

-- After a revocation has begun, no history of accepted changes leads out of the revocation: the
-- release is being revoked, revoked, or its revocation failed.
pub revocation_final :
    {s u : PublicationStatus} {path : List PublicationStatus}
    → withdrawing s ≡ true
    → History s path u
    → withdrawing u ≡ true
revocation_final e (start s) = e
revocation_final e (change {s} {t} a h) = revocation_final (stays_withdrawing s t e a) h
