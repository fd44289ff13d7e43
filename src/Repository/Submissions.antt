-- ===== src/Repository/Submissions.antt =====
-- The submissions of repository.py: create_artifact, transition_review_status and
-- transition_publication_status. The clock is read once in each call; a new id and a random path
-- suffix are arguments.
use astrbot_community_plugin.Prelude.{
  ℕ, String, Bool, ◌&&◌, Option, none, some, ◌==◌, string_eq, find, ok, ◌>>◌,
}
use astrbot_community_plugin.Prelude.Dict.{put}
use astrbot_community_plugin.Json.{Object}
use astrbot_community_plugin.Lifecycle.Types.{ReviewStatus, PublicationStatus, RiskLevel}
use astrbot_community_plugin.Lifecycle.{validate_review_transition, validate_publication_transition}
use astrbot_community_plugin.Repository.Rows.{Artifact, Repository}
use astrbot_community_plugin.Repository.{artifact_key, get_artifact, or_text}
use astrbot_community_plugin.Repository.Decisions.{Outcome}

-- `payload` of `create_artifact`; an empty text is a missing entry.
pub record Submission : Type 0 where
  pub id : String
  pub plugin_id : String
  pub version : String
  pub normalized_version : String
  pub source_type : String
  pub source_repo : String
  pub source_ref : String
  pub source_commit_sha : String
  pub archive_sha256 : String
  pub tree_sha256 : String
  pub size_bytes : ℕ
  pub quarantine_key : String
  pub path_suffix : String
  pub base_artifact_id : Option String
  pub supersedes_artifact_id : Option String
  pub policy_version_id : Option String
  pub review_coverage : Object
  pub submitted_by : Option String
  pub submitted_by_snapshot : Object
  pub suggested_category : String
  pub category_confidence : Option ℕ
  pub category_reason : String

unfoldable pub new_artifact : ℕ → String → String → Submission → Artifact
new_artifact now fresh suffix q = record {
  id = or_text q.id fresh;
  plugin_id = q.plugin_id;
  version = q.version;
  normalized_version = q.normalized_version;
  source_type = q.source_type;
  source_repo = q.source_repo;
  source_ref = q.source_ref;
  source_commit_sha = q.source_commit_sha;
  archive_sha256 = q.archive_sha256;
  tree_sha256 = q.tree_sha256;
  size_bytes = q.size_bytes;
  quarantine_key = q.quarantine_key;
  published_key = none;
  path_suffix = or_text q.path_suffix suffix;
  download_url = none;
  review_status = ReviewStatus.quarantined;
  publication_status = PublicationStatus.unpublished;
  risk_level = RiskLevel.none;
  base_artifact_id = q.base_artifact_id;
  supersedes_artifact_id = q.supersedes_artifact_id;
  policy_version_id = q.policy_version_id;
  review_coverage = q.review_coverage;
  automated_review_completed_at = none;
  submitted_by = q.submitted_by;
  submitted_by_snapshot = q.submitted_by_snapshot;
  suggested_category = q.suggested_category;
  category_confidence = q.category_confidence;
  category_reason = q.category_reason;
  rejection_code = "";
  created_at = now;
  updated_at = now;
  reviewed_at = none;
  published_at = none;
  revoked_at = none;
}

-- The artifact of the same plugin and archive, if there is one.
unfoldable pub same_archive : Submission → Artifact → Bool
same_archive q a = a.plugin_id == q.plugin_id && a.archive_sha256 == q.archive_sha256

unfoldable pub create_found :
    ℕ → String → String → Submission → Repository → Option Artifact → Artifact × Repository
unfolding new_artifact
create_found now fresh suffix q r (some a) = (a, r)
create_found now fresh suffix q r none =
    let a = new_artifact now fresh suffix q in
    (a, record r { artifacts = put artifact_key a r.artifacts })

unfoldable pub create_artifact :
    ℕ → String → String → Submission → Repository → Artifact × Repository
unfolding create_found same_archive
create_artifact now fresh suffix q r =
    create_found now fresh suffix q r (find (same_archive q) r.artifacts)

-- The write to one artifact, which the call returns.
unfoldable pub put_artifact : Artifact → Repository → Option Artifact × Repository
put_artifact a r = (some a, record r { artifacts = put artifact_key a r.artifacts })

abbrev or_level : RiskLevel → Option RiskLevel → RiskLevel
or_level current none = current
or_level current (some level) = level

abbrev or_code : String → Option String → String
or_code current none = current
or_code current (some code) = code

unfoldable pub review_moved :
    ℕ → ReviewStatus → Option RiskLevel → Option String → Repository → Option Artifact → Outcome
unfolding put_artifact validate_review_transition
review_moved now target risk code r none = ok (none, r)
review_moved now target risk code r (some a) = do
  validate_review_transition a.review_status target
  ok (
      put_artifact
        (record a {
          review_status = target;
          risk_level = or_level a.risk_level risk;
          rejection_code = or_code a.rejection_code code;
          updated_at = now;
        })
        r)

unfoldable pub transition_review_status :
    ℕ → String → ReviewStatus → Option RiskLevel → Option String → Repository → Outcome
unfolding review_moved
transition_review_status now artifact_id target risk code r =
    review_moved now target risk code r (get_artifact artifact_id r)

unfoldable pub publication_moved : ℕ → PublicationStatus → Repository → Option Artifact → Outcome
unfolding put_artifact validate_publication_transition
publication_moved now target r none = ok (none, r)
publication_moved now target r (some a) = do
  validate_publication_transition a.publication_status target
  ok (put_artifact (record a { publication_status = target; updated_at = now }) r)

unfoldable pub transition_publication_status : ℕ → String → PublicationStatus → Repository → Outcome
unfolding publication_moved
transition_publication_status now artifact_id target r =
    publication_moved now target r (get_artifact artifact_id r)
