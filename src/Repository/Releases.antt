-- ===== src/Repository/Releases.antt =====
-- The releases of repository.py, publish_artifact and revoke_artifact, with the entry of the plugin
-- in the market, and check_publication_cdn of apps/api/app/cdn.py.
pub mod Uniqueness
use astrbot_community_plugin.Prelude.{
  ℕ, String, Bool, true, false, not, ◌&&◌, ◌||◌, Option, none, some, List, ◌==◌, nat_eq, string_eq,
  option_eq, if◌then◌else◌, any, Result, ok, err, raise_if, ◌>>=◌, ◌>>◌,
}
use astrbot_community_plugin.Prelude.Dict.{put}
use astrbot_community_plugin.Lifecycle.Types.{PublicationStatus, publication_status_eq}
use astrbot_community_plugin.Lifecycle.{
  ArtifactError, value_error, cdn_error, validate_publication_transition,
}
use astrbot_community_plugin.Repository.Rows.{Artifact, Plugin, Repository}
use astrbot_community_plugin.Repository.{
  artifact_key, plugin_key, get_artifact, get_plugin, cdn_generation,
}
use astrbot_community_plugin.Repository.Decisions.{Outcome}

-- `cdn_enabled(plugin or {})`
unfoldable pub cdn_enabled : Option Plugin → Bool
cdn_enabled none = true
cdn_enabled (some plugin) = plugin.cdn_enabled

unfoldable pub check_publication_cdn : Option Plugin → ℕ → Result ArtifactError (Unit {0})
unfolding cdn_enabled
check_publication_cdn plugin expected =
    raise_if (not (cdn_enabled plugin) || not (cdn_generation plugin == expected)) cdn_error

-- The keyword arguments of `publish_artifact`.
pub record Release : Type 0 where
  pub expected_repo_version : String
  pub published_key : String
  pub download_url : String
  pub expected_repo : Option String
  pub expected_owner_user_id : Option String
  pub expected_cdn_generation : ℕ

-- `str(owner)`
abbrev pub owner_text : Option String → String
owner_text none = "None"
owner_text (some owner) = owner

-- The repository or the owner is not the one that was authorized.
unfoldable pub unauthorized : Release → Plugin → Bool
unauthorized q plugin =
    not (q.expected_repo == none) && not (some plugin.repo == q.expected_repo)
    || not (q.expected_owner_user_id == none)
      && not (some (owner_text plugin.owner_user_id) == q.expected_owner_user_id)

-- Another artifact is the published release of the version.
unfoldable pub is_conflict : Artifact → Artifact → Bool
is_conflict a other =
    not (other.id == a.id)
    && other.plugin_id == a.plugin_id
    && other.normalized_version == a.normalized_version
    && other.publication_status == PublicationStatus.published

unfoldable pub published : ℕ → Release → Artifact → Artifact
published now q a = record a {
  publication_status = PublicationStatus.published;
  published_key = some q.published_key;
  download_url = some q.download_url;
  published_at = some now;
  updated_at = now;
}

unfoldable pub listed : String → Plugin → Plugin
listed artifact_id plugin = record plugin {
  current_artifact_id = some artifact_id;
  status = "listed";
}

unfoldable pub publish_for : ℕ → Release → Repository → Artifact → Option Plugin → Outcome
unfolding unauthorized is_conflict published listed validate_publication_transition
publish_for now q r a none = err (value_error "repo_version_changed")
publish_for now q r a (some plugin) = do
  raise_if (not (plugin.repo_version == q.expected_repo_version))
      (value_error "repo_version_changed")
  raise_if (unauthorized q plugin) (value_error "repository_authorization_changed")
  raise_if (any (is_conflict a) r.artifacts) (value_error "published_version_conflict")
  validate_publication_transition a.publication_status PublicationStatus.published
  ok (
    some (published now q a),
    record r {
      artifacts = put artifact_key (published now q a) r.artifacts;
      plugins = put plugin_key (listed a.id plugin) r.plugins;
    },
  )

unfoldable pub publish_found : ℕ → Release → Repository → Option Artifact → Outcome
unfolding check_publication_cdn publish_for
publish_found now q r none = ok (none, r)
publish_found now q r (some a) = do
  check_publication_cdn (get_plugin a.plugin_id r) q.expected_cdn_generation
  publish_for now q r a (get_plugin a.plugin_id r)

unfoldable pub publish_artifact : ℕ → String → Release → Repository → Outcome
unfolding publish_found
publish_artifact now artifact_id q r = publish_found now q r (get_artifact artifact_id r)

unfoldable pub revoked : ℕ → Artifact → Artifact
revoked now a = record a {
  publication_status = PublicationStatus.revoked;
  download_url = none;
  revoked_at = some now;
  updated_at = now;
}

-- The market entry no longer points at the artifact.
unfoldable pub unlist : String → List Plugin → Option Plugin → List Plugin
unlist artifact_id plugins none = plugins
unlist artifact_id plugins (some plugin) =
    if plugin.current_artifact_id == some artifact_id
    then put plugin_key (record plugin { current_artifact_id = none; status = "unlisted" }) plugins
    else plugins

unfoldable pub revoke_found : ℕ → Repository → Option Artifact → Outcome
unfolding revoked unlist validate_publication_transition
revoke_found now r none = ok (none, r)
revoke_found now r (some a) = do
  validate_publication_transition a.publication_status PublicationStatus.revoked
  ok (
    some (revoked now a),
    record r {
      artifacts = put artifact_key (revoked now a) r.artifacts;
      plugins = unlist a.id r.plugins (get_plugin a.plugin_id r);
    },
  )

unfoldable pub revoke_artifact : ℕ → String → Repository → Outcome
unfolding revoke_found
revoke_artifact now artifact_id r = revoke_found now r (get_artifact artifact_id r)
