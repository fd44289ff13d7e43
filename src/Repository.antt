-- ===== src/Repository.antt =====
-- apps/api/app/artifacts/repository.py: the in-memory artifact repository. Helpers that its
-- operations share; the operations are in the modules below.
pub mod Rows
pub mod Jobs
pub mod Outbox
pub mod Decisions
pub mod Submissions
pub mod Runs
pub mod Releases
use astrbot_community_plugin.Prelude.{
  ℕ, String, Option, none, some, List, ◌==◌, nat_eq, string_eq, option_eq, if◌then◌else◌, Result,
  ok, err,
}
use astrbot_community_plugin.Prelude.Dict.{get}
use astrbot_community_plugin.Json.{Object, num, set_field}
use astrbot_community_plugin.Lifecycle.{ArtifactError, value_error}
use Rows.{Artifact, Plugin, Policy, Repository}

-- The keys of the dictionaries.
abbrev pub artifact_key : Artifact → String
artifact_key a = a.id

abbrev pub plugin_key : Plugin → String
plugin_key p = p.id

abbrev pub policy_key : Policy → String
policy_key p = p.id

-- `self.artifacts.get(artifact_id)`
abbrev pub get_artifact : String → Repository → Option Artifact
get_artifact artifact_id r = get artifact_key artifact_id r.artifacts

-- `self._plugin(plugin_id)`
abbrev pub get_plugin : String → Repository → Option Plugin
get_plugin plugin_id r = get plugin_key plugin_id r.plugins

-- `a or b` on texts
abbrev pub or_text : String → String → String
or_text a b = if a == "" then b else a

-- `str(value or "") or None`
abbrev pub text_or_none : Option String → Option String
text_or_none none = none
text_or_none (some t) = if t == "" then none else some t

-- `str(value or "")`
abbrev pub text_of : Option String → String
text_of none = ""
text_of (some t) = t

unfoldable pub resolved_policy_snapshot :
    Option String → Option String → Result ArtifactError (Option String)
resolved_policy_snapshot current requested = elim (text_or_none requested) [
  | none ↦ ok (text_or_none current)
  | some id ↦
      if some id == text_or_none current
      then ok (text_or_none current)
      else err (value_error "artifact_policy_snapshot_conflict")
]

-- `cdn_generation(plugin)`, 0 for no plugin
abbrev pub cdn_generation : Option Plugin → ℕ
cdn_generation none = 0
cdn_generation (some plugin) = plugin.cdn_generation

-- `publication_payload(plugin or {}, payload)`
unfoldable pub publication_payload : Option Plugin → Object → Object
publication_payload plugin payload =
    if cdn_generation plugin == 0
    then payload
    else set_field "cdn_generation" (num (cdn_generation plugin)) payload
