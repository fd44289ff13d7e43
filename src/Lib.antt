-- ===== src/Lib.antt =====
-- AstrBot community plugin market: the review and publication of plugin artifacts, the Python
-- package apps/api/app/artifacts.
--
-- A plugin author submits an archive. The submission is prechecked and scanned by jobs that workers
-- lease from a queue; the orchestrator leads the stages of the review policy to an end. The routing
-- evaluator turns the runs and the findings of the scans into a verdict under the policy; the
-- repository writes the decision, an approval enqueues the publish job, and messages to users pass
-- through an outbox.
--
-- The parts and their files:
-- * Lifecycle models models.py: the statuses (Lifecycle/Types), the transition tables, the ranking of
--   risks and the target of a decision. Lifecycle/Reviews, Lifecycle/Publications and
--   Lifecycle/Risks hold the proofs.
-- * Policy models the stages and the routing thresholds of policy.py, Policy/Validation the checks on
--   the stages that a policy requires.
-- * Archive models ArchivePrechecker.inspect of archive.py up to the metadata, Archive/Paths its paths
--   with the parts of PurePosixPath that they use. Archive/Limits has the invariant of the loop,
--   Archive/Inspections and Archive/Names the theorems.
-- * Routing models RoutingEvaluator.evaluate of routing_evaluator.py with its helpers, and
--   normalize_version of archive.py. Routing/Units has the required units and their results,
--   Routing/Branches the gates and the route, Routing itself the audit. Routing/Verdicts relates
--   the gates to the runs and findings, Routing/Evaluations the whole evaluation.
-- * Repository models InMemoryArtifactRepository of repository.py. Repository/Rows has the rows of
--   its dictionaries; a dictionary is an association list in insertion order (Prelude/Dict).
--   Repository/Jobs is the job queue (enqueue_job, list_artifact_jobs, claim_jobs, renew_job_lease,
--   complete_job, fail_job), Repository/Outbox the outbox (enqueue_outbox, list_pending_outbox,
--   claim_outbox, complete_outbox, fail_outbox, mark_outbox_delivered), Repository/Outbox/Delivery
--   with its module Attempts the theorems on sequences of its calls, Repository/Decisions
--   decide_artifact, Repository/Decisions/Approvals approve_artifact,
--   Repository/Decisions/Automatic auto_approve_artifact, Repository/Decisions/Records
--   record_decision and list_review_decisions. Repository/Submissions has create_artifact and the
--   two status transitions, Repository/Releases publish_artifact and revoke_artifact with
--   check_publication_cdn of apps/api/app/cdn.py, and Repository/Runs the review runs
--   (create_review_run, complete_review_run, list_review_runs, fail_open_review_runs).
-- * Orchestration models ReviewOrchestrator.reconcile of orchestration.py. Orchestration/Units has the
--   stages, their phases and units, Orchestration/States the state of a unit and of a stage,
--   Orchestration/Requests the jobs and runs that it asks the repository for. Orchestration/Completions,
--   Orchestration/Steps and Orchestration/Phases have the lemmas, Orchestration/Readiness,
--   Orchestration/Endings, Orchestration/Coverage and Orchestration/Agreement the theorems.
-- * Json models the JSON values that the rows hold.
-- * Tests has the theorems at concrete inputs.
--
-- How the code is read: an operation takes the repository, or the dictionary that it touches, and
-- returns its result with the new one. An exception is an `err` of `Result`; the modelled code
-- raises before it writes, but for reconcile, which may raise after some of its calls have written:
-- its model then has no repository, and its theorems are about calls that return. The lock is not
-- modelled, since each operation runs as a whole; the clock is an argument, read once in each call,
-- and a new id is an argument too (reconcile takes a supply). Time stamps are natural numbers where
-- they are compared as times; the queue and the outbox sort by the texts of `available_at` and
-- `created_at`, whose form varies, so that these texts are an argument of the claims and the order is
-- that of texts (Prelude/TextOrder). The lists of jobs and runs by `created_at` are sorted by the
-- time stamps, that is for texts of one form. `category_confidence` is a natural number that stands
-- for a fraction. Loops over lists are structural recursion, so that no fuel is needed.
--
-- Parameters: the canonical form of a version by the packaging library, and the SHA-256 of the
-- canonical JSON of an audit (Routing); SHA-256 in hexadecimal, the canonical JSON text, the configured
-- tools, and the stored policies in their parsed form (Orchestration); NFC, case folding, lower case, UTF-8,
-- MIME types, line counts, hashes and the reading of an entry (Archive); the texts of the two times of
-- a job or an event by which it is sorted (Repository/Jobs, Repository/Outbox).
--
-- Not modelled: the PostgreSQL repository, which runs SQL, scanners, containers, language models,
-- storage, mail and the HTTP interface, which are input and output, and the web front end. The
-- manual review, the metadata of a plugin, the diff and the import graph are left out.
mod Prelude
mod Tests
pub mod Lifecycle
pub mod Json
pub mod Repository
pub mod Policy
pub mod Routing
pub mod Archive
pub mod Orchestration
