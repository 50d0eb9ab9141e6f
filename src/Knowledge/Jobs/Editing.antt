-- ===== src/Knowledge/Jobs/Editing.antt =====
-- Creating, updating, cancelling and repairing an ingestion job in
-- backend/src/atlasflow/knowledge/infrastructure/memory_repository.py.
use atlas_flow_agent.Base.{
  ℕ, String, Bool, true, false, not, ◌&&◌, ◌||◌, Option, none, some, if◌then◌else◌, Outcome, ok,
  raise_if, ◌==◌, nat_eq, string_eq, ◌>>=◌, ◌>>◌,
}
use atlas_flow_agent.Base.Dict.{lookup, insert}
use atlas_flow_agent.Knowledge.Models.{
  JobStatus, KnowledgeSpace, DocumentVersion, IngestionJob, IndexGeneration, KnowledgeError,
  value_error, truthy, is_verified, option_eq, document_status_eq,
}
use atlas_flow_agent.Knowledge.BuildChecks.{ensure_job_allowed, has_hash}
use atlas_flow_agent.Knowledge.Repository.{Repository, require}
use atlas_flow_agent.Knowledge.Generations.{generation_hash}
use atlas_flow_agent.Knowledge.Builds.{is_running, cancelled_job}

abbrev pub is_failed_terminal : JobStatus → Bool
is_failed_terminal JobStatus.failed_terminal = true
is_failed_terminal _ = false

abbrev pub is_cancelled_job : JobStatus → Bool
is_cancelled_job JobStatus.cancelled = true
is_cancelled_job _ = false

abbrev pub is_completed : JobStatus → Bool
is_completed JobStatus.completed = true
is_completed _ = false

abbrev pub get_generation : Option String → Repository → Option IndexGeneration
get_generation none r = none
get_generation (some k) r = lookup k r.generations

unfoldable pub create_job :
    IngestionJob → Repository → Outcome KnowledgeError (IngestionJob × Repository)
create_job job r = do
  space ← require job.space_id r.spaces
  ensure_job_allowed space job
  raise_if (truthy job.space_build_id)
      (value_error "space build jobs must be created in the build transaction")
  raise_if
      (truthy job.generation_id
        && truthy job.build_request_hash
        && not (is_failed_terminal job.status)
        && (not (space.active_generation_id == job.generation_id)
            || not (generation_hash (get_generation job.generation_id r) job.build_request_hash)))
      (value_error "INDEX_SPEC_MISMATCH: space changed while ingestion was queued")
  ok (job, record r { jobs = insert job.id job r.jobs })

-- The fields that `update_job` compares
abbrev pub same_identity : IngestionJob → IngestionJob → Bool
same_identity j k =
    j.space_id == k.space_id
    && j.document_id == k.document_id
    && j.version_id == k.version_id
    && j.space_build_id == k.space_build_id
    && j.generation_id == k.generation_id
    && j.build_request_hash == k.build_request_hash

unfoldable pub update_job :
    IngestionJob → Repository → Outcome KnowledgeError (IngestionJob × Repository)
update_job job r = do
  latest ← require job.id r.jobs
  raise_if (not (same_identity job latest)) (value_error "ingestion job identity cannot change")
  raise_if (is_cancelled_job latest.status && not (is_cancelled_job job.status))
      (value_error "cancelled ingestion job cannot resume")
  space ← require job.space_id r.spaces
  ensure_job_allowed space job
  ok (job, record r { jobs = insert job.id job r.jobs })

abbrev pub may_cancel : JobStatus → Bool
may_cancel JobStatus.queued = true
may_cancel JobStatus.failed_retryable = true
may_cancel JobStatus.failed_terminal = true
may_cancel _ = false

abbrev pub cancel_queued :
    ℕ → String → IngestionJob → Repository → Outcome KnowledgeError (IngestionJob × Repository)
cancel_queued now job_id job r = do
  raise_if (not (may_cancel job.status))
      (value_error "only queued or failed independent ingestion jobs can be cancelled")
  ok (cancelled_job now job, record r { jobs = insert job_id (cancelled_job now job) r.jobs })

unfoldable pub cancel_job :
    ℕ → String → Repository → Outcome KnowledgeError (IngestionJob × Repository)
cancel_job now job_id r = do
  job ← require job_id r.jobs
  raise_if (truthy job.space_build_id)
      (value_error "cancel the whole space build instead of one build job")
  if is_cancelled_job job.status then ok (job, r) else cancel_queued now job_id job r

abbrev pub repaired : ℕ → IngestionJob → IngestionJob
repaired now job = record job {
  status = JobStatus.failed_terminal;
  retryable = false;
  error_code = some "LegacyJobUnbound";
  error_message =
      some
        "Old workers were explicitly declared stopped; cancel and resubmit this unbound legacy job";
  updated_at = now;
}

unfoldable pub repair_legacy_running_job :
    ℕ → String → Repository → Outcome KnowledgeError (IngestionJob × Repository)
repair_legacy_running_job now job_id r = do
  job ← require job_id r.jobs
  raise_if
      (not (is_running job.status) || truthy job.generation_id && truthy job.build_request_hash)
      (value_error "only an unbound legacy running job can be repaired")
  ok (repaired now job, record r { jobs = insert job_id (repaired now job) r.jobs })

-- The generation that a job commits to, after the test of `complete_ingestion_job`
abbrev pub is_bound : KnowledgeSpace → IngestionJob → DocumentVersion → IndexGeneration → Bool
is_bound space job version generation =
    is_running job.status
    && is_verified generation.identity_status
    && has_hash generation.build_spec job.build_request_hash
    && version.build_request_hash == job.build_request_hash
    && (truthy job.space_build_id || space.active_generation_id == some generation.id)
