-- ===== src/Knowledge/Jobs.antt =====
-- The ingestion jobs of memory_repository.py.
mod Editing
unfoldable pub use Editing.*
use atlas_flow_agent.Base.{
  ℕ, ◌+◌, String, Bool, true, false, not, ◌&&◌, ◌||◌, Option, none, some, List, ◌∷◌, map, ltb,
  if◌then◌else◌, Outcome, ok, raise, raise_if, ◌==◌, nat_eq, string_eq, length, keep, [], ◌>>=◌,
  ◌>>◌,
}
use atlas_flow_agent.Base.Dict.{Dict, lookup, insert, values}
use atlas_flow_agent.Base.Sorting.{sort_by}
use atlas_flow_agent.Knowledge.Models.{
  DocumentStatus, VersionStatus, JobStatus, JobStage, KnowledgeSpace, KnowledgeDocument,
  DocumentVersion, KnowledgeChunk, IngestionJob, IndexGeneration, KnowledgeError, value_error,
  truthy, is_verified, option_eq, document_status_eq,
}
use atlas_flow_agent.Knowledge.BuildChecks.{ensure_job_allowed, has_hash}
use atlas_flow_agent.Knowledge.BuildContents.{validate_vectors, is_parent}
use atlas_flow_agent.Knowledge.Repository.{Repository, require, mark_space_unversioned}
use atlas_flow_agent.Knowledge.Generations.{vector_of, observed, generation_hash}
use atlas_flow_agent.Knowledge.Builds.{is_running, cancelled_job}

unfoldable pub bound_generation :
    KnowledgeSpace
    → IngestionJob
    → DocumentVersion
    → Option IndexGeneration
    → Outcome KnowledgeError IndexGeneration
bound_generation space job version none =
    raise (value_error "INDEX_SPEC_MISMATCH: ingestion cannot commit to its bound generation")
bound_generation space job version (some generation) = do
  raise_if (not (is_bound space job version generation))
      (value_error "INDEX_SPEC_MISMATCH: ingestion cannot commit to its bound generation")
  ok generation

unfoldable pub committed_children :
    DocumentVersion → IndexGeneration → List KnowledgeChunk → List KnowledgeChunk
unfolding keep
committed_children version generation chunks =
    keep
      (λ c.
        c.version_id == version.id
        && c.generation_id == generation.id
        && not (is_parent c.chunk_kind))
      chunks

abbrev pub ready_version : ℕ → DocumentVersion → DocumentVersion
ready_version now version = record version { status = VersionStatus.ready; indexed_at = some now }

abbrev pub completed_job : ℕ → IngestionJob → IngestionJob
completed_job now job = record job {
  status = JobStatus.completed;
  stage = JobStage.ready;
  progress = 100;
  error_code = none;
  error_message = none;
  retryable = false;
  updated_at = now;
}

-- The document of an independent job is moved to the version; that of a build's job waits.
abbrev pub commit_document :
    ℕ
    → KnowledgeSpace
    → IngestionJob
    → DocumentVersion
    → KnowledgeDocument
    → Repository
    → Outcome KnowledgeError Repository
commit_document now space job version document r =
    if truthy job.space_build_id
    then ok r
    else mark_space_unversioned now space.id (record r {
      documents =
          insert document.id
            (record document {
              current_version_id = some version.id;
              status = DocumentStatus.active;
              updated_at = now;
            })
            r.documents;
    })

unfoldable pub commit_job :
    ℕ → String → IngestionJob → Repository → Outcome KnowledgeError (IngestionJob × Repository)
unfolding committed_children
commit_job now job_id job r = do
  space ← require job.space_id r.spaces
  ensure_job_allowed space job
  version ← require job.version_id r.versions
  document ← require job.document_id r.documents
  generation ← bound_generation space job version (get_generation job.generation_id r)
  size ←
      validate_vectors
        (map (λ c. vector_of c.embedding) (committed_children version generation (values r.chunks)))
        (length (committed_children version generation (values r.chunks)))
        (observed generation.build_spec)
  after ←
      commit_document now space job version document
        (record r { versions = insert version.id (ready_version now version) r.versions })
  ok (
    completed_job now job,
    record after { jobs = insert job_id (completed_job now job) after.jobs },
  )

unfoldable pub complete_ingestion_job :
    ℕ → String → Repository → Outcome KnowledgeError (IngestionJob × Repository)
complete_ingestion_job now job_id r = do
  job ← require job_id r.jobs
  if is_completed job.status then ok (job, r) else commit_job now job_id job r

-- `status in {QUEUED, FAILED_RETRYABLE}`
abbrev pub is_pending_job : JobStatus → Bool
is_pending_job JobStatus.queued = true
is_pending_job JobStatus.failed_retryable = true
is_pending_job _ = false

abbrev pub wanted : Option String → String → Bool
wanted none id = true
wanted (some k) id = id == k

abbrev pub claimed_job : ℕ → IngestionJob → IngestionJob
claimed_job now job = record job {
  status = JobStatus.running;
  attempt = job.attempt + 1;
  updated_at = now;
}

-- `next(…, None)` over the sorted jobs. The space of a job is read only where the tests before it hold.
unfoldable pub next_pending :
    Option String
    → Dict KnowledgeSpace
    → List IngestionJob
    → Outcome KnowledgeError (Option IngestionJob)
next_pending job_id spaces [] = ok none
next_pending job_id spaces (j ∷ js) =
    let rest = next_pending job_id spaces js in
    if is_pending_job j.status && wanted job_id j.id
    then (do
      space ← require j.space_id spaces
      if j.space_build_id == space.active_build_id then ok (some j) else rest)
    else rest

abbrev pub claim_pending : ℕ → Option IngestionJob → Repository → Option IngestionJob × Repository
claim_pending now none r = (none, r)
claim_pending now (some j) r =
    (some (claimed_job now j), record r { jobs = insert j.id (claimed_job now j) r.jobs })

unfoldable pub claim_job :
    ℕ → Option String → Repository → Outcome KnowledgeError (Option IngestionJob × Repository)
unfolding sort_by
claim_job now job_id r = do
  pending ←
      next_pending job_id r.spaces (sort_by (λ x y. ltb x.created_at y.created_at) (values r.jobs))
  ok (claim_pending now pending r)

unfoldable pub list_jobs : Option String → Repository → List IngestionJob
unfolding sort_by keep
list_jobs space_id r =
    sort_by (λ x y. ltb y.created_at x.created_at)
      (if truthy space_id
        then keep (λ j. some j.space_id == space_id) (values r.jobs)
        else values r.jobs)
