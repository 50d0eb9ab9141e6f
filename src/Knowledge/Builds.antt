-- ===== src/Knowledge/Builds.antt =====
-- The builds of a whole space in memory_repository.py: one is staged, published in one step, or
-- cancelled. A build names a generation that `create_space_build` has stored, so that reading it
-- before or after the jobs are cancelled is the same.
mod Staging
unfoldable pub use Staging.*
use atlas_flow_agent.Base.{
  ℕ, String, Bool, true, false, not, ◌&&◌, ◌||◌, Option, none, some, List, ◌∷◌, map, if◌then◌else◌,
  is_some, Outcome, ok, raise_if, ◌==◌, nat_eq, string_eq, any, [], ◌>>=◌, ◌>>◌,
}
use atlas_flow_agent.Base.Dict.{Dict, lookup, insert, adjust, map_values, values}
use atlas_flow_agent.Knowledge.Models.{
  JobStatus, GenerationStatus, BuildStatus, KnowledgeSpace, KnowledgeDocument, DocumentVersion,
  IngestionJob, IndexGeneration, SpaceDocumentState, KnowledgeSpaceVersion, SpaceBuild,
  KnowledgeError, value_error, truthy, option_eq, document_status_eq,
}
use atlas_flow_agent.Knowledge.BuildChecks.{
  collect, ensure_no_build, validate_build_baseline, validate_build_targets, active_targets,
}
use atlas_flow_agent.Knowledge.BuildContents.{validate_build_sources, validate_build_chunks}
use atlas_flow_agent.Knowledge.Repository.{
  Repository, require, require_option, require_all, documents_of, has_busy_jobs, next_number, stale,
}
use atlas_flow_agent.Knowledge.Versions.{is_active_generation}

-- The checks of `publish_space_build` on a build that is not published, and what they read. The
-- four stages are one after the other in the source.
abbrev pub check_contents :
    SpaceBuild
    → Repository
    → KnowledgeSpace
    → IndexGeneration
    → List DocumentVersion
    → List IngestionJob
    → Outcome KnowledgeError (KnowledgeSpace × IndexGeneration)
check_contents build r space generation target_versions target_jobs = do
  validate_build_targets build generation target_versions target_jobs true
  validate_build_chunks build (values r.chunks)
  ok (space, generation)

abbrev pub check_staged :
    SpaceBuild
    → Repository
    → KnowledgeSpace
    → IndexGeneration
    → Outcome KnowledgeError (KnowledgeSpace × IndexGeneration)
check_staged build r space generation = do
  target_versions ← require_all (version_ids (active_targets build.documents)) r.versions
  target_jobs ← require_all (map some build.job_ids) r.jobs
  check_contents build r space generation target_versions target_jobs

abbrev pub check_space :
    SpaceBuild
    → Repository
    → KnowledgeSpace
    → Outcome KnowledgeError (KnowledgeSpace × IndexGeneration)
check_space build r space = do
  raise_if (not (space.active_build_id == some build.id) || is_called_off build.status)
      (value_error "space build is not active")
  validate_build_baseline space (lookup build.base_version_id r.space_versions) build
      (documents_of space.id r)
  generation ← require build.generation_id r.generations
  check_staged build r space generation

unfoldable pub check_publish :
    SpaceBuild → Repository → Outcome KnowledgeError (KnowledgeSpace × IndexGeneration)
check_publish build r = do space ← require build.space_id r.spaces; check_space build r space

-- What `publish_space_build` assigns
unfoldable pub release :
    String → ℕ → KnowledgeSpace → SpaceBuild → IndexGeneration → Repository → Repository
unfolding insert map_values release_documents
release fresh now space build generation r = record r {
  documents = release_documents now build.documents r.documents;
  generations =
      insert generation.id (activated now generation)
        (map_values (retire_in space.id) r.generations);
  space_versions = insert fresh (snapshot fresh now space build generation r) r.space_versions;
  spaces =
      insert space.id
        (record space {
          active_version_id = some fresh;
          active_generation_id = some generation.id;
          active_build_id = none;
          updated_at = now;
        })
        r.spaces;
  space_builds =
      insert build.id
        (record build {
          status = BuildStatus.published;
          published_version_id = some fresh;
          updated_at = now;
        })
        r.space_builds;
}

abbrev pub publish_new :
    String
    → ℕ
    → SpaceBuild
    → Repository
    → Outcome KnowledgeError (KnowledgeSpaceVersion × Repository)
publish_new fresh now build r = do
  checked ← check_publish build r
  ok (snapshot fresh now checked.0 build checked.1 r, release fresh now checked.0 build checked.1 r)

abbrev pub published_before :
    SpaceBuild → Repository → Outcome KnowledgeError (KnowledgeSpaceVersion × Repository)
published_before build r = do
  version ← require_option build.published_version_id r.space_versions
  ok (version, r)

unfoldable pub publish_space_build :
    String → ℕ → String → Repository → Outcome KnowledgeError (KnowledgeSpaceVersion × Repository)
publish_space_build fresh now build_id r = do
  build ← require build_id r.space_builds
  (if is_published build.status && truthy build.published_version_id
      then published_before build r
      else publish_new fresh now build r)

abbrev pub is_running : JobStatus → Bool
is_running JobStatus.running = true
is_running _ = false

-- `status in {COMPLETED, CANCELLED}`
abbrev pub is_settled : JobStatus → Bool
is_settled JobStatus.completed = true
is_settled JobStatus.cancelled = true
is_settled _ = false

abbrev pub cancelled_job : ℕ → IngestionJob → IngestionJob
cancelled_job now job = record job {
  status = JobStatus.cancelled;
  retryable = false;
  updated_at = now;
}

unfoldable pub cancel_jobs : ℕ → List IngestionJob → Dict IngestionJob → Dict IngestionJob
unfolding insert
cancel_jobs now [] jobs = jobs
cancel_jobs now (j ∷ js) jobs =
    cancel_jobs now js
      (if is_settled j.status then jobs else insert j.id (cancelled_job now j) jobs)

abbrev pub called_off : ℕ → SpaceBuild → SpaceBuild
called_off now build = record build { status = BuildStatus.cancelled; updated_at = now }

-- What `cancel_space_build` assigns
unfoldable pub withdraw :
    ℕ → KnowledgeSpace → SpaceBuild → IndexGeneration → List IngestionJob → Repository → Repository
unfolding insert cancel_jobs
withdraw now space build generation build_jobs r = record r {
  jobs = cancel_jobs now build_jobs r.jobs;
  generations =
      insert build.generation_id (record generation { status = GenerationStatus.retired })
        r.generations;
  spaces = insert space.id (record space { active_build_id = none; updated_at = now }) r.spaces;
  space_builds = insert build.id (called_off now build) r.space_builds;
}

abbrev pub cancel_new :
    ℕ → SpaceBuild → Repository → Outcome KnowledgeError (SpaceBuild × Repository)
cancel_new now build r = do
  space ← require build.space_id r.spaces
  raise_if (not (space.active_build_id == some build.id) || is_published build.status)
      (value_error "space build is not active")
  build_jobs ← require_all (map some build.job_ids) r.jobs
  raise_if (any (λ j. is_running j.status) build_jobs)
      (value_error "space build has running jobs; wait until they finish before cancelling")
  generation ← require build.generation_id r.generations
  ok (called_off now build, withdraw now space build generation build_jobs r)

unfoldable pub cancel_space_build :
    ℕ → String → Repository → Outcome KnowledgeError (SpaceBuild × Repository)
unfolding any
cancel_space_build now build_id r = do
  build ← require build_id r.space_builds
  if is_called_off build.status then ok (build, r) else cancel_new now build r
