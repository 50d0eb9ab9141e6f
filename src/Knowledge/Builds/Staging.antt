-- ===== src/Knowledge/Builds/Staging.antt =====
-- Staging a build of a whole space in
-- backend/src/atlasflow/knowledge/infrastructure/memory_repository.py, and the single changes that
-- publishing makes.
use atlas_flow_agent.Base.{
  ℕ, String, Bool, true, false, not, ◌&&◌, ◌||◌, Option, none, some, List, ◌∷◌, if◌then◌else◌,
  is_some, Outcome, ok, raise_if, ◌==◌, nat_eq, string_eq, any, [], ◌>>=◌, ◌>>◌,
}
use atlas_flow_agent.Base.Dict.{Dict, lookup, insert, adjust, values}
use atlas_flow_agent.Knowledge.Models.{
  GenerationStatus, BuildStatus, KnowledgeSpace, KnowledgeDocument, DocumentVersion, IngestionJob,
  IndexGeneration, SpaceDocumentState, KnowledgeSpaceVersion, SpaceBuild, KnowledgeError,
  value_error, option_eq, document_status_eq,
}
use atlas_flow_agent.Knowledge.BuildChecks.{
  collect, ensure_no_build, validate_build_baseline, validate_build_targets,
}
use atlas_flow_agent.Knowledge.BuildContents.{validate_build_sources}
use atlas_flow_agent.Knowledge.Repository.{
  Repository, require, documents_of, has_busy_jobs, next_number, stale,
}
use atlas_flow_agent.Knowledge.Versions.{is_active_generation}

abbrev pub is_building : BuildStatus → Bool
is_building BuildStatus.building = true
is_building _ = false

abbrev pub is_published : BuildStatus → Bool
is_published BuildStatus.published = true
is_published _ = false

abbrev pub is_called_off : BuildStatus → Bool
is_called_off BuildStatus.cancelled = true
is_called_off _ = false

-- What `create_space_build` stores
abbrev pub stage_build :
    ℕ
    → KnowledgeSpace
    → SpaceBuild
    → IndexGeneration
    → List DocumentVersion
    → List IngestionJob
    → Repository
    → Repository
stage_build now space build generation document_versions build_jobs r = record r {
  space_builds = insert build.id build r.space_builds;
  generations = insert generation.id generation r.generations;
  versions = collect (λ v. v.id) r.versions document_versions;
  jobs = collect (λ j. j.id) r.jobs build_jobs;
  spaces =
      insert space.id (record space { active_build_id = some build.id; updated_at = now }) r.spaces;
}

unfoldable pub create_space_build :
    ℕ
    → SpaceBuild
    → IndexGeneration
    → List DocumentVersion
    → List IngestionJob
    → Repository
    → Outcome KnowledgeError (SpaceBuild × Repository)
unfolding any
create_space_build now build generation document_versions build_jobs r = do
  space ← require build.space_id r.spaces
  ensure_no_build space
  validate_build_baseline space (lookup build.base_version_id r.space_versions) build
      (documents_of space.id r)
  raise_if (has_busy_jobs space.id r) (value_error stale)
  validate_build_targets build generation document_versions build_jobs false
  base ← require build.base_version_id r.space_versions
  validate_build_sources build base (values r.versions) document_versions
  raise_if (not (is_building build.status) || some generation.id == space.active_generation_id)
      (value_error "space build must start with a new unpublished generation")
  raise_if
      (is_some (lookup build.id r.space_builds)
        || is_some (lookup generation.id r.generations)
        || any (λ v. is_some (lookup v.id r.versions)) document_versions
        || any (λ j. is_some (lookup j.id r.jobs)) build_jobs)
      (value_error "space build must use new identifiers")
  ok (build, stage_build now space build generation document_versions build_jobs r)

abbrev pub version_ids : List (String × Option String) → List (Option String)
version_ids [] = []
version_ids ((k, v) ∷ ts) = v ∷ version_ids ts

-- The loop that moves the documents to the states of the build
unfoldable pub release_documents :
    ℕ → Dict SpaceDocumentState → Dict KnowledgeDocument → Dict KnowledgeDocument
unfolding adjust
release_documents now [] documents = documents
release_documents now ((k, state) ∷ d) documents = release_documents now d (
    adjust k
      (λ doc. record doc {
        current_version_id = state.version_id;
        status = state.status;
        updated_at = now;
      })
      documents)

abbrev pub retire_in : String → IndexGeneration → IndexGeneration
retire_in space_id item =
    if item.space_id == space_id && is_active_generation item.status
    then record item { status = GenerationStatus.retired }
    else item

abbrev pub activated : ℕ → IndexGeneration → IndexGeneration
activated now generation = record generation {
  status = GenerationStatus.active;
  activated_at = some now;
}

-- The `KnowledgeSpaceVersion` that publishing makes, under the id that is drawn for it
abbrev pub snapshot :
    String → ℕ → KnowledgeSpace → SpaceBuild → IndexGeneration → Repository → KnowledgeSpaceVersion
snapshot fresh now space build generation r = record {
  id = fresh;
  space_id = space.id;
  version_number = next_number space.id r.space_versions;
  generation_id = some generation.id;
  documents = build.documents;
  note = build.note;
  created_at = now;
  activated_at = some now;
  deleted_at = none;
}
