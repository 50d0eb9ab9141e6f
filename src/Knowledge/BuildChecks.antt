-- ===== src/Knowledge/BuildChecks.antt =====
-- The checks of backend/src/atlasflow/knowledge/domain/build_validation.py, in their order, and the
-- dicts and sets they are made of.
mod Manifests
unfoldable pub use Manifests.*
use atlas_flow_agent.Base.{
  String, ◌≡◌, refl, ap, ◌↔◌, Bool, true, false, not, ◌&&◌, ◌||◌, Option, none, some, List, ◌∷◌,
  map, arith, eqb, if◌then◌else◌, &&_elim, Outcome, raise, raise_if, for_each, Keyed, ◌==◌, nat_eq,
  string_eq, subset, dedup, length, is_empty, all, [], ◌>>◌,
}
use atlas_flow_agent.Base.Dict.{Dict, lookup, insert}
use atlas_flow_agent.Knowledge.Models.{
  VersionStatus, JobStatus, GenerationStatus, KnowledgeSpace, KnowledgeDocument, DocumentVersion,
  IngestionJob, IndexGeneration, IndexBuildSpec, SpaceDocumentState, KnowledgeSpaceVersion,
  SpaceBuild, KnowledgeError, value_error, key_error, truthy, is_active, is_verified, option_eq,
  document_status_eq,
}

unfoldable pub ensure_no_build : KnowledgeSpace → Outcome KnowledgeError (Unit {0})
ensure_no_build space =
    raise_if (truthy space.active_build_id)
      (value_error "space has an active build; publish or cancel it before changing the space")

unfoldable pub ensure_job_allowed :
    KnowledgeSpace → IngestionJob → Outcome KnowledgeError (Unit {0})
ensure_job_allowed space job = do
  raise_if (truthy space.active_build_id && not (job.space_build_id == space.active_build_id))
      (value_error "space has an active build; ordinary ingestion is locked")
  raise_if (truthy job.space_build_id && not (job.space_build_id == space.active_build_id))
      (value_error "space build is no longer active; its jobs cannot be changed")

-- The first test of `validate_build_baseline`, on a base that is there
unfoldable pub baseline_changed :
    KnowledgeSpace → KnowledgeSpaceVersion → SpaceBuild → List KnowledgeDocument → Bool
baseline_changed space base build docs =
    not (base.space_id == space.id)
    || not (build.space_id == space.id)
    || not (build.base_version_id == base.id)
    || not (space.active_version_id == some base.id)
    || not (space.active_generation_id == base.generation_id)
    || not (same_documents (current_states docs) base.documents)

unfoldable pub check_target :
    SpaceDocumentState → Option SpaceDocumentState → Outcome KnowledgeError (Unit {0})
check_target previous none = raise (key_error "document_id")
check_target previous (some target) =
    if is_active previous.status
    then (do
      raise_if (not (is_active target.status) || not (truthy target.version_id))
          (value_error "space build must rebuild every active document")
      raise_if (target.version_id == previous.version_id)
          (value_error "space build must create a new version for every active document"))
    else raise_if (not (same_state target previous))
        (value_error "space build must preserve archived document states")

unfoldable pub validate_build_baseline :
    KnowledgeSpace
    → Option KnowledgeSpaceVersion
    → SpaceBuild
    → List KnowledgeDocument
    → Outcome KnowledgeError (Unit {0})
validate_build_baseline space none build docs =
    raise (value_error "space build baseline changed; save the current complete space and retry")
validate_build_baseline space (some base) build docs = do
  raise_if (baseline_changed space base build docs)
      (value_error "space build baseline changed; save the current complete space and retry")
  raise_if (not (same_set (keys build.documents) (keys base.documents)))
      (value_error "space build must contain the entire baseline document manifest")
  for_each (λ entry. check_target entry.1 (lookup entry.0 build.documents)) base.documents

-- The active documents of a manifest with the versions it names.
unfoldable pub active_targets : Dict SpaceDocumentState → List (String × Option String)
active_targets [] = []
active_targets ((k, s) ∷ d) =
    let rest = active_targets d in if is_active s.status then (k, s.version_id) ∷ rest else rest

abbrev pub is_unpublished : GenerationStatus → Bool
is_unpublished GenerationStatus.building = true
is_unpublished GenerationStatus.validating = true
is_unpublished _ = false

abbrev pub version_expected : Bool → VersionStatus → Bool
version_expected true VersionStatus.ready = true
version_expected false VersionStatus.pending = true
version_expected _ _ = false

abbrev pub job_expected : Bool → JobStatus → Bool
job_expected true JobStatus.completed = true
job_expected false JobStatus.queued = true
job_expected _ _ = false

-- `spec is not None and spec.request_hash == hash`
abbrev pub has_hash : Option IndexBuildSpec → Option String → Bool
has_hash none h = false
has_hash (some spec) h = some spec.request_hash == h

abbrev pub get_version : Dict DocumentVersion → Option String → Option DocumentVersion
get_version versions none = none
get_version versions (some v) = lookup v versions

-- The body of the loop over the active documents
unfoldable pub check_version :
    SpaceBuild → Bool → String → Option DocumentVersion → Outcome KnowledgeError (Unit {0})
check_version build publishing document_id none =
    raise (value_error "space build contains a missing or mismatched document version")
check_version build publishing document_id (some version) = do
  raise_if (not (version.document_id == document_id))
      (value_error "space build contains a missing or mismatched document version")
  raise_if
      (not (
        version.parser_version == build.parser_version
        && version.chunker_version == build.chunker_version))
      (value_error "space build document pipelines are inconsistent")
  raise_if
      (truthy build.build_request_hash
        && not (version.build_request_hash == build.build_request_hash))
      (value_error "space build document identity is inconsistent")
  raise_if (not (version_expected publishing version.status)) (
      value_error (
        if publishing
        then "space build document version must be ready"
        else "space build document version must be pending"))

-- The body of the loop over the jobs
unfoldable pub check_job :
    SpaceBuild → IndexGeneration → Bool → IngestionJob → Outcome KnowledgeError (Unit {0})
check_job build generation publishing job = do
  raise_if
      (not (job.space_id == build.space_id)
        || not (job.space_build_id == some build.id)
        || not (job.generation_id == some generation.id))
      (value_error "space build job belongs to a different build or generation")
  raise_if
      (truthy build.build_request_hash && not (job.build_request_hash == build.build_request_hash))
      (value_error "space build job identity is inconsistent")
  raise_if (not (job_expected publishing job.status)) (
      value_error (
        if publishing
        then "space build requires all jobs to be completed"
        else "space build requires all jobs to be queued"))

-- The part of `validate_build_targets` before its loops
unfoldable pub check_generation :
    SpaceBuild → IndexGeneration → Bool → Outcome KnowledgeError (Unit {0})
check_generation build generation publishing = do
  raise_if
      (not (generation.id == build.generation_id) || not (generation.space_id == build.space_id))
      (value_error "space build generation does not belong to the target space")
  raise_if (not (is_unpublished generation.status))
      (value_error "space build requires an unpublished index generation")
  raise_if
      (truthy build.build_request_hash
        && not (has_hash generation.build_spec build.build_request_hash))
      (value_error "space build identity differs from its generation")
  raise_if
      (truthy build.build_request_hash
        && publishing
        && not (is_verified generation.identity_status))
      (value_error "space build generation identity is not verified")

abbrev pub job_target : IngestionJob → String × Option String
job_target job = (job.document_id, some job.version_id)

unfoldable pub check_counts :
    SpaceBuild
    → List (String × Option String)
    → List DocumentVersion
    → List IngestionJob
    → Outcome KnowledgeError (Unit {0})
check_counts build active versions jobs = do
  raise_if (is_empty active) (value_error "space build requires at least one active document")
  raise_if
      (not (eqb (length (index_by (λ v. v.id) versions)) (length active))
        || not (eqb (length versions) (length active)))
      (value_error "space build needs exactly one new version per active document")
  raise_if
      (not (eqb (length build.job_ids) (length active))
        || not (eqb (length (dedup build.job_ids)) (length active))
        || not (same_set (keys (index_by (λ j. j.id) jobs)) build.job_ids)
        || not (eqb (length jobs) (length active)))
      (value_error "space build needs exactly one job per active document")
  raise_if (not (same_set (map job_target jobs) active))
      (value_error "space build jobs do not cover the complete target manifest")

unfoldable pub validate_build_targets :
    SpaceBuild
    → IndexGeneration
    → List DocumentVersion
    → List IngestionJob
    → Bool
    → Outcome KnowledgeError (Unit {0})
validate_build_targets build generation versions jobs publishing = do
  check_generation build generation publishing
  check_counts build (active_targets build.documents) versions jobs
  for_each
      (λ target.
        check_version build publishing target.0
          (get_version (index_by (λ v. v.id) versions) target.1))
      (active_targets build.documents)
  for_each (check_job build generation publishing) jobs
