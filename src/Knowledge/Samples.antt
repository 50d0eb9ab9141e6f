-- ===== src/Knowledge/Samples.antt =====
-- A small repository: a space with one document, its base version, and a build of the space.
use atlas_flow_agent.Base.{String, false, Option, none, some, ◌∷◌, nat_eq, string_eq, []}
use atlas_flow_agent.Base.Dict.{Dict}
use atlas_flow_agent.Knowledge.Models.{
  DocumentStatus, VersionStatus, JobStatus, JobStage, GenerationStatus, IdentityStatus, BuildStatus,
  ChunkKind, KnowledgeSpace, KnowledgeDocument, DocumentVersion, KnowledgeChunk, IngestionJob,
  IndexGeneration, SpaceDocumentState, KnowledgeSpaceVersion, SpaceBuild, option_eq,
  document_status_eq,
}
use atlas_flow_agent.Knowledge.Repository.{Repository}
use atlas_flow_agent.Knowledge.Models.{DocumentStatus}

abbrev pub space : KnowledgeSpace
space = record {
  id = "s";
  slug = "space";
  name = "Space";
  description = "";
  visibility = "private";
  embedding_profile = "e";
  retrieval_profile = "r";
  active_generation_id = some "g0";
  active_version_id = some "v0";
  active_build_id = some "b1";
  created_at = 1;
  updated_at = 1;
}

abbrev pub document : KnowledgeDocument
document = record {
  id = "d1";
  space_id = "s";
  source_id = "source";
  title = "Title";
  canonical_uri = none;
  current_version_id = some "dv0";
  status = DocumentStatus.active;
  created_at = 1;
  updated_at = 1;
}

abbrev pub dv : String → VersionStatus → DocumentVersion
dv id status = record {
  id = id;
  document_id = "d1";
  version_number = 1;
  content_hash = "hash";
  blob_key = "blob";
  mime_type = "text";
  byte_size = 3;
  status = status;
  source_updated_at = none;
  parser_version = "p";
  chunker_version = "c";
  build_request_hash = none;
  created_at = 1;
  indexed_at = none;
}

abbrev pub generation : String → GenerationStatus → IndexGeneration
generation id status = record {
  id = id;
  space_id = "s";
  status = status;
  embedding_profile = "e";
  retrieval_profile = "r";
  identity_status = IdentityStatus.declared;
  build_spec = none;
  created_at = 1;
  activated_at = none;
}

abbrev pub manifest : String → Dict SpaceDocumentState
manifest version_id =
    ("d1", record { version_id = some version_id; status = DocumentStatus.active }) ∷ []

abbrev pub base : KnowledgeSpaceVersion
base = record {
  id = "v0";
  space_id = "s";
  version_number = 1;
  generation_id = some "g0";
  documents = manifest "dv0";
  note = "";
  created_at = 1;
  activated_at = some 1;
  deleted_at = none;
}

abbrev pub build : SpaceBuild
build = record {
  id = "b1";
  space_id = "s";
  base_version_id = "v0";
  generation_id = "g1";
  documents = manifest "dv1";
  job_ids = "j1" ∷ [];
  status = BuildStatus.building;
  parser_version = "p";
  chunker_version = "c";
  build_request_hash = none;
  note = "";
  published_version_id = none;
  created_at = 2;
  updated_at = 2;
}

abbrev pub job : JobStatus → IngestionJob
job status = record {
  id = "j1";
  space_id = "s";
  document_id = "d1";
  version_id = "dv1";
  space_build_id = some "b1";
  generation_id = some "g1";
  build_request_hash = none;
  status = status;
  stage = JobStage.queued;
  attempt = 0;
  progress = 0;
  error_code = none;
  error_message = none;
  retryable = false;
  created_at = 2;
  updated_at = 2;
}

abbrev pub chunk : String → ChunkKind → Option String → KnowledgeChunk
chunk id kind parent = record {
  id = id;
  document_id = "d1";
  version_id = "dv1";
  generation_id = "g1";
  parent_id = parent;
  chunk_kind = kind;
  title = "Title";
  content = "text";
  token_count = 1;
  lexical_text = "text";
  heading_path = [];
  page_number = none;
  block_start = none;
  block_end = none;
  embedding = some (record { negative = false; exponent = 1023; fraction = 0 } ∷ []);
  created_at = 2;
}

abbrev pub repository : JobStatus → VersionStatus → Repository
repository jobs version = record {
  spaces = ("s", space) ∷ [];
  space_versions = ("v0", base) ∷ [];
  space_builds = ("b1", build) ∷ [];
  documents = ("d1", document) ∷ [];
  versions = ("dv0", dv "dv0" VersionStatus.ready) ∷ ("dv1", dv "dv1" version) ∷ [];
  generations =
      ("g0", generation "g0" GenerationStatus.active)
      ∷ ("g1", generation "g1" GenerationStatus.building)
      ∷ [];
  chunks =
      ("p", chunk "p" ChunkKind.parent none) ∷ ("c", chunk "c" ChunkKind.child (some "p")) ∷ [];
  jobs = ("j1", job jobs) ∷ [];
}

-- The build has been indexed, and waits to be published.
abbrev pub indexed : Repository
indexed = repository JobStatus.completed VersionStatus.ready

-- The job of the build waits to be claimed.
abbrev pub waiting : Repository
waiting = repository JobStatus.queued VersionStatus.pending
