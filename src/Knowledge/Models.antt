-- ===== src/Knowledge/Models.antt =====
-- The records of backend/src/atlasflow/knowledge/domain/models.py and the parts of index_specs.py
-- that the repository reads. Times are numbers of clock ticks. Free metadata, rights and provenance,
-- which no operation here reads, are left out.
use atlas_flow_agent.Base.{
  ℕ, String, ◌≡◌, refl, ap, ◌↔◌, Bool, true, false, not, Option, none, some, List, eqb, Keyed, ◌==◌,
  nat_eq, string_eq, is_blank,
}
use atlas_flow_agent.Base.Dict.{Dict}

pub data DocumentStatus : Type 0 where
  active archived : DocumentStatus

pub data VersionStatus : Type 0 where
  pending processing ready failed : VersionStatus

pub data JobStatus : Type 0 where
  queued running failed_retryable failed_terminal completed cancelled : JobStatus

pub data JobStage : Type 0 where
  queued extracting parsing chunking embedding indexing validating ready : JobStage

-- `IndexGeneration.status`
pub data GenerationStatus : Type 0 where
  building validating active retired : GenerationStatus

-- `identity_status`
pub data IdentityStatus : Type 0 where
  legacy_unknown declared verified : IdentityStatus

-- `SpaceBuild.status`
pub data BuildStatus : Type 0 where
  building ready failed published cancelled : BuildStatus

-- `KnowledgeChunk.chunk_kind`
pub data ChunkKind : Type 0 where
  parent child : ChunkKind

abbrev pub same_status : DocumentStatus → DocumentStatus → Bool
same_status DocumentStatus.active DocumentStatus.active = true
same_status DocumentStatus.archived DocumentStatus.archived = true
same_status _ _ = false

pub same_status_iff : (a b : DocumentStatus) → (same_status a b ≡ true) ↔ (a ≡ b)
same_status_iff DocumentStatus.active DocumentStatus.active = (λ _. refl, λ _. refl)
same_status_iff DocumentStatus.archived DocumentStatus.archived = (λ _. refl, λ _. refl)
same_status_iff DocumentStatus.active DocumentStatus.archived = (λ h. cc, λ h. cc)
same_status_iff DocumentStatus.archived DocumentStatus.active = (λ h. cc, λ h. cc)

-- `==` on values that may be `None`
abbrev pub same_option : {A : Type 0} ⦃e : Keyed A⦄ → Option A → Option A → Bool
same_option none none = true
same_option (some a) (some b) = a == b
same_option _ _ = false

pub same_option_iff :
    {A : Type 0} ⦃e : Keyed A⦄ (x y : Option A) → (same_option x y ≡ true) ↔ (x ≡ y)
same_option_iff none none = (λ _. refl, λ _. refl)
same_option_iff none (some b) = (λ h. cc, λ h. cc)
same_option_iff (some a) none = (λ h. cc, λ h. cc)
same_option_iff ⦃e⦄ (some a) (some b) =
    (λ h. ap some ((e.same_iff a b).0 h), λ h. (e.same_iff a b).1 (cc))

instance abbrev pub option_eq : {A : Type 0} ⦃e : Keyed A⦄ → Keyed (Option A)
option_eq = record { same = same_option; same_iff = same_option_iff }

instance abbrev pub document_status_eq : Keyed DocumentStatus
document_status_eq = record { same = same_status; same_iff = same_status_iff }

-- `bool(x)` of a text that may be `None`
abbrev pub truthy : Option String → Bool
truthy none = false
truthy (some s) = not (is_blank s)

abbrev pub is_active : DocumentStatus → Bool
is_active DocumentStatus.active = true
is_active DocumentStatus.archived = false

abbrev pub is_verified : IdentityStatus → Bool
is_verified IdentityStatus.verified = true
is_verified _ = false

-- `EmbeddingSpec`, of index_specs.py: the fields that an index is sealed with
pub record EmbeddingSpec : Type 0 where
  pub provider : String
  pub service_id : String
  pub model : String
  pub actual_model : Option String
  pub requested_dimensions : Option ℕ
  pub observed_dimensions : Option ℕ

-- `IndexBuildSpec`, of index_specs.py. `request_hash` is the hash that a property of it computes.
pub record IndexBuildSpec : Type 0 where
  pub request_hash : String
  pub embedding : EmbeddingSpec

pub record KnowledgeSpace : Type 0 where
  pub id : String
  pub slug : String
  pub name : String
  pub description : String
  pub visibility : String
  pub embedding_profile : String
  pub retrieval_profile : String
  pub active_generation_id : Option String
  pub active_version_id : Option String
  pub active_build_id : Option String
  pub created_at : ℕ
  pub updated_at : ℕ

pub record KnowledgeDocument : Type 0 where
  pub id : String
  pub space_id : String
  pub source_id : String
  pub title : String
  pub canonical_uri : Option String
  pub current_version_id : Option String
  pub status : DocumentStatus
  pub created_at : ℕ
  pub updated_at : ℕ

pub record DocumentVersion : Type 0 where
  pub id : String
  pub document_id : String
  pub version_number : ℕ
  pub content_hash : String
  pub blob_key : String
  pub mime_type : String
  pub byte_size : ℕ
  pub status : VersionStatus
  pub source_updated_at : Option ℕ
  pub parser_version : String
  pub chunker_version : String
  pub build_request_hash : Option String
  pub created_at : ℕ
  pub indexed_at : Option ℕ

-- A binary64 number by its three fields.
pub record Float : Type 0 where
  pub negative : Bool
  pub exponent : ℕ
  pub fraction : ℕ

-- `math.isfinite`: the exponent is not the largest.
abbrev pub isfinite : Float → Bool
isfinite x = not (eqb x.exponent 2047)

pub record KnowledgeChunk : Type 0 where
  pub id : String
  pub document_id : String
  pub version_id : String
  pub generation_id : String
  pub parent_id : Option String
  pub chunk_kind : ChunkKind
  pub title : String
  pub content : String
  pub token_count : ℕ
  pub lexical_text : String
  pub heading_path : List String
  pub page_number : Option ℕ
  pub block_start : Option ℕ
  pub block_end : Option ℕ
  pub embedding : Option (List Float)
  pub created_at : ℕ

-- `progress` is counted in hundredths.
pub record IngestionJob : Type 0 where
  pub id : String
  pub space_id : String
  pub document_id : String
  pub version_id : String
  pub space_build_id : Option String
  pub generation_id : Option String
  pub build_request_hash : Option String
  pub status : JobStatus
  pub stage : JobStage
  pub attempt : ℕ
  pub progress : ℕ
  pub error_code : Option String
  pub error_message : Option String
  pub retryable : Bool
  pub created_at : ℕ
  pub updated_at : ℕ

pub record IndexGeneration : Type 0 where
  pub id : String
  pub space_id : String
  pub status : GenerationStatus
  pub embedding_profile : String
  pub retrieval_profile : String
  pub identity_status : IdentityStatus
  pub build_spec : Option IndexBuildSpec
  pub created_at : ℕ
  pub activated_at : Option ℕ

pub record SpaceDocumentState : Type 0 where
  pub version_id : Option String
  pub status : DocumentStatus

pub record KnowledgeSpaceVersion : Type 0 where
  pub id : String
  pub space_id : String
  pub version_number : ℕ
  pub generation_id : Option String
  pub documents : Dict SpaceDocumentState
  pub note : String
  pub created_at : ℕ
  pub activated_at : Option ℕ
  pub deleted_at : Option ℕ

pub record SpaceBuild : Type 0 where
  pub id : String
  pub space_id : String
  pub base_version_id : String
  pub generation_id : String
  pub documents : Dict SpaceDocumentState
  pub job_ids : List String
  pub status : BuildStatus
  pub parser_version : String
  pub chunker_version : String
  pub build_request_hash : Option String
  pub note : String
  pub published_version_id : Option String
  pub created_at : ℕ
  pub updated_at : ℕ

-- The exceptions of the repository, and those of the embedding checks.
pub data KnowledgeError : Type 0 where
  value_error key_error embedding_error : String → KnowledgeError
