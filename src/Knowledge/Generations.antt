-- ===== src/Knowledge/Generations.antt =====
-- Index generations and chunks in memory_repository.py: the first one is bound, a specification is
-- sealed, one becomes active, and the chunks of a version are replaced.
use atlas_flow_agent.Base.{
  ℕ, String, Bool, true, false, not, ◌&&◌, ◌||◌, Option, none, some, List, ◌∷◌, eqb, if◌then◌else◌,
  is_some, Outcome, ok, raise, raise_if, for_each, ◌==◌, nat_eq, string_eq, [], ◌>>=◌, ◌>>◌,
}
use atlas_flow_agent.Base.Dict.{keep_values, Dict, lookup, insert, map_values}
use atlas_flow_agent.Knowledge.Models.{
  GenerationStatus, IdentityStatus, KnowledgeSpace, DocumentVersion, KnowledgeChunk,
  IndexGeneration, IndexBuildSpec, EmbeddingSpec, KnowledgeError, value_error, truthy, Float,
  option_eq, document_status_eq,
}
use atlas_flow_agent.Knowledge.BuildChecks.{collect, ensure_no_build, has_hash}
use atlas_flow_agent.Knowledge.BuildContents.{validate_vectors, is_parent}
use atlas_flow_agent.Knowledge.Repository.{Repository, require, require_option}
use atlas_flow_agent.Knowledge.Versions.{is_retired}
use atlas_flow_agent.Knowledge.Builds.{retire_in, activated}

-- What `bind_ingestion_generation` assigns where the space has no generation yet
abbrev pub bind_first : ℕ → String → KnowledgeSpace → IndexGeneration → Repository → Repository
bind_first now space_id space candidate r = record r {
  generations = insert candidate.id (activated now candidate) r.generations;
  spaces =
      insert space_id
        (record space {
          active_generation_id = some candidate.id;
          active_version_id = none;
          updated_at = now;
        })
        r.spaces;
}

abbrev pub bind_candidate :
    ℕ
    → String
    → KnowledgeSpace
    → IndexGeneration
    → Repository
    → Outcome KnowledgeError (IndexGeneration × Repository)
bind_candidate now space_id space candidate r = do
  raise_if (not (candidate.space_id == space_id) || not (is_some candidate.build_spec))
      (value_error "invalid initial index generation")
  ok (activated now candidate, bind_first now space_id space candidate r)

abbrev pub bound_already :
    KnowledgeSpace → Repository → Outcome KnowledgeError (IndexGeneration × Repository)
bound_already space r = do
  generation ← require_option space.active_generation_id r.generations
  ok (generation, r)

unfoldable pub bind_ingestion_generation :
    ℕ
    → String
    → IndexGeneration
    → Repository
    → Outcome KnowledgeError (IndexGeneration × Repository)
bind_ingestion_generation now space_id candidate r = do
  space ← require space_id r.spaces
  ensure_no_build space
  (if truthy space.active_generation_id
      then bound_already space r
      else bind_candidate now space_id space candidate r)

abbrev pub is_declared : IdentityStatus → Bool
is_declared IdentityStatus.declared = true
is_declared _ = false

-- `value not in {None, n}`
abbrev pub is_other : Option ℕ → ℕ → Bool
is_other none n = false
is_other (some m) n = not (eqb m n)

-- `spec`, after the first test of `confirm_generation_spec`
abbrev pub confirmed_spec :
    String → GenerationStatus → Option IndexBuildSpec → Outcome KnowledgeError IndexBuildSpec
confirmed_spec request_hash status none =
    raise (value_error "INDEX_SPEC_MISMATCH: generation request identity changed")
confirmed_spec request_hash status (some spec) = do
  raise_if (not (spec.request_hash == request_hash) || is_retired status)
      (value_error "INDEX_SPEC_MISMATCH: generation request identity changed")
  ok spec

abbrev pub seal : ℕ → Option String → Bool → EmbeddingSpec → EmbeddingSpec
seal dimensions actual_model declared embedding = record embedding {
  observed_dimensions = some dimensions;
  actual_model = if declared then actual_model else embedding.actual_model;
}

-- `resolved` is the specification with the sealed embedding, and the hash of the new specification.
unfoldable pub confirm_generation_spec :
    (IndexBuildSpec → EmbeddingSpec → IndexBuildSpec)
    → String
    → String
    → ℕ
    → Option String
    → Repository
    → Outcome KnowledgeError (IndexGeneration × Repository)
confirm_generation_spec with_embedding generation_id request_hash dimensions actual_model r = do
  generation ← require generation_id r.generations
  spec ← confirmed_spec request_hash generation.status generation.build_spec
  raise_if (is_other spec.embedding.observed_dimensions dimensions)
      (value_error "EMBEDDING_DIMENSION_MISMATCH: generation dimension is already sealed")
  raise_if (is_other spec.embedding.requested_dimensions dimensions)
      (value_error "EMBEDDING_DIMENSION_MISMATCH: requested dimension differs")
  raise_if
      (truthy spec.embedding.actual_model
        && truthy actual_model
        && not (spec.embedding.actual_model == actual_model))
      (value_error "EMBEDDING_ACTUAL_MODEL_MISMATCH: generation model is already sealed")
  ok (
    confirmed generation spec,
    record r { generations = insert generation_id (confirmed generation spec) r.generations },
  )
  where
    confirmed : IndexGeneration → IndexBuildSpec → IndexGeneration
    confirmed generation spec = record generation {
      identity_status = IdentityStatus.verified;
      build_spec = some (
          with_embedding spec
            (seal dimensions actual_model (is_declared generation.identity_status) spec.embedding));
    }

-- `_activate_generation`, after it has read the generation and its space
unfoldable pub switch_to : ℕ → String → KnowledgeSpace → IndexGeneration → Repository → Repository
unfolding insert map_values
switch_to now generation_id space selected r = record r {
  generations =
      insert generation_id (activated now selected)
        (map_values (retire_in selected.space_id) r.generations);
  spaces =
      insert space.id
        (record space {
          active_generation_id = some generation_id;
          active_version_id = none;
          updated_at = now;
        })
        r.spaces;
}

-- `activate_generation`
unfoldable pub activate_generation :
    ℕ → String → Repository → Outcome KnowledgeError (IndexGeneration × Repository)
activate_generation now generation_id r = do
  selected ← require generation_id r.generations
  space ← require selected.space_id r.spaces
  ensure_no_build space
  ok (activated now selected, switch_to now generation_id space selected r)

abbrev pub vector_of : Option (List Float) → List Float
vector_of none = []
vector_of (some v) = v

abbrev pub observed : Option IndexBuildSpec → Option ℕ
observed none = none
observed (some spec) = spec.embedding.observed_dimensions

abbrev pub generation_hash : Option IndexGeneration → Option String → Bool
generation_hash none h = false
generation_hash (some g) h = has_hash g.build_spec h

abbrev pub dimensions_in : Option IndexGeneration → Option ℕ
dimensions_in none = none
dimensions_in (some g) = observed g.build_spec

-- The body of the loop of `replace_chunks`
unfoldable pub check_chunk :
    Option String → Dict IndexGeneration → KnowledgeChunk → Outcome KnowledgeError (Unit {0})
check_chunk request_hash generations chunk = do
  raise_if (not (generation_hash (lookup chunk.generation_id generations) request_hash))
      (value_error "INDEX_SPEC_MISMATCH: refusing to mix index identities")
  (if is_parent chunk.chunk_kind then ok tt else (do
    size ←
        validate_vectors (vector_of chunk.embedding ∷ []) 1
          (dimensions_in (lookup chunk.generation_id generations))
    ok tt))

abbrev pub check_chunks :
    Option DocumentVersion
    → Dict IndexGeneration
    → List KnowledgeChunk
    → Outcome KnowledgeError (Unit {0})
check_chunks none generations chunks = ok tt
check_chunks (some version) generations chunks =
    if truthy version.build_request_hash
    then for_each (check_chunk version.build_request_hash generations) chunks
    else ok tt

unfoldable pub replace_chunks :
    String → List KnowledgeChunk → Repository → Outcome KnowledgeError Repository
unfolding keep_values collect
replace_chunks version_id chunks r = do
  check_chunks (lookup version_id r.versions) r.generations chunks
  ok (record r {
    chunks =
        collect (λ c. c.id) (keep_values (λ c. not (c.version_id == version_id)) r.chunks) chunks;
  })
