-- ===== src/Knowledge/BuildContents.antt =====
-- The checks of build_validation.py on the sources and the chunks of a build, and `validate_vectors`
-- of backend/src/atlasflow/providers/embedding_registry.py.
use atlas_flow_agent.Base.{
  ℕ, String, Bool, true, false, not, ◌&&◌, ◌||◌, Option, none, some, List, ◌∷◌, ◌++◌, eqb,
  if◌then◌else◌, Outcome, ok, raise, raise_if, for_each, ◌==◌, nat_eq, string_eq, dedup, length,
  is_empty, all, keep, [], ◌>>=◌, ◌>>◌,
}
use atlas_flow_agent.Base.Dict.{Dict, lookup}
use atlas_flow_agent.Knowledge.Models.{
  ChunkKind, DocumentVersion, KnowledgeChunk, SpaceDocumentState, KnowledgeSpaceVersion, SpaceBuild,
  KnowledgeError, value_error, key_error, embedding_error, is_active, isfinite, Float, option_eq,
  document_status_eq,
}
use atlas_flow_agent.Knowledge.BuildChecks.{index_by, get_version}

abbrev pub same_bytes : DocumentVersion → DocumentVersion → Bool
same_bytes v w =
    v.content_hash == w.content_hash
    && v.blob_key == w.blob_key
    && v.mime_type == w.mime_type
    && eqb v.byte_size w.byte_size

unfoldable pub check_source :
    String → Option DocumentVersion → Option DocumentVersion → Outcome KnowledgeError (Unit {0})
check_source document_id (some original) (some target) = do
  raise_if (not (original.document_id == document_id))
      (value_error "space build source version no longer matches its baseline")
  raise_if (not (same_bytes original target))
      (value_error "space build source changed before staging; retry the whole space")
check_source document_id _ _ =
    raise (value_error "space build source version no longer matches its baseline")

-- `build.documents[document_id].version_id`, where the key is there
abbrev target_version :
    Dict DocumentVersion
    → Option SpaceDocumentState
    → Outcome KnowledgeError (Option DocumentVersion)
target_version versions none = raise (key_error "document_id")
target_version versions (some state) = ok (get_version versions state.version_id)

-- The body of the loop of `validate_build_sources`
unfoldable pub check_entry :
    SpaceBuild
    → Dict DocumentVersion
    → Dict DocumentVersion
    → String × SpaceDocumentState
    → Outcome KnowledgeError (Unit {0})
check_entry build originals targets (document_id, state) =
    if is_active state.status
    then (do
      target ← target_version targets (lookup document_id build.documents)
      check_source document_id (get_version originals state.version_id) target)
    else ok tt

unfoldable pub validate_build_sources :
    SpaceBuild
    → KnowledgeSpaceVersion
    → List DocumentVersion
    → List DocumentVersion
    → Outcome KnowledgeError (Unit {0})
validate_build_sources build base baseline_versions document_versions =
    for_each
      (check_entry build (index_by (λ v. v.id) baseline_versions)
        (index_by (λ v. v.id) document_versions))
      base.documents

abbrev pub is_parent : ChunkKind → Bool
is_parent ChunkKind.parent = true
is_parent ChunkKind.child = false

abbrev pub get_parent : Dict KnowledgeChunk → Option String → Option KnowledgeChunk
get_parent parents none = none
get_parent parents (some k) = lookup k parents

-- The chunk's parent belongs to the same document, version and generation.
abbrev pub parent_fits : SpaceBuild → String → SpaceDocumentState → Option KnowledgeChunk → Bool
parent_fits build document_id state none = false
parent_fits build document_id state (some p) =
    some p.version_id == state.version_id
    && p.document_id == document_id
    && p.generation_id == build.generation_id

-- `chunk.embedding` is there, is not empty and is finite.
abbrev pub is_embedded : Option (List Float) → Bool
is_embedded none = false
is_embedded (some vector) = not (is_empty vector) && all isfinite vector

-- The negation of the test that `any` makes on a child
unfoldable pub is_complete_child :
    SpaceBuild → Dict KnowledgeChunk → String → SpaceDocumentState → KnowledgeChunk → Bool
unfolding all
is_complete_child build parents document_id state chunk =
    chunk.document_id == document_id
    && chunk.generation_id == build.generation_id
    && is_embedded chunk.embedding
    && parent_fits build document_id state (get_parent parents chunk.parent_id)

abbrev pub children_of : SpaceDocumentState → List KnowledgeChunk → List KnowledgeChunk
children_of state chunks =
    keep (λ c. some c.version_id == state.version_id && not (is_parent c.chunk_kind)) chunks

unfoldable pub check_children :
    SpaceBuild
    → Dict KnowledgeChunk
    → List KnowledgeChunk
    → String × SpaceDocumentState
    → Outcome KnowledgeError (Unit {0})
unfolding keep all
check_children build parents chunks (document_id, state) =
    if is_active state.status
    then raise_if
        (is_empty (children_of state chunks)
          || not
              (all (is_complete_child build parents document_id state) (children_of state chunks)))
        (value_error "space build contains an incomplete child index")
    else ok tt

abbrev pub sizes : List KnowledgeChunk → List ℕ
sizes [] = []
sizes (c ∷ cs) = elim (c.embedding) [ none ↦ sizes cs | some vector ↦ length vector ∷ sizes cs ]

-- What the loop adds to `dimensions`
unfoldable pub dimensions_of : List KnowledgeChunk → Dict SpaceDocumentState → List ℕ
unfolding keep
dimensions_of chunks [] = []
dimensions_of chunks ((k, state) ∷ d) =
    let rest = dimensions_of chunks d in
    if is_active state.status then sizes (children_of state chunks) ++ rest else rest

unfoldable pub validate_build_chunks :
    SpaceBuild → List KnowledgeChunk → Outcome KnowledgeError (Unit {0})
unfolding keep
validate_build_chunks build chunks = do
  for_each
      (check_children build (index_by (λ c. c.id) (keep (λ c. is_parent c.chunk_kind) chunks))
        chunks)
      build.documents
  raise_if (not (eqb (length (dedup (dimensions_of chunks build.documents))) 1))
      (value_error "space build embedding dimensions are inconsistent")

-- `sizes` of `validate_vectors`, after a check of each vector
unfoldable pub vector_sizes : List (List Float) → Outcome KnowledgeError (List ℕ)
unfolding all
vector_sizes [] = ok []
vector_sizes (v ∷ vs) =
    let rest = vector_sizes vs in
    (do
      raise_if (is_empty v || not (all isfinite v))
          (embedding_error "EMBEDDING_INVALID: vectors must be finite numeric lists")
      found ← rest
      ok (length v ∷ found))

abbrev pub differs_from : Option ℕ → List ℕ → Bool
differs_from none found = false
differs_from (some n) found = not (all (eqb n) found)

abbrev first_of : List ℕ → ℕ
first_of [] = 0
first_of (n ∷ ns) = n

-- `validate_vectors`, on lists of binary64 numbers. What it returns is the one size there is.
unfoldable pub validate_vectors : List (List Float) → ℕ → Option ℕ → Outcome KnowledgeError ℕ
unfolding dedup all
validate_vectors vectors count dimensions = do
  raise_if (not (eqb (length vectors) count) || is_empty vectors)
      (embedding_error "EMBEDDING_INVALID: unexpected vector count")
  found ← vector_sizes vectors
  raise_if (not (eqb (length (dedup found)) 1) || differs_from dimensions found)
      (embedding_error "EMBEDDING_DIMENSION_MISMATCH: index and returned dimensions differ")
  ok (first_of found)
