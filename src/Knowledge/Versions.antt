-- ===== src/Knowledge/Versions.antt =====
-- The versions of a space in memory_repository.py: a whole-space manifest is saved, noted, deleted and
-- made current again.
use atlas_flow_agent.Base.{
  ℕ, String, Bool, true, false, not, ◌&&◌, ◌||◌, Option, none, some, List, map, ltb, if◌then◌else◌,
  is_some, Outcome, ok, raise, raise_if, ◌==◌, nat_eq, string_eq, subset, keep, ◌>>=◌, ◌>>◌,
}
use atlas_flow_agent.Base.Dict.{Dict, lookup, insert, map_values, values}
use atlas_flow_agent.Base.Sorting.{sort_by}
use atlas_flow_agent.Knowledge.Models.{
  DocumentStatus, GenerationStatus, KnowledgeSpace, KnowledgeDocument, IndexGeneration,
  SpaceDocumentState, KnowledgeSpaceVersion, KnowledgeError, value_error, key_error, option_eq,
  document_status_eq,
}
use atlas_flow_agent.Knowledge.BuildChecks.{keys, same_documents, current_states, ensure_no_build}
use atlas_flow_agent.Knowledge.Repository.{
  Repository, require, documents_of, has_busy_jobs, next_number, stale,
}

unfoldable pub create_space_version :
    ℕ
    → KnowledgeSpaceVersion
    → Repository
    → Outcome KnowledgeError (KnowledgeSpaceVersion × Repository)
create_space_version now version r = do
  space ← require version.space_id r.spaces
  ensure_no_build space
  raise_if
      (not (same_documents (current_states (documents_of space.id r)) version.documents)
        || not (space.active_generation_id == version.generation_id))
      (value_error "space changed while its version was being saved; retry")
  raise_if (has_busy_jobs space.id r) (value_error stale)
  ok (saved space, store space)
  where
    saved : KnowledgeSpace → KnowledgeSpaceVersion
    saved space = record version { version_number = next_number space.id r.space_versions }

    store : KnowledgeSpace → Repository
    store space = record r {
      space_versions = insert version.id (saved space) r.space_versions;
      spaces =
          insert space.id (record space { active_version_id = some version.id; updated_at = now })
            r.spaces;
    }

-- `latest.deleted_at is not None` and the like: the version is there, of the space, and not deleted.
abbrev pub is_live : String → KnowledgeSpaceVersion → Bool
is_live space_id v = v.space_id == space_id && not (is_some v.deleted_at)

abbrev pub live :
    String → String → Option KnowledgeSpaceVersion → Outcome KnowledgeError KnowledgeSpaceVersion
live version_id space_id none = raise (key_error version_id)
live version_id space_id (some v) =
    if is_live space_id v then ok v else raise (key_error version_id)

unfoldable pub update_space_version :
    KnowledgeSpaceVersion → Repository → Outcome KnowledgeError (KnowledgeSpaceVersion × Repository)
update_space_version version r = do
  latest ← live version.id version.space_id (lookup version.id r.space_versions)
  ok (
    record latest { note = version.note },
    record r {
      space_versions = insert version.id (record latest { note = version.note }) r.space_versions;
    },
  )

unfoldable pub list_space_versions : String → Repository → List KnowledgeSpaceVersion
unfolding keep sort_by
list_space_versions space_id r =
    sort_by (λ x y. ltb x.version_number y.version_number)
      (keep (is_live space_id) (values r.space_versions))

abbrev pub of_space :
    String → String → Option KnowledgeSpaceVersion → Outcome KnowledgeError KnowledgeSpaceVersion
of_space version_id space_id none = raise (key_error version_id)
of_space version_id space_id (some v) =
    if v.space_id == space_id then ok v else raise (key_error version_id)

abbrev pub mark_deleted :
    ℕ
    → KnowledgeSpace
    → KnowledgeSpaceVersion
    → Repository
    → Outcome KnowledgeError (KnowledgeSpaceVersion × Repository)
mark_deleted now space version r = do
  ensure_no_build space
  raise_if (has_busy_jobs space.id r) (value_error stale)
  ok (
    record version { deleted_at = some now },
    record r {
      space_versions =
          insert version.id (record version { deleted_at = some now }) r.space_versions;
    },
  )

unfoldable pub delete_space_version :
    ℕ → String → String → Repository → Outcome KnowledgeError (KnowledgeSpaceVersion × Repository)
delete_space_version now space_id version_id r = do
  space ← require space_id r.spaces
  version ← of_space version_id space.id (lookup version_id r.space_versions)
  raise_if (space.active_version_id == some version.id)
      (value_error "current space version cannot be deleted; activate another version first")
  if is_some version.deleted_at then ok (version, r) else mark_deleted now space version r

-- A document as the version has it: archived where the version does not name it.
abbrev pub restore : ℕ → KnowledgeDocument → Option SpaceDocumentState → KnowledgeDocument
restore now doc none = record doc { status = DocumentStatus.archived; updated_at = now }
restore now doc (some state) = record doc {
  current_version_id = state.version_id;
  status = state.status;
  updated_at = now;
}

unfoldable pub restore_documents :
    ℕ → KnowledgeSpaceVersion → String → Dict KnowledgeDocument → Dict KnowledgeDocument
unfolding lookup map_values
restore_documents now version space_id documents =
    map_values
      (λ doc.
        if doc.space_id == space_id then restore now doc (lookup doc.id version.documents) else doc)
      documents

abbrev pub is_active_generation : GenerationStatus → Bool
is_active_generation GenerationStatus.active = true
is_active_generation _ = false

abbrev pub is_retired : GenerationStatus → Bool
is_retired GenerationStatus.retired = true
is_retired _ = false

abbrev pub switch_generation :
    ℕ → KnowledgeSpaceVersion → String → IndexGeneration → IndexGeneration
switch_generation now version space_id item =
    if not (item.space_id == space_id)
    then item
    else if some item.id == version.generation_id
    then record item { status = GenerationStatus.active; activated_at = some now }
    else if is_active_generation item.status
    then record item { status = GenerationStatus.retired }
    else item

-- What `activate_space_version` assigns after its checks
unfoldable pub install_version :
    ℕ → KnowledgeSpace → KnowledgeSpaceVersion → Repository → KnowledgeSpace × Repository
unfolding map_values insert restore_documents
install_version now space version r = (
  updated,
  record r {
    documents = restore_documents now version space.id r.documents;
    generations = map_values (switch_generation now version space.id) r.generations;
    spaces = insert space.id updated r.spaces;
    space_versions =
        insert version.id (record version { activated_at = some now }) r.space_versions;
  },
)
  where
    updated : KnowledgeSpace
    updated = record space {
      active_generation_id = version.generation_id;
      active_version_id = some version.id;
      updated_at = now;
    }

unfoldable pub activate_space_version :
    ℕ → KnowledgeSpaceVersion → Repository → Outcome KnowledgeError (KnowledgeSpace × Repository)
unfolding documents_of install_version
activate_space_version now version r = do
  space ← require version.space_id r.spaces
  latest ← live version.id space.id (lookup version.id r.space_versions)
  ensure_no_build space
  raise_if (has_busy_jobs space.id r) (value_error stale)
  raise_if (not (subset (keys latest.documents) (map (λ doc. doc.id) (documents_of space.id r))))
      (value_error "space version references a removed document")
  ok (install_version now space latest r)
