-- ===== src/Knowledge/Repository.antt =====
-- The state of backend/src/atlasflow/knowledge/infrastructure/memory_repository.py and its operations
-- on spaces and documents. An operation takes the time it reads and returns its result and the new
-- state; an exception leaves the state as it was.
use atlas_flow_agent.Base.{
  ℕ, ◌+◌, max, String, Bool, true, false, not, ◌&&◌, ◌||◌, Option, none, some, List, ◌∷◌, ltb,
  if◌then◌else◌, is_some, Outcome, ok, raise, raise_if, ◌==◌, nat_eq, string_eq, any, keep, [],
  ◌>>=◌, ◌>>◌,
}
use atlas_flow_agent.Base.Dict.{keep_values, without, Dict, lookup, insert, values}
use atlas_flow_agent.Base.Sorting.{sort_by}
use atlas_flow_agent.Knowledge.Models.{
  JobStatus, KnowledgeSpace, KnowledgeDocument, DocumentVersion, KnowledgeChunk, IngestionJob,
  IndexGeneration, KnowledgeSpaceVersion, SpaceBuild, KnowledgeError, value_error, key_error,
  truthy, option_eq, document_status_eq,
}
use atlas_flow_agent.Knowledge.BuildChecks.{ensure_no_build}

pub record Repository : Type 0 where
  pub spaces : Dict KnowledgeSpace
  pub space_versions : Dict KnowledgeSpaceVersion
  pub space_builds : Dict SpaceBuild
  pub documents : Dict KnowledgeDocument
  pub versions : Dict DocumentVersion
  pub generations : Dict IndexGeneration
  pub chunks : Dict KnowledgeChunk
  pub jobs : Dict IngestionJob

-- `d[k]`, given `d.get(k)`
abbrev pub found : {V : Type 0} → String → Option V → Outcome KnowledgeError V
found k none = raise (key_error k)
found k (some v) = ok v

abbrev pub require : {V : Type 0} → String → Dict V → Outcome KnowledgeError V
require k d = found k (lookup k d)

-- `d[k]` under a key that may be `None`
abbrev pub require_option : {V : Type 0} → Option String → Dict V → Outcome KnowledgeError V
require_option none d = raise (key_error "None")
require_option (some k) d = require k d

-- `[d[k] for k in ks]`
unfoldable pub require_all :
    {V : Type 0} → List (Option String) → Dict V → Outcome KnowledgeError (List V)
require_all [] d = ok []
require_all (k ∷ ks) d =
    let rest = require_all ks d in (do v ← require_option k d; vs ← rest; ok (v ∷ vs))

unfoldable pub documents_of : String → Repository → List KnowledgeDocument
unfolding keep
documents_of space_id r = keep (λ doc. doc.space_id == space_id) (values r.documents)

-- `BUSY_JOB_STATUSES`
abbrev pub is_busy : JobStatus → Bool
is_busy JobStatus.queued = true
is_busy JobStatus.running = true
is_busy JobStatus.failed_retryable = true
is_busy _ = false

unfoldable pub has_busy_jobs : String → Repository → Bool
unfolding any
has_busy_jobs space_id r =
    any (λ job. job.space_id == space_id && is_busy job.status) (values r.jobs)

abbrev pub stale : String
stale = "space has active ingestion jobs; wait until they finish"

abbrev pub largest : String → Dict KnowledgeSpaceVersion → ℕ
largest space_id [] = 0
largest space_id ((k, v) ∷ d) =
    let rest = largest space_id d in
    if v.space_id == space_id then max v.version_number rest else rest

-- `max(…, default=0) + 1`
unfoldable pub next_number : String → Dict KnowledgeSpaceVersion → ℕ
next_number space_id versions = largest space_id versions + 1

unfoldable pub create_space :
    KnowledgeSpace → Repository → Outcome KnowledgeError (KnowledgeSpace × Repository)
unfolding any
create_space space r = do
  raise_if (any (λ item. item.slug == space.slug) (values r.spaces))
      (value_error "knowledge space already exists")
  ok (space, record r { spaces = insert space.id space r.spaces })

abbrev pub find_slug : String → List KnowledgeSpace → Option KnowledgeSpace
find_slug slug [] = none
find_slug slug (s ∷ ss) = let rest = find_slug slug ss in if s.slug == slug then some s else rest

abbrev pub or_else : {V : Type 0} → Option V → Option V → Option V
or_else none other = other
or_else (some v) other = some v

unfoldable pub get_space : String → Repository → Option KnowledgeSpace
unfolding lookup
get_space space_id_or_slug r =
    or_else (lookup space_id_or_slug r.spaces) (find_slug space_id_or_slug (values r.spaces))

unfoldable pub list_spaces : Repository → List KnowledgeSpace
unfolding sort_by
list_spaces r = sort_by (λ x y. ltb x.created_at y.created_at) (values r.spaces)

unfoldable pub update_space :
    KnowledgeSpace → Repository → Outcome KnowledgeError (KnowledgeSpace × Repository)
update_space space r = do
  existing ← require space.id r.spaces
  raise_if (truthy existing.active_build_id || truthy space.active_build_id)
      (value_error "space build pointers are managed by the build transaction")
  ok (space, record r { spaces = insert space.id space r.spaces })

abbrev pub unversion : ℕ → KnowledgeSpace → Repository → Repository
unversion now space r =
    if is_some space.active_version_id
    then record r {
      spaces =
          insert space.id (record space { active_version_id = none; updated_at = now }) r.spaces;
    }
    else r

-- `_mark_space_unversioned`
unfoldable pub mark_space_unversioned : ℕ → String → Repository → Outcome KnowledgeError Repository
mark_space_unversioned now space_id r = do
  space ← require space_id r.spaces
  ok (unversion now space r)

unfoldable pub find_document : String → String → Repository → Option KnowledgeDocument
find_document space_id source_id r = first_match (values r.documents)
  where
    first_match : List KnowledgeDocument → Option KnowledgeDocument
    first_match [] = none
    first_match (d ∷ ds) =
        let rest = first_match ds in
        if d.space_id == space_id && d.source_id == source_id then some d else rest

unfoldable pub list_documents : String → Repository → List KnowledgeDocument
unfolding sort_by documents_of
list_documents space_id r = sort_by (λ x y. ltb x.created_at y.created_at) (documents_of space_id r)

unfoldable pub create_document :
    ℕ → KnowledgeDocument → Repository → Outcome KnowledgeError (KnowledgeDocument × Repository)
create_document now document r = do
  space ← require document.space_id r.spaces
  ensure_no_build space
  raise_if (is_some (find_document document.space_id document.source_id r))
      (value_error "document source already exists")
  after ←
      mark_space_unversioned now document.space_id
        (record r { documents = insert document.id document r.documents })
  ok (document, after)

abbrev pub moves : Option KnowledgeDocument → String → Bool
moves none space_id = false
moves (some previous) space_id = not (previous.space_id == space_id)

unfoldable pub update_document :
    ℕ → KnowledgeDocument → Repository → Outcome KnowledgeError (KnowledgeDocument × Repository)
update_document now document r = do
  space ← require document.space_id r.spaces
  ensure_no_build space
  raise_if (moves (lookup document.id r.documents) document.space_id)
      (value_error "a document cannot move between spaces")
  after ←
      mark_space_unversioned now document.space_id
        (record r { documents = insert document.id document r.documents })
  ok (document, after)

abbrev pub cleared : String → Repository → Repository
cleared document_id r = record r {
  chunks = keep_values (λ c. not (c.document_id == document_id)) r.chunks;
  jobs = keep_values (λ j. not (j.document_id == document_id)) r.jobs;
  versions = keep_values (λ v. not (v.document_id == document_id)) r.versions;
  documents = without document_id r.documents;
}

abbrev pub unversion_of :
    ℕ → Option KnowledgeDocument → Repository → Outcome KnowledgeError Repository
unversion_of now none r = ok r
unversion_of now (some document) r = mark_space_unversioned now document.space_id r

abbrev pub allow_purge : Option KnowledgeDocument → Repository → Outcome KnowledgeError (Unit {0})
allow_purge none r = ok tt
allow_purge (some document) r = do space ← require document.space_id r.spaces; ensure_no_build space

-- `purge_document` and `_purge_document`. Versions are filed under their ids, so those of the
-- document are the ones whose key is among its versions' ids.
unfoldable pub purge_document : ℕ → String → Repository → Outcome KnowledgeError Repository
purge_document now document_id r = do
  allow_purge (lookup document_id r.documents) r
  unversion_of now (lookup document_id r.documents) (cleared document_id r)
