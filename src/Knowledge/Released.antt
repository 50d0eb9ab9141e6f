-- ===== src/Knowledge/Released.antt =====
-- What the first publication of a build in
-- backend/src/atlasflow/knowledge/infrastructure/memory_repository.py finds and leaves behind.
mod Moved
unfoldable pub use Moved.*
use atlas_flow_agent.Base.{
  ℕ, ◌<◌, String, ◌≡◌, refl, sym, ◌∙◌, subst, ◌⊎◌, inl, inr, true, false, Option, none, some, List,
  ◌∷◌, map, arith, Bool-cases, ok, All, All-map, for_each, for_each-eq-ok, ◌==◌, nat_eq, string_eq,
  eq_cases, contains, distinct, [],
}
use atlas_flow_agent.Base.Dict.{Dict, lookup, adjust, lookup-insert, lookup-adjust_self}
use atlas_flow_agent.Knowledge.Models.{
  GenerationStatus, KnowledgeSpace, KnowledgeDocument, DocumentVersion, IngestionJob,
  IndexGeneration, SpaceDocumentState, KnowledgeSpaceVersion, SpaceBuild, same_option_iff,
  option_eq, document_status_eq, is_active,
}
use atlas_flow_agent.Knowledge.BuildChecks.{
  active_targets, keys, baseline_changed, check_target, validate_build_baseline,
}
use atlas_flow_agent.Knowledge.Repository.{Repository, require_all}
use atlas_flow_agent.Knowledge.Builds.{
  version_ids, publish_space_build, release, release_documents, snapshot, is_published,
}
use atlas_flow_agent.Knowledge.Targets.{TargetsFit, validate_build_targets-TargetsFit}
use atlas_flow_agent.Knowledge.Publishing.{
  Publishable, publish_new_parts, publish_of_new, next_number_above, lookup-insert_self,
}

module _ (build : SpaceBuild) (v : KnowledgeSpaceVersion) (before after : Repository) where
  -- What the publication has found.
  abbrev pub Found : KnowledgeSpace → IndexGeneration → Type 0
  Found space generation =
      (lookup build.space_id before.spaces ≡ some space)
      × (space.active_build_id ≡ some build.id)
      × (lookup build.generation_id before.generations ≡ some generation)
      × StandsOn build space (lookup build.base_version_id before.space_versions)
      × (vs : List DocumentVersion) × (js : List IngestionJob) × (require_all
            (version_ids (active_targets build.documents)) before.versions
          ≡ ok vs)
      × (require_all (map some build.job_ids) before.jobs ≡ ok js)
      × TargetsFit build generation vs js true

  -- The new version is the latest of its space, and the earlier ones are still there.
  abbrev pub IsLatest : KnowledgeSpace → IndexGeneration → Type 0
  IsLatest space generation =
      (lookup v.id after.space_versions ≡ some v)
      × (v.space_id ≡ space.id)
      × (v.generation_id ≡ some generation.id)
      × (v.documents ≡ build.documents)
      × ((k : String) (w : KnowledgeSpaceVersion)
          → lookup k before.space_versions ≡ some w
          → w.space_id ≡ space.id
          → w.version_number < v.version_number)
      × ((k : String)
          → (v.id == k) ≡ false
          → lookup k after.space_versions ≡ lookup k before.space_versions)

  -- The space, the generation and the build afterwards.
  abbrev pub IsUnlocked : KnowledgeSpace → IndexGeneration → Type 0
  IsUnlocked space generation =
      ((s : KnowledgeSpace) × (lookup space.id after.spaces ≡ some s)
        × (s.active_version_id ≡ some v.id)
        × (s.active_generation_id ≡ some generation.id)
        × (s.active_build_id ≡ none))
      × ((g : IndexGeneration) × (lookup generation.id after.generations ≡ some g)
          × (g.status ≡ GenerationStatus.active))
      × ((b : SpaceBuild) × (lookup build.id after.space_builds ≡ some b)
          × (is_published b.status ≡ true)
          × (b.published_version_id ≡ some v.id))

  -- The documents of the build are in its states, the others as before.
  abbrev pub DocumentsMoved : ℕ → Type 0
  DocumentsMoved now =
      ((k : String) (state : SpaceDocumentState) (doc : KnowledgeDocument)
        → lookup k build.documents ≡ some state
        → lookup k before.documents ≡ some doc
        → lookup k after.documents ≡ some (moved now state doc))
      × ((k : String)
          → contains (keys build.documents) k ≡ false
          → lookup k after.documents ≡ lookup k before.documents)

  abbrev pub Published : ℕ → Type 0
  Published now =
      (space : KnowledgeSpace) × (generation : IndexGeneration) × Found space generation
      × IsLatest space generation
      × IsUnlocked space generation
      × DocumentsMoved now

released-Published :
    (fresh : String) (now : ℕ) (build : SpaceBuild) (r : Repository) (space : KnowledgeSpace)
    (generation : IndexGeneration)
    → distinct (keys build.documents) ≡ true
    → Publishable build r space generation
    → Published build
        (snapshot fresh now space build generation r)
        r
        (release fresh now space build generation r)
        now
unfolding release
released-Published fresh now build r space generation unique
      (ls, lock, nc, base, lg, vs, js, rv, rj, targets, chunks) =
    (
      space,
      generation,
      (
        ls,
        lock,
        lg,
        baseline-StandsOn space _ build _ base,
        vs,
        js,
        rv,
        rj,
        validate_build_targets-TargetsFit build generation vs js true targets,
      ),
      (
        lookup-insert_self fresh _ r.space_versions,
        refl,
        refl,
        refl,
        (λ k w l e. next_number_above space.id k r.space_versions w l e),
        (λ k n. lookup-insert fresh k _ r.space_versions ∙ rw n refl),
      ),
      (
        (_, lookup-insert_self space.id _ r.spaces, refl, refl, refl),
        (_, lookup-insert_self generation.id _ _, refl),
        (_, lookup-insert_self build.id _ r.space_builds, refl, refl),
      ),
      (
        (λ k state doc l m.
            release_documents-moved now k state doc build.documents r.documents unique l m),
        (λ k n. release_documents-other now k build.documents r.documents n),
      ),
    )

-- Take a build that is not yet published, with one state for each of its documents, and whose
-- publication returns. Then the build had locked its space; it stands on the space's active version and
-- generation, of which it has every document, each active one with another version; and its generation,
-- stored document versions and its stored jobs fit it (`TargetsFit`). After it the returned version is stored, has the
-- build's documents and generation and a greater number than every earlier version of the space, and
-- all other versions are as before; the space points at it and at the generation, which is active, and
-- is unlocked; the build is marked as published under it; each stored document that the build names is
-- in the state that the build has for it, and every other document is as before.
pub publish_space_build-Published :
    (fresh : String) (now : ℕ) (build_id : String) (build : SpaceBuild) (r : Repository)
    (v : KnowledgeSpaceVersion) (r' : Repository)
    → lookup build_id r.space_builds ≡ some build
    → is_published build.status ≡ false
    → distinct (keys build.documents) ≡ true
    → publish_space_build fresh now build_id r ≡ ok (v, r')
    → Published build v r r' now
publish_space_build-Published fresh now build_id build r v r' l n unique h =
    let (p, c, e, e') =
      publish_new_parts fresh now build r v r'
        (sym (publish_of_new fresh now build_id build r l n) ∙ h) in
    subst (λ w. Published build w r r' now) (sym e)
      (subst (λ q. Published build (snapshot fresh now p.0 build p.1 r) r q now) (sym e')
        (released-Published fresh now build r p.0 p.1 unique c))
