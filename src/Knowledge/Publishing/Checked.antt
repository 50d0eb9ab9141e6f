-- ===== src/Knowledge/Publishing/Checked.antt =====
-- What the checks of `publish_space_build` in memory_repository.py have read and found.
use atlas_flow_agent.Base.{
  String, ◌≡◌, subst, true, false, Option, none, some, List, map, arith, Outcome, ok, ◌>>◌,
  raise_if-eq-ok, >>=-eq-ok, nat_eq, string_eq, ◌>>=◌,
}
use atlas_flow_agent.Base.Dict.{lookup, values}
use atlas_flow_agent.Knowledge.Models.{
  KnowledgeSpace, DocumentVersion, IngestionJob, IndexGeneration, SpaceBuild, KnowledgeError,
  same_option_iff, option_eq, document_status_eq,
}
use atlas_flow_agent.Knowledge.BuildChecks.{
  validate_build_baseline, validate_build_targets, active_targets,
}
use atlas_flow_agent.Knowledge.BuildContents.{validate_build_chunks}
use atlas_flow_agent.Knowledge.Repository.{Repository, require, require_all, documents_of}
use atlas_flow_agent.Knowledge.Builds.{
  check_publish, check_space, check_staged, check_contents, is_called_off, version_ids,
}
use atlas_flow_agent.Knowledge.Repository.{found}

pub found-eq-ok : {V : Type 0} (k : String) (o : Option V) {v : V} → found k o ≡ ok v → o ≡ some v
found-eq-ok k none h = cc
found-eq-ok k (some w) h = cc

-- What `check_publish` has read and found, where it ends without an exception.
abbrev pub Publishable : SpaceBuild → Repository → KnowledgeSpace → IndexGeneration → Type 0
Publishable build r space generation =
    (lookup build.space_id r.spaces ≡ some space)
    × (space.active_build_id ≡ some build.id)
    × (is_called_off build.status ≡ false)
    × (validate_build_baseline space (lookup build.base_version_id r.space_versions) build
          (documents_of space.id r)
        ≡ ok tt)
    × (lookup build.generation_id r.generations ≡ some generation)
    × (vs : List DocumentVersion) × (js : List IngestionJob) × (require_all
          (version_ids (active_targets build.documents)) r.versions
        ≡ ok vs)
    × (require_all (map some build.job_ids) r.jobs ≡ ok js)
    × (validate_build_targets build generation vs js true ≡ ok tt)
    × (validate_build_chunks build (values r.chunks) ≡ ok tt)

pub check_publish-Publishable :
    (build : SpaceBuild) (r : Repository) (p : KnowledgeSpace × IndexGeneration)
    → check_publish build r ≡ ok p
    → Publishable build r p.0 p.1
unfolding check_publish
check_publish-Publishable build r p h =
    let (space, l, h1) = >>=-eq-ok (require build.space_id r.spaces) (check_space build r) h in
    let (t, h2) = raise_if-eq-ok _ _ (after_lock space) h1 in
    let (_, b, h3) = >>=-eq-ok (baseline space) (λ _. after_baseline space) h2 in
    let (generation, g, h4) =
      >>=-eq-ok (require build.generation_id r.generations) (check_staged build r space) h3 in
    let (vs, v, h5) =
      >>=-eq-ok (require_all (version_ids (active_targets build.documents)) r.versions)
        (after_versions space generation) h4 in
    let (js, j, h6) =
      >>=-eq-ok (require_all (map some build.job_ids) r.jobs)
        (check_contents build r space generation vs) h5 in
    let (_, w, h7) =
      >>=-eq-ok (validate_build_targets build generation vs js true) (λ _. last space generation)
        h6 in
    let (_, c, e) =
      >>=-eq-ok (validate_build_chunks build (values r.chunks)) (λ _. ok (space, generation)) h7 in
    let same : ◌≡◌ {A = KnowledgeSpace × IndexGeneration} (space, generation) p = cc in
    subst (λ q. Publishable build r q.0 q.1) same
      (
        found-eq-ok build.space_id (lookup build.space_id r.spaces) l,
        (same_option_iff space.active_build_id (some build.id)).0 (ground arith),
        ground arith,
        b,
        found-eq-ok build.generation_id (lookup build.generation_id r.generations) g,
        vs,
        js,
        v,
        j,
        w,
        c,
      )
  where
    baseline : KnowledgeSpace → Outcome KnowledgeError (Unit {0})
    baseline space =
        validate_build_baseline space (lookup build.base_version_id r.space_versions) build
          (documents_of space.id r)

    after_baseline : KnowledgeSpace → Outcome KnowledgeError (KnowledgeSpace × IndexGeneration)
    after_baseline space = do
      generation ← require build.generation_id r.generations
      check_staged build r space generation

    after_lock : KnowledgeSpace → Outcome KnowledgeError (KnowledgeSpace × IndexGeneration)
    after_lock space = baseline space >> after_baseline space

    after_versions :
        KnowledgeSpace
        → IndexGeneration
        → List DocumentVersion
        → Outcome KnowledgeError (KnowledgeSpace × IndexGeneration)
    after_versions space generation vs = do
      js ← require_all (map some build.job_ids) r.jobs
      check_contents build r space generation vs js

    last :
        KnowledgeSpace → IndexGeneration → Outcome KnowledgeError (KnowledgeSpace × IndexGeneration)
    last space generation = do validate_build_chunks build (values r.chunks); ok (space, generation)
