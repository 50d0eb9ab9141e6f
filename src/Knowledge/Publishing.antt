-- ===== src/Knowledge/Publishing.antt =====
-- What publishing a build of a whole space does, once and again.
mod Checked
unfoldable pub use Checked.*
use atlas_flow_agent.Base.{
  ℕ, ◌≤◌, ◌<◌, String, ◌≡◌, refl, sym, ap, ◌∙◌, subst, inl, inr, true, false, Option, none, some,
  List, ◌∷◌, map, arith, Bool-cases, Outcome, ok, ◌>>◌, raise_if-eq-ok, >>=-eq-ok, ◌==◌, nat_eq,
  string_eq, ==_refl, is_blank, [], ◌>>=◌,
}
use atlas_flow_agent.Base.Dict.{Dict, lookup, insert, values, lookup-insert}
use atlas_flow_agent.Knowledge.Models.{
  GenerationStatus, KnowledgeSpace, DocumentVersion, IngestionJob, IndexGeneration,
  KnowledgeSpaceVersion, SpaceBuild, KnowledgeError, same_option_iff, option_eq, document_status_eq,
}
use atlas_flow_agent.Knowledge.BuildChecks.{
  validate_build_baseline, validate_build_targets, active_targets,
}
use atlas_flow_agent.Knowledge.BuildContents.{validate_build_chunks}
use atlas_flow_agent.Knowledge.Repository.{
  Repository, require, require_all, documents_of, next_number,
}
use atlas_flow_agent.Knowledge.Builds.{
  publish_space_build, check_publish, check_space, check_staged, check_contents, release, snapshot,
  publish_new, is_published, is_called_off, version_ids,
}
use atlas_flow_agent.Knowledge.Repository.{found, largest}

largest_bound :
    (space_id k : String) (versions : Dict KnowledgeSpaceVersion) (v : KnowledgeSpaceVersion)
    → lookup k versions ≡ some v
    → (v.space_id == space_id) ≡ true
    → v.version_number ≤ largest space_id versions
unfolding lookup
largest_bound space_id k [] v h t = cc
largest_bound space_id k ((j, w) ∷ d) v h t = elim (Bool-cases (j == k)) [
  | inl e ↦ let same : w ≡ v = ground arith in rw same (ground arith)
  | inr f ↦ ground (arith, largest_bound space_id k d v)
]

-- A new version's number is above those of the space's versions.
pub next_number_above :
    (space_id k : String) (versions : Dict KnowledgeSpaceVersion) (v : KnowledgeSpaceVersion)
    → lookup k versions ≡ some v
    → v.space_id ≡ space_id
    → v.version_number < next_number space_id versions
unfolding next_number
next_number_above space_id k versions v h e =
    omega (arith, largest_bound space_id k versions v h ((string_eq.same_iff _ _).1 e))

pub lookup-insert_self :
    {V : Type 0} (k : String) (v : V) (d : Dict V) → lookup k (insert k v d) ≡ some v
lookup-insert_self k v d = ground (arith, lookup-insert k k v d, ==_refl k)

-- What publishing has done when it returns.
abbrev pub Released : SpaceBuild → KnowledgeSpaceVersion → Repository → Repository → Type 0
Released build v before after =
    (space : KnowledgeSpace) × (generation : IndexGeneration) × Publishable build before space
      generation
    × (lookup v.id after.space_versions ≡ some v)
    × (v.documents ≡ build.documents)
    × (v.version_number ≡ next_number space.id before.space_versions)
    × ((s : KnowledgeSpace) × (lookup space.id after.spaces ≡ some s)
        × (s.active_version_id ≡ some v.id)
        × (s.active_generation_id ≡ some generation.id)
        × (s.active_build_id ≡ none))
    × ((b : SpaceBuild) × (lookup build.id after.space_builds ≡ some b)
        × (b.space_id ≡ build.space_id)
        × (is_published b.status ≡ true)
        × (b.published_version_id ≡ some v.id))
    × ((g : IndexGeneration) × (lookup generation.id after.generations ≡ some g)
        × (g.status ≡ GenerationStatus.active))

pub publish_new_parts :
    (fresh : String) (now : ℕ) (build : SpaceBuild) (r : Repository) (v : KnowledgeSpaceVersion)
    (r' : Repository)
    → publish_new fresh now build r ≡ ok (v, r')
    → (p : KnowledgeSpace × IndexGeneration) × Publishable build r p.0 p.1
      × (v ≡ snapshot fresh now p.0 build p.1 r)
      × (r' ≡ release fresh now p.0 build p.1 r)
publish_new_parts fresh now build r v r' h =
    let (p, c, e) = >>=-eq-ok (check_publish build r) (λ p. ok (made p)) h in
    let same : ◌≡◌ {A = KnowledgeSpaceVersion × Repository} (made p) (v, r') = cc in
    (p, check_publish-Publishable build r p c, sym (ap (λ x. x.0) same), sym (ap (λ x. x.1) same))
  where
    made : KnowledgeSpace × IndexGeneration → KnowledgeSpaceVersion × Repository
    made p = (snapshot fresh now p.0 build p.1 r, release fresh now p.0 build p.1 r)

released :
    (fresh : String) (now : ℕ) (build : SpaceBuild) (r : Repository) (space : KnowledgeSpace)
    (generation : IndexGeneration)
    → Publishable build r space generation
    → Released build
        (snapshot fresh now space build generation r)
        r
        (release fresh now space build generation r)
unfolding release
released fresh now build r space generation p = (
  space,
  generation,
  p,
  lookup-insert_self fresh _ r.space_versions,
  refl,
  refl,
  (_, lookup-insert_self space.id _ r.spaces, refl, refl, refl),
  (_, lookup-insert_self build.id _ r.space_builds, refl, refl, refl),
  (_, lookup-insert_self generation.id _ _, refl),
)

pub publish_of_new :
    (fresh : String) (now : ℕ) (build_id : String) (build : SpaceBuild) (r : Repository)
    → lookup build_id r.space_builds ≡ some build
    → is_published build.status ≡ false
    → publish_space_build fresh now build_id r ≡ publish_new fresh now build r
unfolding publish_space_build
publish_of_new fresh now build_id build r l n = rw l (ground arith)

-- What a first publication that returned has read, checked and assigned.
pub publish_space_build-Released :
    (fresh : String) (now : ℕ) (build_id : String) (build : SpaceBuild) (r : Repository)
    (v : KnowledgeSpaceVersion) (r' : Repository)
    → lookup build_id r.space_builds ≡ some build
    → is_published build.status ≡ false
    → publish_space_build fresh now build_id r ≡ ok (v, r')
    → Released build v r r'
publish_space_build-Released fresh now build_id build r v r' l n h =
    let (p, c, e, e') =
      publish_new_parts fresh now build r v r'
        (sym (publish_of_new fresh now build_id build r l n) ∙ h) in
    subst (λ w. Released build w r r') (sym e)
      (subst (Released build (snapshot fresh now p.0 build p.1 r) r) (sym e')
        (released fresh now build r p.0 p.1 c))

publish_of_released :
    (fresh : String) (now : ℕ) (build_id : String) (b : SpaceBuild) (v : KnowledgeSpaceVersion)
    (r : Repository)
    → lookup build_id r.space_builds ≡ some b
    → is_published b.status ≡ true
    → b.published_version_id ≡ some v.id
    → is_blank v.id ≡ false
    → lookup v.id r.space_versions ≡ some v
    → publish_space_build fresh now build_id r ≡ ok (v, r)
unfolding publish_space_build
publish_of_released fresh now build_id b v r l t p n k = rw l (rw t (rw p (rw n (rw k refl))))

-- Publishing the same build once more, under whatever id and time, returns the version that the first
-- publication made and changes nothing, where the build is filed under its id and the drawn id is not empty.
pub publish_space_build_again :
    (fresh fresh' : String) (now now' : ℕ) (build : SpaceBuild) (r : Repository)
    (v : KnowledgeSpaceVersion) (r' : Repository)
    → lookup build.id r.space_builds ≡ some build
    → is_published build.status ≡ false
    → is_blank v.id ≡ false
    → publish_space_build fresh now build.id r ≡ ok (v, r')
    → publish_space_build fresh' now' build.id r' ≡ ok (v, r')
publish_space_build_again fresh fresh' now now' build r v r' l n q h =
    let (space, generation, p, k, d, m, s, (b, lb, o, t, w), g) =
      publish_space_build-Released fresh now build.id build r v r' l n h in
    publish_of_released fresh' now' build.id b v r' lb t w q k
