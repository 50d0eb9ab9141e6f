-- ===== src/Knowledge/Locking/Effects.antt =====
-- What the operations of memory_repository.py on the documents, the versions and the generations of a
-- space do to the spaces, where they return.
mod Documents
unfoldable pub use Documents.*
use atlas_flow_agent.Base.{
  ℕ, String, ◌≡◌, refl, sym, ap, subst, ◌⊎◌, inl, inr, false, Option, none, some, List, arith,
  Bool-cases, ok, nat_eq, string_eq, is_some,
}
use atlas_flow_agent.Base.Dict.{Dict, lookup, insert}
use atlas_flow_agent.Knowledge.Models.{
  KnowledgeSpace, KnowledgeDocument, DocumentVersion, IngestionJob, IndexGeneration,
  KnowledgeSpaceVersion, SpaceBuild, truthy, option_eq, document_status_eq,
}
use atlas_flow_agent.Knowledge.BuildChecks.{ensure_no_build}
use atlas_flow_agent.Knowledge.Repository.{
  Repository, unversion, mark_space_unversioned, create_document, update_document, cleared,
  purge_document,
}
use atlas_flow_agent.Knowledge.Builds.{create_space_build}
use atlas_flow_agent.Knowledge.Versions.{
  create_space_version, update_space_version, delete_space_version, install_version,
  activate_space_version,
}
use atlas_flow_agent.Knowledge.Generations.{
  bind_ingestion_generation, switch_to, activate_generation,
}

create_space_version-at :
    (now : ℕ) (v w : KnowledgeSpaceVersion) (s : KnowledgeSpace) (r r' : Repository)
    → lookup v.space_id r.spaces ≡ some s
    → create_space_version now v r ≡ ok (w, r')
    → (truthy s.active_build_id ≡ false)
      × (r'.spaces
          ≡ insert s.id (record s { active_version_id = some v.id; updated_at = now }) r.spaces)
unfolding create_space_version ensure_no_build
create_space_version-at now v w s r r' l h = ground arith

create_space_version-missing :
    (now : ℕ) (v : KnowledgeSpaceVersion) (x : KnowledgeSpaceVersion × Repository) (r : Repository)
    → lookup v.space_id r.spaces ≡ none
    → create_space_version now v r ≡ ok x
    → ⊥
unfolding create_space_version
create_space_version-missing now v x r l h = ground arith

pub create_space_version-Effect :
    (now : ℕ) (v w : KnowledgeSpaceVersion) (r r' : Repository)
    → create_space_version now v r ≡ ok (w, r')
    → SpaceEffect r.spaces r'.spaces
create_space_version-Effect now v w r r' h = elim (stored (lookup v.space_id r.spaces)) [
  | inl n ↦ absurd (create_space_version-missing now v (w, r') r n h)
  | inr (s, l) ↦
      let (u, m) = create_space_version-at now v w s r r' l h in
      inr (v.space_id, s, _, l, u, refl, m)
]

pub update_space_version-Effect :
    (v w : KnowledgeSpaceVersion) (r r' : Repository)
    → update_space_version v r ≡ ok (w, r')
    → SpaceEffect r.spaces r'.spaces
unfolding update_space_version
update_space_version-Effect v w r r' h = inl (ground arith)

pub delete_space_version-Effect :
    (now : ℕ) (space_id version_id : String) (w : KnowledgeSpaceVersion) (r r' : Repository)
    → delete_space_version now space_id version_id r ≡ ok (w, r')
    → SpaceEffect r.spaces r'.spaces
unfolding delete_space_version
delete_space_version-Effect now space_id version_id w r r' h = inl (ground arith)

activate_space_version-at :
    (now : ℕ) (v : KnowledgeSpaceVersion) (t s : KnowledgeSpace) (r r' : Repository)
    → lookup v.space_id r.spaces ≡ some s
    → activate_space_version now v r ≡ ok (t, r')
    → (truthy s.active_build_id ≡ false) × (t.id ≡ s.id) × (r'.spaces ≡ insert s.id t r.spaces)
unfolding activate_space_version install_version ensure_no_build
activate_space_version-at now v t s r r' l h = ground arith

activate_space_version-missing :
    (now : ℕ) (v : KnowledgeSpaceVersion) (x : KnowledgeSpace × Repository) (r : Repository)
    → lookup v.space_id r.spaces ≡ none
    → activate_space_version now v r ≡ ok x
    → ⊥
unfolding activate_space_version
activate_space_version-missing now v x r l h = ground arith

pub activate_space_version-Effect :
    (now : ℕ) (v : KnowledgeSpaceVersion) (t : KnowledgeSpace) (r r' : Repository)
    → activate_space_version now v r ≡ ok (t, r')
    → SpaceEffect r.spaces r'.spaces
activate_space_version-Effect now v t r r' h = elim (stored (lookup v.space_id r.spaces)) [
  | inl n ↦ absurd (activate_space_version-missing now v (t, r') r n h)
  | inr (s, l) ↦
      let (u, e, m) = activate_space_version-at now v t s r r' l h in
      inr (v.space_id, s, t, l, u, e, m)
]

create_space_build-at :
    (now : ℕ) (b c : SpaceBuild) (g : IndexGeneration) (vs : List DocumentVersion)
    (js : List IngestionJob) (s : KnowledgeSpace) (r r' : Repository)
    → lookup b.space_id r.spaces ≡ some s
    → create_space_build now b g vs js r ≡ ok (c, r')
    → (truthy s.active_build_id ≡ false)
      × (r'.spaces
          ≡ insert s.id (record s { active_build_id = some b.id; updated_at = now }) r.spaces)
unfolding create_space_build ensure_no_build
create_space_build-at now b c g vs js s r r' l h = ground arith

create_space_build-missing :
    (now : ℕ) (b : SpaceBuild) (g : IndexGeneration) (vs : List DocumentVersion)
    (js : List IngestionJob) (x : SpaceBuild × Repository) (r : Repository)
    → lookup b.space_id r.spaces ≡ none
    → create_space_build now b g vs js r ≡ ok x
    → ⊥
unfolding create_space_build
create_space_build-missing now b g vs js x r l h = ground arith

pub create_space_build-Effect :
    (now : ℕ) (b c : SpaceBuild) (g : IndexGeneration) (vs : List DocumentVersion)
    (js : List IngestionJob) (r r' : Repository)
    → create_space_build now b g vs js r ≡ ok (c, r')
    → SpaceEffect r.spaces r'.spaces
create_space_build-Effect now b c g vs js r r' h = elim (stored (lookup b.space_id r.spaces)) [
  | inl n ↦ absurd (create_space_build-missing now b g vs js (c, r') r n h)
  | inr (s, l) ↦
      let (u, m) = create_space_build-at now b c g vs js s r r' l h in
      inr (b.space_id, s, _, l, u, refl, m)
]

abbrev pub bound : ℕ → IndexGeneration → KnowledgeSpace → KnowledgeSpace
bound now g s = record s {
  active_generation_id = some g.id;
  active_version_id = none;
  updated_at = now;
}

bind_ingestion_generation-at :
    (now : ℕ) (k : String) (g c : IndexGeneration) (s : KnowledgeSpace) (r r' : Repository)
    → lookup k r.spaces ≡ some s
    → bind_ingestion_generation now k g r ≡ ok (c, r')
    → (truthy s.active_build_id ≡ false)
      × ((r'.spaces ≡ r.spaces) ⊎ (r'.spaces ≡ insert k (bound now g s) r.spaces))
unfolding bind_ingestion_generation ensure_no_build
bind_ingestion_generation-at now k g c s r r' l h = ground arith

bind_ingestion_generation-missing :
    (now : ℕ) (k : String) (g : IndexGeneration) (x : IndexGeneration × Repository) (r : Repository)
    → lookup k r.spaces ≡ none
    → bind_ingestion_generation now k g r ≡ ok x
    → ⊥
unfolding bind_ingestion_generation
bind_ingestion_generation-missing now k g x r l h = ground arith

pub bind_ingestion_generation-Effect :
    (now : ℕ) (k : String) (g c : IndexGeneration) (r r' : Repository)
    → ((j : String) (s : KnowledgeSpace) → lookup j r.spaces ≡ some s → s.id ≡ j)
    → bind_ingestion_generation now k g r ≡ ok (c, r')
    → SpaceEffect r.spaces r'.spaces
bind_ingestion_generation-Effect now k g c r r' filed h = elim (stored (lookup k r.spaces)) [
  | inl n ↦ absurd (bind_ingestion_generation-missing now k g (c, r') r n h)
  | inr (s, l) ↦
      let (u, m) = bind_ingestion_generation-at now k g c s r r' l h in
      elim m [
        | inl e ↦ inl e
        | inr e ↦ inr (
          k,
          s,
          bound now g s,
          l,
          u,
          refl,
          subst (λ j. r'.spaces ≡ insert j (bound now g s) r.spaces) (sym (filed k s l)) e,
        )
      ]
]

activate_generation-at :
    (now : ℕ) (k : String) (g c : IndexGeneration) (s : KnowledgeSpace) (r r' : Repository)
    → lookup k r.generations ≡ some g
    → lookup g.space_id r.spaces ≡ some s
    → activate_generation now k r ≡ ok (c, r')
    → (truthy s.active_build_id ≡ false)
      × (r'.spaces
          ≡ insert s.id
              (record s {
                active_generation_id = some k;
                active_version_id = none;
                updated_at = now;
              })
              r.spaces)
unfolding activate_generation switch_to ensure_no_build
activate_generation-at now k g c s r r' lg l h = ground arith

activate_generation-homeless :
    (now : ℕ) (k : String) (g : IndexGeneration) (x : IndexGeneration × Repository) (r : Repository)
    → lookup k r.generations ≡ some g
    → lookup g.space_id r.spaces ≡ none
    → activate_generation now k r ≡ ok x
    → ⊥
unfolding activate_generation
activate_generation-homeless now k g x r lg l h = ground arith

activate_generation-missing :
    (now : ℕ) (k : String) (x : IndexGeneration × Repository) (r : Repository)
    → lookup k r.generations ≡ none
    → activate_generation now k r ≡ ok x
    → ⊥
unfolding activate_generation
activate_generation-missing now k x r lg h = ground arith

pub activate_generation-Effect :
    (now : ℕ) (k : String) (c : IndexGeneration) (r r' : Repository)
    → activate_generation now k r ≡ ok (c, r')
    → SpaceEffect r.spaces r'.spaces
activate_generation-Effect now k c r r' h = elim (stored (lookup k r.generations)) [
  | inl n ↦ absurd (activate_generation-missing now k (c, r') r n h)
  | inr (g, lg) ↦ elim (stored (lookup g.space_id r.spaces)) [
    | inl n ↦ absurd (activate_generation-homeless now k g (c, r') r lg n h)
    | inr (s, l) ↦
        let (u, m) = activate_generation-at now k g c s r r' lg l h in
        inr (g.space_id, s, _, l, u, refl, m)
  ]
]
