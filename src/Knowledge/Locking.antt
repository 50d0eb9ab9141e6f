-- ===== src/Knowledge/Locking.antt =====
-- The lock that an active build puts on its space in memory_repository.py.
mod Effects
use atlas_flow_agent.Base.{
  ℕ, String, ◌≡◌, refl, sym, ap, ◌∙◌, subst, ◌⊎◌, inl, inr, Bool, true, false, Option, none, some,
  List, arith, ok, nat_eq, string_eq, ◌==◌, eq_cases,
}
use atlas_flow_agent.Base.Dict.{Dict, lookup, insert, lookup-insert}
use atlas_flow_agent.Knowledge.Models.{
  KnowledgeSpace, KnowledgeDocument, DocumentVersion, IngestionJob, IndexGeneration,
  KnowledgeSpaceVersion, SpaceBuild, truthy, option_eq, document_status_eq,
}
use atlas_flow_agent.Knowledge.Repository.{
  Repository, create_document, update_document, purge_document,
}
use atlas_flow_agent.Knowledge.Builds.{create_space_build}
use atlas_flow_agent.Knowledge.Versions.{
  create_space_version, update_space_version, delete_space_version, activate_space_version,
}
use atlas_flow_agent.Knowledge.Generations.{bind_ingestion_generation, activate_generation}
use atlas_flow_agent.Knowledge.Cancelling.{SpacesFiled}
use atlas_flow_agent.Knowledge.Locking.Effects.{
  SpaceEffect, create_document-Effect, update_document-Effect, purge_document-Effect,
  create_space_version-Effect, update_space_version-Effect, delete_space_version-Effect,
  activate_space_version-Effect, create_space_build-Effect, bind_ingestion_generation-Effect,
  activate_generation-Effect,
}

-- An operation outside of a build that has returned: on the documents of a space, on its versions or
-- on its generation, or the start of another build.
pub data Change (r : Repository) : Repository → Type 0 where
  document_created :
      (now : ℕ) (d e : KnowledgeDocument) (r' : Repository)
      → create_document now d r ≡ ok (e, r')
      → Change r r'
  document_updated :
      (now : ℕ) (d e : KnowledgeDocument) (r' : Repository)
      → update_document now d r ≡ ok (e, r')
      → Change r r'
  document_purged :
      (now : ℕ) (k : String) (r' : Repository) → purge_document now k r ≡ ok r' → Change r r'
  version_saved :
      (now : ℕ) (v w : KnowledgeSpaceVersion) (r' : Repository)
      → create_space_version now v r ≡ ok (w, r')
      → Change r r'
  version_noted :
      (v w : KnowledgeSpaceVersion) (r' : Repository)
      → update_space_version v r ≡ ok (w, r')
      → Change r r'
  version_deleted :
      (now : ℕ) (space_id version_id : String) (w : KnowledgeSpaceVersion) (r' : Repository)
      → delete_space_version now space_id version_id r ≡ ok (w, r')
      → Change r r'
  version_restored :
      (now : ℕ) (v : KnowledgeSpaceVersion) (s : KnowledgeSpace) (r' : Repository)
      → activate_space_version now v r ≡ ok (s, r')
      → Change r r'
  build_staged :
      (now : ℕ) (b c : SpaceBuild) (g : IndexGeneration) (vs : List DocumentVersion)
      (js : List IngestionJob) (r' : Repository)
      → create_space_build now b g vs js r ≡ ok (c, r')
      → Change r r'
  generation_bound :
      (now : ℕ) (k : String) (g c : IndexGeneration) (r' : Repository)
      → bind_ingestion_generation now k g r ≡ ok (c, r')
      → Change r r'
  generation_activated :
      (now : ℕ) (k : String) (c : IndexGeneration) (r' : Repository)
      → activate_generation now k r ≡ ok (c, r')
      → Change r r'

pub data Changes : Repository → Repository → Type 0 where
  done : (r : Repository) → Changes r r
  change : (r m r' : Repository) → Change r m → Changes m r' → Changes r r'

Change-Effect : (r r' : Repository) → SpacesFiled r → Change r r' → SpaceEffect r.spaces r'.spaces
Change-Effect r _ f (Change.document_created now d e r' h) = create_document-Effect now d e r r' h
Change-Effect r _ f (Change.document_updated now d e r' h) = update_document-Effect now d e r r' h
Change-Effect r _ f (Change.document_purged now k r' h) = purge_document-Effect now k r r' h
Change-Effect r _ f (Change.version_saved now v w r' h) = create_space_version-Effect now v w r r' h
Change-Effect r _ f (Change.version_noted v w r' h) = update_space_version-Effect v w r r' h
Change-Effect r _ f (Change.version_deleted now s v w r' h) =
    delete_space_version-Effect now s v w r r' h
Change-Effect r _ f (Change.version_restored now v s r' h) =
    activate_space_version-Effect now v s r r' h
Change-Effect r _ f (Change.build_staged now b c g vs js r' h) =
    create_space_build-Effect now b c g vs js r r' h
Change-Effect r _ f (Change.generation_bound now k g c r' h) =
    bind_ingestion_generation-Effect now k g c r r' f h
Change-Effect r _ f (Change.generation_activated now k c r' h) =
    activate_generation-Effect now k c r r' h

one_value : {V : Type 0} (o : Option V) (v w : V) → o ≡ some v → o ≡ some w → v ≡ w
one_value none v w h k = cc
one_value (some u) v w h k = cc

SpaceEffect-filed :
    (r r' : Repository) → SpaceEffect r.spaces r'.spaces → SpacesFiled r → SpacesFiled r'
SpaceEffect-filed r r' (inl e) f k s l = f k s (subst (λ d. lookup k d ≡ some s) e l)
SpaceEffect-filed r r' (inr (j, old, new, lo, u, same, e)) f k s l = elim (eq_cases old.id k) [
  | inl (p, q) ↦
      ap (λ x. x.id)
        (sym (
          one_value (lookup k r'.spaces) new s
            (subst (λ d. lookup k d ≡ some new) (sym e)
              (lookup-insert old.id k new r.spaces ∙ rw q refl))
            l))
      ∙ same
      ∙ p
  | inr n ↦
      f k s (
        sym (lookup-insert old.id k new r.spaces ∙ rw n refl)
        ∙ subst (λ d. lookup k d ≡ some s) e l)
]

SpaceEffect-locked :
    (r r' : Repository) (k : String) (space : KnowledgeSpace)
    → SpaceEffect r.spaces r'.spaces
    → SpacesFiled r
    → lookup k r.spaces ≡ some space
    → truthy space.active_build_id ≡ true
    → lookup k r'.spaces ≡ some space
SpaceEffect-locked r r' k space (inl e) f l t = subst (λ d. lookup k d ≡ some space) (sym e) l
SpaceEffect-locked r r' k space (inr (j, old, new, lo, u, same, e)) f l t =
    elim (eq_cases old.id k) [
      | inl (p, q) ↦
          let here : old ≡ space =
            one_value (lookup k r.spaces) old space
              (subst (λ i. lookup i r.spaces ≡ some old) (sym (f j old lo) ∙ p) lo) l in
          absurd (clash (ap (λ x. truthy x.active_build_id) here ∙ t) u)
      | inr n ↦
          subst (λ d. lookup k d ≡ some space) (sym e)
            (lookup-insert old.id k new r.spaces ∙ rw n l)
    ]
  where
    clash : {b : Bool} → b ≡ true → b ≡ false → ⊥
    clash g h = cc

-- Where spaces are filed under their ids, a space that a build has locked has the same record, with the
-- same active version, generation and build, after any sequence of operations that return, on any
-- space: creating, updating and purging documents, saving, noting, deleting and restoring versions,
-- staging a build, and binding and activating a generation.
pub Changes-keep_locked :
    (r r' : Repository) (k : String) (space : KnowledgeSpace)
    → SpacesFiled r
    → lookup k r.spaces ≡ some space
    → truthy space.active_build_id ≡ true
    → Changes r r'
    → lookup k r'.spaces ≡ some space
Changes-keep_locked r _ k space f l t (Changes.done _) = l
Changes-keep_locked r r' k space f l t (Changes.change _ m _ c rest) =
    let effect = Change-Effect r m f c in
    Changes-keep_locked m r' k space (SpaceEffect-filed r m effect f)
      (SpaceEffect-locked r m k space effect f l t) t rest
