-- ===== src/Knowledge/Activation.antt =====
-- One generation of a space is active: the one that the space points at.
mod Focus
mod Restoring
unfoldable pub use Focus.*
unfoldable pub use Restoring.*
use atlas_flow_agent.Base.{
  ℕ, String, ◌≡◌, refl, sym, ap, ◌∙◌, subst, ◌⊎◌, inl, inr, Bool, true, false, ◌&&◌, Option, none,
  some, ◌∷◌, arith, Bool-cases, Outcome, ok, ◌>>=◌, raise_if-eq-ok, >>=-eq-ok, ◌==◌, nat_eq,
  string_eq, eq_cases, [], ◌>>◌,
}
use atlas_flow_agent.Base.Dict.{Dict, lookup, insert, map_values, lookup-insert}
use atlas_flow_agent.Knowledge.Models.{
  KnowledgeSpace, IndexGeneration, KnowledgeSpaceVersion, SpaceBuild, KnowledgeError, option_eq,
  document_status_eq,
}
use atlas_flow_agent.Knowledge.BuildChecks.{ensure_no_build}
use atlas_flow_agent.Knowledge.Repository.{Repository, require}
use atlas_flow_agent.Knowledge.Builds.{
  publish_space_build, release, is_published, retire_in, activated,
}
use atlas_flow_agent.Knowledge.Cancelling.{SpacesFiled}
use atlas_flow_agent.Knowledge.Targets.{validate_build_targets-TargetsFit}
use atlas_flow_agent.Knowledge.Versions.{is_active_generation, activate_space_version}
use atlas_flow_agent.Knowledge.Generations.{switch_to, activate_generation}
use atlas_flow_agent.Knowledge.Publishing.{
  found-eq-ok, lookup-insert_self, publish_new_parts, publish_of_new,
}

-- One change of the active generation: a build is published for the first time, a generation is
-- activated on its own, or a version of the space is made current again.
pub data Switch (r : Repository) : Repository → Type 0 where
  publish :
      (fresh : String) (now : ℕ) (build_id : String) (build : SpaceBuild)
      (v : KnowledgeSpaceVersion) (r' : Repository)
      → lookup build_id r.space_builds ≡ some build
      → is_published build.status ≡ false
      → publish_space_build fresh now build_id r ≡ ok (v, r')
      → Switch r r'
  activate :
      (now : ℕ) (generation_id : String) (g : IndexGeneration) (r' : Repository)
      → activate_generation now generation_id r ≡ ok (g, r')
      → Switch r r'
  restore :
      (now : ℕ) (version : KnowledgeSpaceVersion) (s : KnowledgeSpace) (r' : Repository)
      → activate_space_version now version r ≡ ok (s, r')
      → Switch r r'

activate_generation_parts :
    (now : ℕ) (gid : String) (g : IndexGeneration) (r r' : Repository)
    → activate_generation now gid r ≡ ok (g, r')
    → (selected : IndexGeneration) × (space : KnowledgeSpace) × (lookup gid r.generations
        ≡ some selected)
      × (lookup selected.space_id r.spaces ≡ some space)
      × (switch_to now gid space selected r ≡ r')
unfolding activate_generation ensure_no_build
activate_generation_parts now gid g r r' h =
    let (selected, l, h1) = >>=-eq-ok (require gid r.generations) from_selected h in
    let (space, k, h2) = >>=-eq-ok (require selected.space_id r.spaces) (from_space selected) h1 in
    let (t, e) = raise_if-eq-ok _ _ (ok (made selected space)) h2 in
    let same : ◌≡◌ {A = IndexGeneration × Repository} (made selected space) (g, r') = cc in
    (
      selected,
      space,
      found-eq-ok gid (lookup gid r.generations) l,
      found-eq-ok selected.space_id (lookup selected.space_id r.spaces) k,
      ap (λ x. x.1) same,
    )
  where
    made : IndexGeneration → KnowledgeSpace → IndexGeneration × Repository
    made selected space = (activated now selected, switch_to now gid space selected r)

    from_space :
        IndexGeneration → KnowledgeSpace → Outcome KnowledgeError (IndexGeneration × Repository)
    from_space selected space = do ensure_no_build space; ok (made selected space)

    from_selected : IndexGeneration → Outcome KnowledgeError (IndexGeneration × Repository)
    from_selected selected = require selected.space_id r.spaces >>= from_space selected

abbrev pointed_at : ℕ → String → KnowledgeSpace → KnowledgeSpace
pointed_at now gid space = record space {
  active_generation_id = some gid;
  active_version_id = none;
  updated_at = now;
}

switch_to-focus :
    (now : ℕ) (gid : String) (space : KnowledgeSpace) (selected : IndexGeneration) (r : Repository)
    → selected.space_id ≡ space.id
    → focus gid (activated now selected) (pointed_at now gid space) r
      ≡ switch_to now gid space selected r
unfolding switch_to
switch_to-focus now gid space selected r e =
    ap
      (λ k. record r {
        generations = insert gid (activated now selected) (map_values (retire_in k) r.generations);
        spaces = insert space.id (pointed_at now gid space) r.spaces;
      })
      (sym e)

-- One space has changed its active generation, and each space has one active generation at most.
abbrev pub Switched : Repository → Repository → Type 0
Switched r r' =
    ((t : String) → OneActive t r')
    × (u : String) × (chosen : Option String) × Focused u chosen r r'

switch_to-Switched :
    (now : ℕ) (gid : String) (space : KnowledgeSpace) (selected : IndexGeneration) (r : Repository)
    → lookup gid r.generations ≡ some selected
    → selected.space_id ≡ space.id
    → ((t : String) → OneActive t r)
    → Switched r (switch_to now gid space selected r)
switch_to-Switched now gid space selected r l e old =
    subst (Switched r) (switch_to-focus now gid space selected r e) (
      focus-OneActive gid (activated now selected) (pointed_at now gid space) r e refl old,
      space.id,
      some gid,
      focus-Focused gid (activated now selected) selected (pointed_at now gid space) r l e refl
          refl,
    )

-- What publishing assigns besides the generations and the spaces does not matter here.
release-Switched :
    (fresh : String) (now : ℕ) (space : KnowledgeSpace) (build : SpaceBuild)
    (generation : IndexGeneration) (r : Repository)
    → lookup generation.id r.generations ≡ some generation
    → generation.space_id ≡ space.id
    → ((t : String) → OneActive t r)
    → Switched r (release fresh now space build generation r)
unfolding release
release-Switched fresh now space build generation r l e old =
    let f =
      focus-Focused generation.id (activated now generation) generation pointed r l e refl refl in
    (
      (λ t. record {
        only =
            (focus-OneActive generation.id (activated now generation) pointed r e refl old t).only;
      }),
      space.id,
      some generation.id,
      record {
        others = f.others;
        retired = f.retired;
        active = f.active;
        pointed = f.pointed;
        elsewhere = f.elsewhere;
      },
    )
  where
    pointed : KnowledgeSpace
    pointed = record space {
      active_version_id = some fresh;
      active_generation_id = some generation.id;
      active_build_id = none;
      updated_at = now;
    }

-- Take a repository whose spaces and generations are filed under their ids and where each active
-- generation is the one that its space points at. A first publication of a build, an
-- `activate_generation` or an `activate_space_version` that returns keeps the latter true for every
-- space. It concerns one space, which then points at the generation chosen: this one is active if it
-- is there, and another one of the space that was active is retired, and only that about it has
-- changed. The generations of other spaces and the other spaces are as before.
pub Switch-OneActive :
    (r r' : Repository)
    → SpacesFiled r
    → GenerationsFiled r
    → ((t : String) → OneActive t r)
    → Switch r r'
    → Switched r r'
Switch-OneActive r _ filed gens old (Switch.publish fresh now build_id build v r' l n h) =
    let (p, c, e, e') =
      publish_new_parts fresh now build r v r'
        (sym (publish_of_new fresh now build_id build r l n) ∙ h) in
    let (ls, lock, nc, base, lg, vs, js, rv, rj, targets, chunks) = c in
    let (gi, gs, gu, ne, nv, nj, cov, back) =
      validate_build_targets-TargetsFit build p.1 vs js true targets in
    let here : p.1.space_id ≡ p.0.id = gs ∙ sym (filed build.space_id p.0 ls) in
    subst (Switched r) (sym e') (
      release-Switched fresh now p.0 build p.1 r
        (subst (λ k. lookup k r.generations ≡ some p.1) (sym gi) lg) here old)
Switch-OneActive r _ filed gens old (Switch.activate now gid g r' h) =
    let (selected, space, l, k, e) = activate_generation_parts now gid g r r' h in
    let here : selected.space_id ≡ space.id = sym (filed selected.space_id space k) in
    subst (Switched r) e (switch_to-Switched now gid space selected r l here old)
Switch-OneActive r _ filed gens old (Switch.restore now version s r' h) =
    let (space, latest, e) = activate_space_version_parts now version s r r' h in
    subst (Switched r) e (
      install_version-OneActive now space latest r gens old,
      space.id,
      latest.generation_id,
      install_version-Focused now space latest r gens,
    )
