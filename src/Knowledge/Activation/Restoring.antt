-- ===== src/Knowledge/Activation/Restoring.antt =====
-- What `activate_space_version` of
-- backend/src/atlasflow/knowledge/infrastructure/memory_repository.py does to generations.
use atlas_flow_agent.Base.{
  ℕ, String, ◌≡◌, refl, sym, ap, ◌∙◌, subst, inl, inr, Bool, true, false, not, some, map, arith,
  Bool-cases, Outcome, ok, ◌>>=◌, ◌>>◌, raise_if, raise_if-eq-ok, >>=-eq-ok, ◌==◌, nat_eq,
  string_eq, eq_cases, subset,
}
use atlas_flow_agent.Base.Dict.{lookup, map_values, lookup-insert, lookup-map_values}
use atlas_flow_agent.Knowledge.Models.{
  GenerationStatus, KnowledgeSpace, IndexGeneration, KnowledgeSpaceVersion, KnowledgeError,
  value_error, option_eq, document_status_eq,
}
use atlas_flow_agent.Knowledge.BuildChecks.{keys, ensure_no_build}
use atlas_flow_agent.Knowledge.Repository.{Repository, require, documents_of, has_busy_jobs, stale}
use atlas_flow_agent.Knowledge.Versions.{
  is_active_generation, switch_generation, install_version, activate_space_version, live,
}
use atlas_flow_agent.Knowledge.Publishing.{lookup-insert_self}
use atlas_flow_agent.Knowledge.Activation.Focus.{
  OneActive, Focused, the_one, lookup-map_values_cases,
}

pub activate_space_version_parts :
    (now : ℕ) (version : KnowledgeSpaceVersion) (s : KnowledgeSpace) (r r' : Repository)
    → activate_space_version now version r ≡ ok (s, r')
    → (space : KnowledgeSpace) × (latest : KnowledgeSpaceVersion) × ((install_version now space
          latest r).1
        ≡ r')
unfolding activate_space_version ensure_no_build
activate_space_version_parts now version s r r' h =
    let (space, l, h1) = >>=-eq-ok (require version.space_id r.spaces) from_space h in
    let (latest, k, h2) =
      >>=-eq-ok (live version.id space.id (lookup version.id r.space_versions)) (from_latest space)
        h1 in
    let (t, h3) = raise_if-eq-ok _ _ (busy space latest) h2 in
    let (u, h4) = raise_if-eq-ok _ _ (last space latest) h3 in
    let (v, h5) = raise_if-eq-ok _ _ (ok (install_version now space latest r)) h4 in
    let same : install_version now space latest r ≡ (s, r') = cc in
    (space, latest, ap (λ x. x.1) same)
  where
    last :
        KnowledgeSpace
        → KnowledgeSpaceVersion
        → Outcome KnowledgeError (KnowledgeSpace × Repository)
    last space latest = do
      raise_if
          (not (subset (keys latest.documents) (map (λ doc. doc.id) (documents_of space.id r))))
          (value_error "space version references a removed document")
      ok (install_version now space latest r)

    busy :
        KnowledgeSpace
        → KnowledgeSpaceVersion
        → Outcome KnowledgeError (KnowledgeSpace × Repository)
    busy space latest = raise_if (has_busy_jobs space.id r) (value_error stale) >> last space latest

    from_latest :
        KnowledgeSpace
        → KnowledgeSpaceVersion
        → Outcome KnowledgeError (KnowledgeSpace × Repository)
    from_latest space latest = ensure_no_build space >> busy space latest

    from_space : KnowledgeSpace → Outcome KnowledgeError (KnowledgeSpace × Repository)
    from_space space =
        live version.id space.id (lookup version.id r.space_versions) >>= from_latest space

-- Generations are filed under their ids.
abbrev pub GenerationsFiled : Repository → Type 0
GenerationsFiled r = (k : String) (g : IndexGeneration) → lookup k r.generations ≡ some g → g.id ≡ k

module _ (now : ℕ) (version : KnowledgeSpaceVersion) (u : String) where
  -- The four cases of one generation.
  switch_other :
      (g : IndexGeneration) → (g.space_id == u) ≡ false → switch_generation now version u g ≡ g
  switch_other g n = rw n refl

  switch_space : (g : IndexGeneration) → (switch_generation now version u g).space_id ≡ g.space_id
  switch_space g = ground arith

  switch_chosen :
      (g : IndexGeneration)
      → g.space_id ≡ u
      → (some g.id == version.generation_id) ≡ true
      → is_active_generation (switch_generation now version u g).status ≡ true
  switch_chosen g e c = rw ((string_eq.same_iff g.space_id u).1 e, c) refl

  switch_retired :
      (g : IndexGeneration)
      → g.space_id ≡ u
      → (some g.id == version.generation_id) ≡ false
      → is_active_generation g.status ≡ true
      → switch_generation now version u g ≡ record g { status = GenerationStatus.retired }
  switch_retired g e c act = rw ((string_eq.same_iff g.space_id u).1 e, c, act) refl

  switch_inactive :
      (g : IndexGeneration)
      → g.space_id ≡ u
      → (some g.id == version.generation_id) ≡ false
      → is_active_generation (switch_generation now version u g).status ≡ false
  switch_inactive g e c = elim (Bool-cases (is_active_generation g.status)) [
    | inl act ↦ rw ((string_eq.same_iff g.space_id u).1 e, c, act) refl
    | inr idle ↦ rw ((string_eq.same_iff g.space_id u).1 e, c, idle) idle
  ]

module _ (now : ℕ) (space : KnowledgeSpace) (version : KnowledgeSpaceVersion) (r : Repository)
    (filed : GenerationsFiled r) where
  pub install_version-Focused :
      Focused space.id version.generation_id r (install_version now space version r).1
  unfolding install_version
  install_version-Focused = record {
    others = λ k g l n. at k g l ∙ ap some (switch_other now version space.id g n);
    retired = λ k g l e act n.
        at k g l
        ∙ ap some (switch_retired now version space.id g e (apart k g (filed k g l) n) act);
    active = λ k g l e c. (
      switch_generation now version space.id g,
      at k g l,
      switch_chosen now version space.id g e (
          (option_eq.same_iff (some g.id) version.generation_id).1 (ap some (filed k g l) ∙ sym c)),
    );
    pointed = (_, lookup-insert_self space.id _ r.spaces, refl);
    elsewhere = λ t n. lookup-insert space.id t _ r.spaces ∙ rw n refl;
  }
    where
      at :
          (k : String) (g : IndexGeneration)
          → lookup k r.generations ≡ some g
          → lookup k (map_values (switch_generation now version space.id) r.generations)
            ≡ some (switch_generation now version space.id g)
      at k g l = lookup-map_values (switch_generation now version space.id) k r.generations g l

      apart :
          (k : String) (g : IndexGeneration)
          → g.id ≡ k
          → (version.generation_id == some k) ≡ false
          → (some g.id == version.generation_id) ≡ false
      apart k g e n = elim (eq_cases (some g.id) version.generation_id) [
        | inl (p, q) ↦
            absurd
              (clash ((option_eq.same_iff version.generation_id (some k)).1 (sym p ∙ ap some e)))
        | inr f ↦ f
      ]
        where
          clash : (version.generation_id == some k) ≡ true → ⊥
          clash t = cc

  pub install_version-OneActive :
      ((t : String) → OneActive t r)
      → (t : String) → OneActive t (install_version now space version r).1
  unfolding install_version
  install_version-OneActive old t = record {
    only = λ k g s lg es act ls.
        let (v, l, e) =
          lookup-map_values_cases (switch_generation now version space.id) k r.generations g lg in
        let home : v.space_id ≡ t =
          sym (switch_space now version space.id v) ∙ ap (λ x. x.space_id) (sym e) ∙ es in
        elim (eq_cases space.id t) [
          | inl (p, q) ↦ elim (eq_cases (some v.id) version.generation_id) [
            | inl (c, d) ↦
                here k s (subst (λ x. lookup x (after).spaces ≡ some s) (sym p) ls)
                ∙ sym c
                ∙ ap some (filed k v l)
            | inr c ↦ absurd (
                clash act (
                  ap (λ x. is_active_generation x.status) e
                  ∙ switch_inactive now version space.id v (home ∙ sym p) c))
          ]
          | inr n ↦
              let same = switch_other now version space.id v (away v home n) in
              (old t).only k g s (subst (λ x. lookup k r.generations ≡ some x) (sym (e ∙ same)) l)
                es act (sym (lookup-insert space.id t _ r.spaces ∙ rw n refl) ∙ ls)
        ];
  }
    where
      after : Repository
      after = (install_version now space version r).1

      clash : {b : Bool} → b ≡ true → b ≡ false → ⊥
      clash e f = cc

      here :
          (k : String) (s : KnowledgeSpace)
          → lookup space.id after.spaces ≡ some s
          → s.active_generation_id ≡ version.generation_id
      here k s l =
          let (p, lp, ep) = install_version-Focused.pointed in
          subst (λ x. x.active_generation_id ≡ version.generation_id)
            (the_one (lookup space.id after.spaces) p s lp l) ep

      away :
          (v : IndexGeneration)
          → v.space_id ≡ t
          → (space.id == t) ≡ false
          → (v.space_id == space.id) ≡ false
      away v e n = elim (eq_cases v.space_id space.id) [
        | inl (p, q) ↦ absurd (clash ((string_eq.same_iff space.id t).1 (sym p ∙ e)) n)
        | inr f ↦ f
      ]
