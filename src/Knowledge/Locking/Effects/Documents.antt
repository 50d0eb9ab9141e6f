-- ===== src/Knowledge/Locking/Effects/Documents.antt =====
-- What the operations of memory_repository.py on documents do to the spaces, where they return.
use atlas_flow_agent.Base.{
  ℕ, String, ◌≡◌, refl, sym, ap, ◌⊎◌, inl, inr, false, Option, none, some, arith, Bool-cases, ok,
  nat_eq, string_eq, is_some,
}
use atlas_flow_agent.Base.Dict.{Dict, lookup, insert}
use atlas_flow_agent.Knowledge.Models.{
  KnowledgeSpace, KnowledgeDocument, truthy, option_eq, document_status_eq,
}
use atlas_flow_agent.Knowledge.BuildChecks.{ensure_no_build}
use atlas_flow_agent.Knowledge.Repository.{
  Repository, unversion, mark_space_unversioned, create_document, update_document, cleared,
  purge_document,
}

-- At most one space has another record, under the same id, and no build had locked it.
abbrev pub SpaceEffect : Dict KnowledgeSpace → Dict KnowledgeSpace → Type 0
SpaceEffect before after =
    (after ≡ before)
    ⊎ ((k : String) × (s : KnowledgeSpace) × (s' : KnowledgeSpace) × (lookup k before ≡ some s)
        × (truthy s.active_build_id ≡ false)
        × (s'.id ≡ s.id)
        × (after ≡ insert s.id s' before))

pub stored : {V : Type 0} (o : Option V) → (o ≡ none) ⊎ ((v : V) × (o ≡ some v))
stored none = inl refl
stored (some v) = inr (v, refl)

unversion-Effect :
    (now : ℕ) (k : String) (s : KnowledgeSpace) (r r' : Repository)
    → lookup k r.spaces ≡ some s
    → truthy s.active_build_id ≡ false
    → unversion now s r ≡ r'
    → SpaceEffect r.spaces r'.spaces
unversion-Effect now k s r r' l u e = elim (Bool-cases (is_some s.active_version_id)) [
  | inl t ↦ inr (k, s, _, l, u, refl, ap (λ x. x.spaces) (sym (rw t at e)))
  | inr f ↦ inl (ap (λ x. x.spaces) (sym (rw f at e)))
]

create_document-at :
    (now : ℕ) (d e : KnowledgeDocument) (s : KnowledgeSpace) (r r' : Repository)
    → lookup d.space_id r.spaces ≡ some s
    → create_document now d r ≡ ok (e, r')
    → (truthy s.active_build_id ≡ false)
      × (unversion now s (record r { documents = insert d.id d r.documents }) ≡ r')
unfolding create_document mark_space_unversioned ensure_no_build
create_document-at now d e s r r' l h = ground arith

create_document-missing :
    (now : ℕ) (d : KnowledgeDocument) (x : KnowledgeDocument × Repository) (r : Repository)
    → lookup d.space_id r.spaces ≡ none
    → create_document now d r ≡ ok x
    → ⊥
unfolding create_document
create_document-missing now d x r l h = ground arith

update_document-at :
    (now : ℕ) (d e : KnowledgeDocument) (s : KnowledgeSpace) (r r' : Repository)
    → lookup d.space_id r.spaces ≡ some s
    → update_document now d r ≡ ok (e, r')
    → (truthy s.active_build_id ≡ false)
      × (unversion now s (record r { documents = insert d.id d r.documents }) ≡ r')
unfolding update_document mark_space_unversioned ensure_no_build
update_document-at now d e s r r' l h = ground arith

update_document-missing :
    (now : ℕ) (d : KnowledgeDocument) (x : KnowledgeDocument × Repository) (r : Repository)
    → lookup d.space_id r.spaces ≡ none
    → update_document now d r ≡ ok x
    → ⊥
unfolding update_document
update_document-missing now d x r l h = ground arith

pub create_document-Effect :
    (now : ℕ) (d e : KnowledgeDocument) (r r' : Repository)
    → create_document now d r ≡ ok (e, r')
    → SpaceEffect r.spaces r'.spaces
create_document-Effect now d e r r' h = elim (stored (lookup d.space_id r.spaces)) [
  | inl n ↦ absurd (create_document-missing now d (e, r') r n h)
  | inr (s, l) ↦
      let (u, m) = create_document-at now d e s r r' l h in
      unversion-Effect now d.space_id s (record r { documents = insert d.id d r.documents }) r' l u
        m
]

pub update_document-Effect :
    (now : ℕ) (d e : KnowledgeDocument) (r r' : Repository)
    → update_document now d r ≡ ok (e, r')
    → SpaceEffect r.spaces r'.spaces
update_document-Effect now d e r r' h = elim (stored (lookup d.space_id r.spaces)) [
  | inl n ↦ absurd (update_document-missing now d (e, r') r n h)
  | inr (s, l) ↦
      let (u, m) = update_document-at now d e s r r' l h in
      unversion-Effect now d.space_id s (record r { documents = insert d.id d r.documents }) r' l u
        m
]

purge_document-at :
    (now : ℕ) (k : String) (d : KnowledgeDocument) (s : KnowledgeSpace) (r r' : Repository)
    → lookup k r.documents ≡ some d
    → lookup d.space_id r.spaces ≡ some s
    → purge_document now k r ≡ ok r'
    → (truthy s.active_build_id ≡ false) × (unversion now s (cleared k r) ≡ r')
unfolding purge_document mark_space_unversioned ensure_no_build
purge_document-at now k d s r r' ld l h = ground arith

purge_document-homeless :
    (now : ℕ) (k : String) (d : KnowledgeDocument) (r r' : Repository)
    → lookup k r.documents ≡ some d
    → lookup d.space_id r.spaces ≡ none
    → purge_document now k r ≡ ok r'
    → ⊥
unfolding purge_document
purge_document-homeless now k d r r' ld l h = ground arith

purge_document-missing :
    (now : ℕ) (k : String) (r r' : Repository)
    → lookup k r.documents ≡ none
    → purge_document now k r ≡ ok r'
    → cleared k r ≡ r'
unfolding purge_document
purge_document-missing now k r r' ld h = ground arith

pub purge_document-Effect :
    (now : ℕ) (k : String) (r r' : Repository)
    → purge_document now k r ≡ ok r'
    → SpaceEffect r.spaces r'.spaces
purge_document-Effect now k r r' h = elim (stored (lookup k r.documents)) [
  | inl n ↦ inl (ap (λ x. x.spaces) (sym (purge_document-missing now k r r' n h)))
  | inr (d, ld) ↦ elim (stored (lookup d.space_id r.spaces)) [
    | inl n ↦ absurd (purge_document-homeless now k d r r' ld n h)
    | inr (s, l) ↦
        let (u, m) = purge_document-at now k d s r r' ld l h in
        unversion-Effect now d.space_id s (cleared k r) r' l u m
  ]
]
