-- ===== src/Knowledge/Released/Moved.antt =====
-- What the baseline of a build in memory_repository.py says, and the documents that it moves.
use atlas_flow_agent.Base.{
  ℕ, String, ◌≡◌, refl, ◌∙◌, subst, ◌⊎◌, inl, inr, true, false, Option, none, some, List, ◌∷◌,
  arith, Bool-cases, ok, All, All-map, for_each, for_each-eq-ok, ◌==◌, nat_eq, string_eq, eq_cases,
  contains, distinct, [],
}
use atlas_flow_agent.Base.Dict.{Dict, lookup, adjust, lookup-adjust_self}
use atlas_flow_agent.Knowledge.Models.{
  KnowledgeSpace, KnowledgeDocument, SpaceDocumentState, KnowledgeSpaceVersion, SpaceBuild,
  same_option_iff, option_eq, document_status_eq, is_active,
}
use atlas_flow_agent.Knowledge.BuildChecks.{
  keys, baseline_changed, check_target, validate_build_baseline,
}
use atlas_flow_agent.Knowledge.Builds.{release_documents}

-- A document of the base is in the build; if it is active, then the build has it active and with
-- another version.
abbrev pub IsRebuilt : SpaceBuild → String × SpaceDocumentState → Type 0
IsRebuilt build entry =
    (target : SpaceDocumentState) × (lookup entry.0 build.documents ≡ some target)
    × ((is_active entry.1.status ≡ false)
        ⊎ ((is_active target.status ≡ true) × ((target.version_id == entry.1.version_id) ≡ false)))

target_parts :
    (previous target : SpaceDocumentState)
    → is_active previous.status ≡ true
    → check_target previous (some target) ≡ ok tt
    → (is_active target.status ≡ true) × ((target.version_id == previous.version_id) ≡ false)
unfolding check_target
target_parts previous target t h = ground arith

check_target-IsRebuilt :
    (build : SpaceBuild) (entry : String × SpaceDocumentState) (found : Option SpaceDocumentState)
    → lookup entry.0 build.documents ≡ found
    → check_target entry.1 found ≡ ok tt
    → IsRebuilt build entry
unfolding check_target
check_target-IsRebuilt build entry none l h = cc
check_target-IsRebuilt build entry (some target) l h = (
  target,
  l,
  elim (Bool-cases (is_active entry.1.status)) [
    | inl t ↦ inr (target_parts entry.1 target t h)
    | inr f ↦ inl f
  ],
)

-- What the first two checks of the baseline have found.
abbrev pub StandsOn : SpaceBuild → KnowledgeSpace → Option KnowledgeSpaceVersion → Type 0
StandsOn build space stored =
    (base : KnowledgeSpaceVersion) × (stored ≡ some base)
    × (space.active_version_id ≡ some base.id)
    × (space.active_generation_id ≡ base.generation_id)
    × All (IsRebuilt build) base.documents

baseline_parts :
    (space : KnowledgeSpace) (base : KnowledgeSpaceVersion) (build : SpaceBuild)
    (docs : List KnowledgeDocument)
    → validate_build_baseline space (some base) build docs ≡ ok tt
    → ((space.active_version_id == some base.id) ≡ true)
      × ((space.active_generation_id == base.generation_id) ≡ true)
      × (for_each (λ entry. check_target entry.1 (lookup entry.0 build.documents)) base.documents
          ≡ ok tt)
unfolding validate_build_baseline baseline_changed
baseline_parts space base build docs h = ground arith

pub baseline-StandsOn :
    (space : KnowledgeSpace) (stored : Option KnowledgeSpaceVersion) (build : SpaceBuild)
    (docs : List KnowledgeDocument)
    → validate_build_baseline space stored build docs ≡ ok tt
    → StandsOn build space stored
unfolding validate_build_baseline
baseline-StandsOn space none build docs h = cc
baseline-StandsOn space (some base) build docs h =
    let (v, g, each) = baseline_parts space base build docs h in
    (
      base,
      refl,
      (same_option_iff space.active_version_id (some base.id)).0 v,
      (same_option_iff space.active_generation_id base.generation_id).0 g,
      All-map base.documents
          (λ entry c. check_target-IsRebuilt build entry (lookup entry.0 build.documents) refl c)
          (for_each-eq-ok (λ entry. check_target entry.1 (lookup entry.0 build.documents))
            base.documents each),
    )

-- The document in the state that the build has for it.
abbrev pub moved : ℕ → SpaceDocumentState → KnowledgeDocument → KnowledgeDocument
moved now state doc = record doc {
  current_version_id = state.version_id;
  status = state.status;
  updated_at = now;
}

lookup-adjust_other :
    {V : Type 0} (j k : String) (f : V → V) (d : Dict V)
    → (j == k) ≡ false
    → lookup k (adjust j f d) ≡ lookup k d
unfolding lookup adjust
lookup-adjust_other j k f [] n = refl
lookup-adjust_other j k f ((i, w) ∷ d) n = ground (
  arith,
  string_eq.same_iff i j,
  string_eq.same_iff i k,
  string_eq.same_iff j k,
  lookup-adjust_other j k f d n,
)

pub release_documents-other :
    (now : ℕ) (k : String) (d : Dict SpaceDocumentState) (docs : Dict KnowledgeDocument)
    → contains (keys d) k ≡ false
    → lookup k (release_documents now d docs) ≡ lookup k docs
unfolding release_documents contains
release_documents-other now k [] docs n = refl
release_documents-other now k ((j, state) ∷ d) docs n =
    release_documents-other now k d (adjust j (moved now state) docs) (ground arith)
    ∙ lookup-adjust_other j k (moved now state) docs (ground arith)

pub release_documents-moved :
    (now : ℕ) (k : String) (state : SpaceDocumentState) (doc : KnowledgeDocument)
    (d : Dict SpaceDocumentState) (docs : Dict KnowledgeDocument)
    → distinct (keys d) ≡ true
    → lookup k d ≡ some state
    → lookup k docs ≡ some doc
    → lookup k (release_documents now d docs) ≡ some (moved now state doc)
unfolding release_documents distinct lookup
release_documents-moved now k state doc [] docs u l m = cc
release_documents-moved now k state doc ((j, first) ∷ d) docs u l m = elim (eq_cases j k) [
  | inl (p, t) ↦
      let same : first ≡ state = ground arith in
      release_documents-other now k d (adjust j (moved now first) docs)
        (subst (λ x. contains (keys d) x ≡ false) p (ground arith))
      ∙ rw p (rw same (lookup-adjust_self k (moved now state) docs doc m))
  | inr f ↦
      release_documents-moved now k state doc d (adjust j (moved now first) docs) (ground arith)
        (ground arith) (lookup-adjust_other j k (moved now first) docs f ∙ m)
]
