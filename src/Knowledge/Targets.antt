-- ===== src/Knowledge/Targets.antt =====
-- What the checks on the targets of a build establish.
use atlas_flow_agent.Base.{
  String, ◌≡◌, refl, sym, ap, subst, inl, inr, Bool, true, false, Option, none, some, List, ◌∷◌,
  map, arith, &&_elim, Outcome, ok, ◌>>◌, for_each, All, for_each-eq-ok, >>=-eq-ok, Keyed, nat_eq,
  string_eq, contains, subset, eq_cases, contains-head, contains-tail, subset-contains, dedup,
  length, is_empty, In, [],
}
use atlas_flow_agent.Knowledge.Models.{
  DocumentVersion, IngestionJob, IndexGeneration, SpaceBuild, KnowledgeError, same_option_iff,
  option_eq, document_status_eq,
}
use atlas_flow_agent.Knowledge.BuildChecks.{
  pair_eq, index_by, same_set, validate_build_targets, get_version, active_targets,
}
use atlas_flow_agent.Knowledge.BuildChecks.{
  pair_eq, check_generation, check_counts, check_version, check_job, job_target, is_unpublished,
  version_expected, job_expected,
}

module _ (build : SpaceBuild) (generation : IndexGeneration) (vs : List DocumentVersion)
    (js : List IngestionJob) (publishing : Bool) where
  abbrev found_version : Option String → Option DocumentVersion
  found_version v = get_version (index_by (λ w. w.id) vs) v

  abbrev Passed : Type 0
  Passed =
      (check_generation build generation publishing ≡ ok tt)
      × (check_counts build (active_targets build.documents) vs js ≡ ok tt)
      × All (λ t. check_version build publishing t.0 (found_version t.1) ≡ ok tt)
          (active_targets build.documents)
      × All (λ j. check_job build generation publishing j ≡ ok tt) js

  validate_build_targets-Passed :
      validate_build_targets build generation vs js publishing ≡ ok tt → Passed
  unfolding validate_build_targets
  validate_build_targets-Passed h =
      let (_, g, h1) = >>=-eq-ok (check_generation build generation publishing) (λ _. counts) h in
      let (_, c, h2) =
        >>=-eq-ok (check_counts build (active_targets build.documents) vs js) (λ _. versions) h1 in
      let (_, v, j) =
        >>=-eq-ok
          (for_each (λ t. check_version build publishing t.0 (found_version t.1))
            (active_targets build.documents))
          (λ _. jobs) h2 in
      (g, c, for_each-eq-ok _ _ v, for_each-eq-ok _ _ j)
    where
      jobs : Outcome KnowledgeError (Unit {0})
      jobs = for_each (check_job build generation publishing) js

      versions : Outcome KnowledgeError (Unit {0})
      versions =
          for_each (λ t. check_version build publishing t.0 (found_version t.1))
            (active_targets build.documents)
          >> jobs

      counts : Outcome KnowledgeError (Unit {0})
      counts = check_counts build (active_targets build.documents) vs js >> versions

-- The generation is the build's, of its space, and is not published.
pub check_generation_parts :
    (build : SpaceBuild) (generation : IndexGeneration) (publishing : Bool)
    → check_generation build generation publishing ≡ ok tt
    → (generation.id ≡ build.generation_id)
      × (generation.space_id ≡ build.space_id)
      × (is_unpublished generation.status ≡ true)
unfolding check_generation
check_generation_parts build generation publishing h = (
  (string_eq.same_iff _ _).0 (ground arith),
  (string_eq.same_iff _ _).0 (ground arith),
  ground arith,
)

check_version_parts :
    (build : SpaceBuild) (publishing : Bool) (k : String) (o : Option DocumentVersion)
    → check_version build publishing k o ≡ ok tt
    → (v : DocumentVersion) × (o ≡ some v)
      × (v.document_id ≡ k)
      × (version_expected publishing v.status ≡ true)
unfolding check_version
check_version_parts build publishing k none h = cc
check_version_parts build publishing k (some v) h =
    (v, refl, (string_eq.same_iff _ _).0 (ground arith), ground arith)

check_job_parts :
    (build : SpaceBuild) (generation : IndexGeneration) (publishing : Bool) (j : IngestionJob)
    → check_job build generation publishing j ≡ ok tt
    → (j.space_id ≡ build.space_id)
      × (j.space_build_id ≡ some build.id)
      × (j.generation_id ≡ some generation.id)
      × (job_expected publishing j.status ≡ true)
unfolding check_job
check_job_parts build generation publishing j h = (
  (string_eq.same_iff _ _).0 (ground arith),
  (same_option_iff j.space_build_id (some build.id)).0 (ground arith),
  (same_option_iff j.generation_id (some generation.id)).0 (ground arith),
  ground arith,
)

check_counts_parts :
    (build : SpaceBuild) (active : List (String × Option String)) (vs : List DocumentVersion)
    (js : List IngestionJob)
    → check_counts build active vs js ≡ ok tt
    → (is_empty active ≡ false)
      × (length vs ≡ length active)
      × (length js ≡ length active)
      × (length (dedup build.job_ids) ≡ length active)
      × (same_set (map job_target js) active ≡ true)
unfolding check_counts
check_counts_parts build active vs js h =
    (ground arith, ground arith, ground arith, ground arith, ground arith)

contains→In : {A : Type 0} ⦃e : Keyed A⦄ (xs : List A) (a : A) → contains xs a ≡ true → In a xs
unfolding contains
contains→In [] a h = cc
contains→In ⦃e⦄ (x ∷ xs) a h = elim (eq_cases x a) [
  | inl (p, q) ↦ inl (sym p)
  | inr f ↦ inr (contains→In xs a (ground arith))
]

In→contains : {A : Type 0} ⦃e : Keyed A⦄ (xs : List A) (a : A) → In a xs → contains xs a ≡ true
unfolding contains
In→contains [] a m = absurd m
In→contains (x ∷ xs) a (inl p) =
    subst (λ y. contains (x ∷ xs) y ≡ true) (sym p) (contains-head x xs)
In→contains (x ∷ xs) a (inr m) = contains-tail x a xs (In→contains xs a m)

In-map_cases :
    {A B : Type 0} (f : A → B) (xs : List A) (b : B)
    → In b (map f xs)
    → (a : A) × In a xs × (b ≡ f a)
In-map_cases f [] b m = absurd m
In-map_cases f (x ∷ xs) b (inl e) = (x, inl refl, e)
In-map_cases f (x ∷ xs) b (inr m) = let (a, n, e) = In-map_cases f xs b m in (a, inr n, e)

map-In : {A B : Type 0} (f : A → B) (xs : List A) (a : A) → In a xs → In (f a) (map f xs)
map-In f [] a m = absurd m
map-In f (x ∷ xs) a (inl e) = inl (ap f e)
map-In f (x ∷ xs) a (inr m) = inr (map-In f xs a m)

All-In : {A : Type 0} (P : A → Type 0) (xs : List A) (a : A) → All P xs → In a xs → P a
All-In P [] a h m = absurd m
All-In P (x ∷ xs) a h (inl e) = subst P (sym e) h.0
All-In P (x ∷ xs) a h (inr m) = All-In P xs a h.1 m

-- An active document of the build has its one new version and a job of the build for that version.
abbrev pub Covered :
    SpaceBuild → List DocumentVersion → List IngestionJob → Bool → String × Option String → Type 0
Covered build vs js publishing t =
    ((v : DocumentVersion) × (get_version (index_by (λ w. w.id) vs) t.1 ≡ some v)
      × (v.document_id ≡ t.0)
      × (version_expected publishing v.status ≡ true))
    × ((j : IngestionJob) × In j js
        × (t ≡ job_target j)
        × (j.space_build_id ≡ some build.id)
        × (job_expected publishing j.status ≡ true))

abbrev pub TargetsFit :
    SpaceBuild → IndexGeneration → List DocumentVersion → List IngestionJob → Bool → Type 0
TargetsFit build generation vs js publishing =
    (generation.id ≡ build.generation_id)
    × (generation.space_id ≡ build.space_id)
    × (is_unpublished generation.status ≡ true)
    × (is_empty (active_targets build.documents) ≡ false)
    × (length vs ≡ length (active_targets build.documents))
    × (length js ≡ length (active_targets build.documents))
    × ((t : String × Option String)
        → In t (active_targets build.documents)
        → Covered build vs js publishing t)
    × ((j : IngestionJob) → In j js → In (job_target j) (active_targets build.documents))

-- Targets that pass the checks fit the build: the generation is the build's, in its space, and is not
-- published; there are as many new versions and as many jobs as active documents, of which there is
-- one at least; each active document of the build has the version that the build names, and a job of
-- the build for this document and version, both in the state that is expected (pending and queued
-- before, ready and completed at the publication); and each job is for an active document.
pub validate_build_targets-TargetsFit :
    (build : SpaceBuild) (generation : IndexGeneration) (vs : List DocumentVersion)
    (js : List IngestionJob) (publishing : Bool)
    → validate_build_targets build generation vs js publishing ≡ ok tt
    → TargetsFit build generation vs js publishing
unfolding subset
validate_build_targets-TargetsFit build generation vs js publishing h =
    let (g, c, hv, hj) = validate_build_targets-Passed build generation vs js publishing h in
    let (gi, gs, gu) = check_generation_parts build generation publishing g in
    let (ne, nv, nj, nd, same) = check_counts_parts build active vs js c in
    let (to, from) = &&_elim _ _ same in
    (
      gi,
      gs,
      gu,
      ne,
      nv,
      nj,
      (λ t m. (version_at hv t m, job_at hj from t m)),
      (λ j m. contains→In active (job_target j) (
          subset-contains (map job_target js) active (job_target j) to
            (In→contains (map job_target js) (job_target j) (map-In job_target js j m)))),
    )
  where
    active : List (String × Option String)
    active = active_targets build.documents

    version_at :
        All
          (λ t.
            check_version build publishing t.0 (get_version (index_by (λ w. w.id) vs) t.1) ≡ ok tt)
          active
        → (t : String × Option String) → In t active
        → (v : DocumentVersion) × (get_version (index_by (λ w. w.id) vs) t.1 ≡ some v)
          × (v.document_id ≡ t.0)
          × (version_expected publishing v.status ≡ true)
    version_at hv t m =
        check_version_parts build publishing t.0 (get_version (index_by (λ w. w.id) vs) t.1)
          (All-In _ active t hv m)

    job_at :
        All (λ j. check_job build generation publishing j ≡ ok tt) js
        → subset active (map job_target js) ≡ true
        → (t : String × Option String) → In t active
        → (j : IngestionJob) × In j js
          × (t ≡ job_target j)
          × (j.space_build_id ≡ some build.id)
          × (job_expected publishing j.status ≡ true)
    job_at hj from t m =
        let (j, n, e) = In-map_cases job_target js t (
          contains→In (map job_target js) t
            (subset-contains active (map job_target js) t from (In→contains active t m))) in
        let (js_, jb, jg, je) =
          check_job_parts build generation publishing j (All-In _ js j hj n) in
        (j, n, e, jb, je)
