-- ===== src/Knowledge/JobParts/Changes.antt =====
-- What updating, cancelling, repairing and looking for a job in memory_repository.py read and store.
use atlas_flow_agent.Base.{
  ℕ, String, ◌≡◌, refl, subst, ◌⊎◌, inl, inr, true, false, not, ◌&&◌, Option, none, some, List, ◌∷◌,
  arith, Bool-cases, Option-cases, ok, ◌==◌, nat_eq, string_eq, In, [],
}
use atlas_flow_agent.Base.Dict.{Dict, lookup, insert}
use atlas_flow_agent.Knowledge.Models.{
  KnowledgeSpace, KnowledgeDocument, DocumentVersion, IngestionJob, IndexGeneration,
  same_option_iff, option_eq, document_status_eq,
}
use atlas_flow_agent.Knowledge.BuildChecks.{ensure_job_allowed}
use atlas_flow_agent.Knowledge.Repository.{Repository, mark_space_unversioned}
use atlas_flow_agent.Knowledge.Builds.{is_running, cancelled_job}
use atlas_flow_agent.Knowledge.Jobs.{
  update_job, cancel_job, repair_legacy_running_job, commit_document, repaired, next_pending,
  is_pending_job, wanted, same_identity, is_cancelled_job, bound_generation,
}

-- The fields of a job that say what it is for.
abbrev pub identity :
    IngestionJob → String × String × String × Option String × Option String × Option String
identity j = (
  j.space_id, j.document_id, j.version_id, j.space_build_id, j.generation_id, j.build_request_hash,
)

-- What a change of a job keeps: its identity, and that it is cancelled if it was.
abbrev pub Kept : IngestionJob → IngestionJob → Type 0
Kept before after =
    (identity after ≡ identity before)
    × (is_cancelled_job before.status ≡ true → is_cancelled_job after.status ≡ true)

pub identity_of_same : (j k : IngestionJob) → same_identity j k ≡ true → identity j ≡ identity k
identity_of_same j k h =
    let a : j.space_id ≡ k.space_id = (string_eq.same_iff _ _).0 (ground arith) in
    let b : j.document_id ≡ k.document_id = (string_eq.same_iff _ _).0 (ground arith) in
    let c : j.version_id ≡ k.version_id = (string_eq.same_iff _ _).0 (ground arith) in
    let d : j.space_build_id ≡ k.space_build_id = (same_option_iff _ _).0 (ground arith) in
    let e : j.generation_id ≡ k.generation_id = (same_option_iff _ _).0 (ground arith) in
    let f : j.build_request_hash ≡ k.build_request_hash = (same_option_iff _ _).0 (ground arith) in
    rw a (rw b (rw c (rw d (rw e (rw f refl)))))

pub update_job_parts :
    (job j latest : IngestionJob) (r r' : Repository)
    → lookup job.id r.jobs ≡ some latest
    → update_job job r ≡ ok (j, r')
    → (same_identity job latest ≡ true)
      × ((is_cancelled_job latest.status && not (is_cancelled_job job.status)) ≡ false)
      × (r' ≡ record r { jobs = insert job.id job r.jobs })
unfolding update_job ensure_job_allowed
update_job_parts job j latest r r' l h = (ground arith, ground arith, ground arith)

pub cancel_job_parts :
    (now : ℕ) (k : String) (j job : IngestionJob) (r r' : Repository)
    → lookup k r.jobs ≡ some job
    → cancel_job now k r ≡ ok (j, r')
    → (r' ≡ r) ⊎ (r' ≡ record r { jobs = insert k (cancelled_job now job) r.jobs })
unfolding cancel_job
cancel_job_parts now k j job r r' l h = elim (Bool-cases (is_cancelled_job job.status)) [
  | inl t ↦ inl (ground arith)
  | inr f ↦ inr (ground arith)
]

pub repair_parts :
    (now : ℕ) (k : String) (j job : IngestionJob) (r r' : Repository)
    → lookup k r.jobs ≡ some job
    → repair_legacy_running_job now k r ≡ ok (j, r')
    → (is_running job.status ≡ true) × (r' ≡ record r { jobs = insert k (repaired now job) r.jobs })
unfolding repair_legacy_running_job
repair_parts now k j job r r' l h = (ground arith, ground arith)

pub commit_document_jobs :
    (now : ℕ) (space : KnowledgeSpace) (job : IngestionJob) (version : DocumentVersion)
    (document : KnowledgeDocument) (r r' : Repository)
    → commit_document now space job version document r ≡ ok r'
    → r'.jobs ≡ r.jobs
unfolding mark_space_unversioned
commit_document_jobs now space job version document r r' h = ground arith

pub bound_generation_running :
    (space : KnowledgeSpace) (job : IngestionJob) (version : DocumentVersion)
    (o : Option IndexGeneration) (g : IndexGeneration)
    → bound_generation space job version o ≡ ok g
    → is_running job.status ≡ true
unfolding bound_generation
bound_generation_running space job version none g h = cc
bound_generation_running space job version (some x) g h = ground arith

pub next_pending_parts :
    (job_id : Option String) (spaces : Dict KnowledgeSpace) (js : List IngestionJob)
    (j : IngestionJob)
    → next_pending job_id spaces js ≡ ok (some j)
    → In j js
      × (is_pending_job j.status ≡ true)
      × ((s : KnowledgeSpace) × (lookup j.space_id spaces ≡ some s)
          × (j.space_build_id ≡ s.active_build_id))
unfolding next_pending
next_pending_parts job_id spaces [] j h = cc
next_pending_parts job_id spaces (x ∷ xs) j h =
    elim (Bool-cases (is_pending_job x.status && wanted job_id x.id)) [
      | inl t ↦ elim (Option-cases (lookup x.space_id spaces)) [
        | inl n ↦ absurd (ground arith)
        | inr (s, l) ↦ elim (Bool-cases (x.space_build_id == s.active_build_id)) [
          | inl u ↦ here s (ground arith) l u (ground arith)
          | inr v ↦ later (next_pending_parts job_id spaces xs j (ground arith))
        ]
      ]
      | inr f ↦ later (next_pending_parts job_id spaces xs j (rw f at h))
    ]
  where
    Claimable : List IngestionJob → Type 0
    Claimable js =
        In j js
        × (is_pending_job j.status ≡ true)
        × ((s : KnowledgeSpace) × (lookup j.space_id spaces ≡ some s)
            × (j.space_build_id ≡ s.active_build_id))

    here :
        (s : KnowledgeSpace)
        → x ≡ j
        → lookup x.space_id spaces ≡ some s
        → (x.space_build_id == s.active_build_id) ≡ true
        → is_pending_job x.status ≡ true
        → Claimable (x ∷ xs)
    here s e l u p =
        subst
          (λ y.
            In y (x ∷ xs)
            × (is_pending_job y.status ≡ true)
            × ((s : KnowledgeSpace) × (lookup y.space_id spaces ≡ some s)
                × (y.space_build_id ≡ s.active_build_id)))
          e (inl refl, p, (s, l, (same_option_iff x.space_build_id s.active_build_id).0 u))

    later : Claimable xs → Claimable (x ∷ xs)
    later (m, p, s) = (inr m, p, s)
