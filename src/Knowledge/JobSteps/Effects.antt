-- ===== src/Knowledge/JobSteps/Effects.antt =====
-- What each operation on jobs in memory_repository.py changes, if it returns.
use atlas_flow_agent.Base.{
  ℕ, String, ◌≡◌, refl, sym, ap, ◌∙◌, ◌⊎◌, inl, inr, Bool, true, false, not, ◌&&◌, Option, none,
  some, List, arith, ltb, Option-cases, ok, >>=-eq-ok, nat_eq, string_eq,
}
use atlas_flow_agent.Base.Dict.{lookup, insert, values}
use atlas_flow_agent.Base.Sorting.{sort_by}
use atlas_flow_agent.Knowledge.Models.{JobStatus, IngestionJob, option_eq, document_status_eq}
use atlas_flow_agent.Knowledge.Repository.{Repository}
use atlas_flow_agent.Base.Sorting.{In-sort_by}
use atlas_flow_agent.Knowledge.Builds.{is_running, cancelled_job}
use atlas_flow_agent.Knowledge.Jobs.{
  update_job, cancel_job, repair_legacy_running_job, complete_ingestion_job, claim_job,
  claim_pending, claimed_job, completed_job, repaired, next_pending, is_pending_job, same_identity,
  is_cancelled_job,
}
use atlas_flow_agent.Knowledge.JobParts.{
  identity, Kept, identity_of_same, update_job_parts, cancel_job_parts, repair_parts,
  next_pending_parts, complete_parts,
}
use atlas_flow_agent.Knowledge.Filing.{Filed, Filed-In, Filed-lookup}

-- One change of a job in the repository by an operation that returned.
pub data JobStep (r : Repository) : Repository → Type 0 where
  update : (job j : IngestionJob) (r' : Repository) → update_job job r ≡ ok (j, r') → JobStep r r'
  cancel :
      (now : ℕ) (k : String) (j : IngestionJob) (r' : Repository)
      → cancel_job now k r ≡ ok (j, r')
      → JobStep r r'
  repair :
      (now : ℕ) (k : String) (j : IngestionJob) (r' : Repository)
      → repair_legacy_running_job now k r ≡ ok (j, r')
      → JobStep r r'
  complete :
      (now : ℕ) (k : String) (j : IngestionJob) (r' : Repository)
      → complete_ingestion_job now k r ≡ ok (j, r')
      → JobStep r r'
  claim :
      (now : ℕ) (k : Option String) (j : Option IngestionJob) (r' : Repository)
      → claim_job now k r ≡ ok (j, r')
      → JobStep r r'

pub data JobSteps : Repository → Repository → Type 0 where
  done : (r : Repository) → JobSteps r r
  step : (r s t : Repository) → JobStep r s → JobSteps s t → JobSteps r t

-- An operation that stores one job under the key where it read one.
abbrev Touches : String → IngestionJob → IngestionJob → Repository → Repository → Type 0
Touches k before after r r' =
    (lookup k r.jobs ≡ some before)
    × (after.id ≡ k)
    × Kept before after
    × (r'.jobs ≡ insert k after r.jobs)

-- An operation either changes no job or one of them.
abbrev pub Effect : Repository → Repository → Type 0
Effect r r' =
    (r'.jobs ≡ r.jobs)
    ⊎ ((k : String) × (before : IngestionJob) × (after : IngestionJob) × Touches k before after r
          r')

pub update-Effect :
    (job j : IngestionJob) (r r' : Repository) → update_job job r ≡ ok (j, r') → Effect r r'
unfolding update_job
update-Effect job j r r' h = elim (Option-cases (lookup job.id r.jobs)) [
  | inl n ↦ absurd (ground arith)
  | inr (latest, l) ↦
      inr (job.id, latest, job, touched latest l (update_job_parts job j latest r r' l h))
]
  where
    touched :
        (latest : IngestionJob)
        → lookup job.id r.jobs ≡ some latest
        → (same_identity job latest ≡ true)
          × ((is_cancelled_job latest.status && not (is_cancelled_job job.status)) ≡ false)
          × (r' ≡ record r { jobs = insert job.id job r.jobs })
        → Touches job.id latest job r r'
    touched latest l (s, c, e) =
        (l, refl, (identity_of_same job latest s, λ t. ground arith), ap (λ x. x.jobs) e)

-- A job that is stored with another status only, and is cancelled if it was, under the key it was read.
restored :
    (k : String) (before after : IngestionJob) (r r' : Repository)
    → Filed (λ (j : IngestionJob). j.id) r.jobs
    → lookup k r.jobs ≡ some before
    → after.id ≡ before.id
    → identity after ≡ identity before
    → (is_cancelled_job before.status ≡ true → is_cancelled_job after.status ≡ true)
    → r'.jobs ≡ insert k after r.jobs
    → Effect r r'
restored k before after r r' f l i e c j = inr (
  k,
  before,
  after,
  (l, i ∙ Filed-lookup (λ (j : IngestionJob). j.id) r.jobs k before f l, (e, c), j),
)

running_not_cancelled : (s : JobStatus) → is_running s ≡ true → is_cancelled_job s ≡ false
running_not_cancelled s h = ground arith

pending_not_cancelled : (s : JobStatus) → is_pending_job s ≡ true → is_cancelled_job s ≡ false
pending_not_cancelled s h = ground arith

vacuous : {A : Type 0} {b : Bool} → b ≡ false → b ≡ true → A
vacuous e f = absurd (cc)

pub cancel-Effect :
    (now : ℕ) (k : String) (j : IngestionJob) (r r' : Repository)
    → Filed (λ (j : IngestionJob). j.id) r.jobs
    → cancel_job now k r ≡ ok (j, r')
    → Effect r r'
unfolding cancel_job
cancel-Effect now k j r r' f h = elim (Option-cases (lookup k r.jobs)) [
  | inl n ↦ absurd (ground arith)
  | inr (job, l) ↦ elim (cancel_job_parts now k j job r r' l h) [
    | inl e ↦ inl (ap (λ x. x.jobs) e)
    | inr e ↦
        restored k job (cancelled_job now job) r r' f l refl refl (λ _. refl) (ap (λ x. x.jobs) e)
  ]
]

pub repair-Effect :
    (now : ℕ) (k : String) (j : IngestionJob) (r r' : Repository)
    → Filed (λ (j : IngestionJob). j.id) r.jobs
    → repair_legacy_running_job now k r ≡ ok (j, r')
    → Effect r r'
unfolding repair_legacy_running_job
repair-Effect now k j r r' f h = elim (Option-cases (lookup k r.jobs)) [
  | inl n ↦ absurd (ground arith)
  | inr (job, l) ↦
      let (run, e) = repair_parts now k j job r r' l h in
      restored k job (repaired now job) r r' f l refl refl
        (vacuous (running_not_cancelled job.status run)) (ap (λ x. x.jobs) e)
]

pub complete-Effect :
    (now : ℕ) (k : String) (j : IngestionJob) (r r' : Repository)
    → Filed (λ (j : IngestionJob). j.id) r.jobs
    → complete_ingestion_job now k r ≡ ok (j, r')
    → Effect r r'
unfolding complete_ingestion_job
complete-Effect now k j r r' f h = elim (Option-cases (lookup k r.jobs)) [
  | inl n ↦ absurd (ground arith)
  | inr (job, l) ↦ elim (complete_parts now k j job r r' l h) [
    | inl e ↦ inl (ap (λ x. x.jobs) e)
    | inr (run, e) ↦
        restored k job (completed_job now job) r r' f l refl refl
          (vacuous (running_not_cancelled job.status run)) e
  ]
]

-- The jobs in the order in which they are claimed
abbrev pub by_age : Repository → List IngestionJob
by_age r = sort_by (λ x y. ltb x.created_at y.created_at) (values r.jobs)

pub claim_job_parts :
    (now : ℕ) (k : Option String) (o : Option IngestionJob) (r r' : Repository)
    → claim_job now k r ≡ ok (o, r')
    → (pending : Option IngestionJob) × (next_pending k r.spaces (by_age r) ≡ ok pending)
      × (◌≡◌ {A = Option IngestionJob × Repository} (claim_pending now pending r) (o, r'))
unfolding claim_job
claim_job_parts now k o r r' h =
    let (pending, p, e) =
      >>=-eq-ok (next_pending k r.spaces (by_age r)) (λ x. ok (claim_pending now x r)) h in
    (pending, p, cc)

pub claim-Effect :
    (now : ℕ) (k : Option String) (o : Option IngestionJob) (r r' : Repository)
    → Filed (λ (j : IngestionJob). j.id) r.jobs
    → claim_job now k r ≡ ok (o, r')
    → Effect r r'
claim-Effect now k o r r' f h =
    let (pending, p, e) = claim_job_parts now k o r r' h in claimed pending p e
  where
    claimed :
        (pending : Option IngestionJob)
        → next_pending k r.spaces (by_age r) ≡ ok pending
        → ◌≡◌ {A = Option IngestionJob × Repository} (claim_pending now pending r) (o, r')
        → Effect r r'
    claimed none p e = inl (ap (λ x. x.1.jobs) (sym e))
    claimed (some j) p e =
        let (m, s, a) = next_pending_parts k r.spaces (by_age r) j p in
        let l : lookup j.id r.jobs ≡ some j =
          Filed-In (λ (j : IngestionJob). j.id) r.jobs j f
            (In-sort_by (λ x y. ltb x.created_at y.created_at) (values r.jobs) j m) in
        restored j.id j (claimed_job now j) r r' f l refl refl
          (vacuous (pending_not_cancelled j.status s)) (ap (λ x. x.1.jobs) (sym e))
