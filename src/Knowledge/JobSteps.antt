-- ===== src/Knowledge/JobSteps.antt =====
-- What the operations on jobs keep: a job's identity, and that a job which was cancelled stays so.
mod Effects
unfoldable pub use Effects.*
use atlas_flow_agent.Base.{
  ℕ, String, ◌≡◌, refl, sym, ap, ◌∙◌, subst, ◌⊎◌, inl, inr, Bool, true, false, not, ◌&&◌, Option,
  none, some, List, arith, ltb, Option-cases, ok, >>=-eq-ok, nat_eq, string_eq, eq_cases,
}
use atlas_flow_agent.Base.Dict.{lookup, insert, values, lookup-insert}
use atlas_flow_agent.Base.Sorting.{sort_by}
use atlas_flow_agent.Knowledge.Models.{JobStatus, IngestionJob, option_eq, document_status_eq}
use atlas_flow_agent.Knowledge.Repository.{Repository}
use atlas_flow_agent.Base.Sorting.{In-sort_by}
use atlas_flow_agent.Knowledge.Builds.{is_running, cancelled_job}
use atlas_flow_agent.Knowledge.Jobs.{
  update_job, cancel_job, repair_legacy_running_job, complete_ingestion_job, claim_job,
  claim_pending, claimed_job, completed_job, repaired, next_pending, is_pending_job, same_identity,
  is_cancelled_job,
}
use atlas_flow_agent.Knowledge.JobParts.{
  identity, Kept, identity_of_same, update_job_parts, cancel_job_parts, repair_parts,
  next_pending_parts, complete_parts,
}
use atlas_flow_agent.Knowledge.Filing.{Filed, insert-Filed, Filed-In, Filed-lookup}

JobStep-Effect :
    (r r' : Repository) → Filed (λ (j : IngestionJob). j.id) r.jobs → JobStep r r' → Effect r r'
JobStep-Effect r _ f (JobStep.update job j r' h) = update-Effect job j r r' h
JobStep-Effect r _ f (JobStep.cancel now k j r' h) = cancel-Effect now k j r r' f h
JobStep-Effect r _ f (JobStep.repair now k j r' h) = repair-Effect now k j r r' f h
JobStep-Effect r _ f (JobStep.complete now k j r' h) = complete-Effect now k j r r' f h
JobStep-Effect r _ f (JobStep.claim now k j r' h) = claim-Effect now k j r r' f h

-- The job under a key after a change.
abbrev Survives : String → IngestionJob → Repository → Type 0
Survives k before r = (after : IngestionJob) × (lookup k r.jobs ≡ some after) × Kept before after

Effect-Filed :
    (r r' : Repository)
    → Filed (λ (j : IngestionJob). j.id) r.jobs
    → Effect r r'
    → Filed (λ (j : IngestionJob). j.id) r'.jobs
Effect-Filed r r' f (inl e) = subst (Filed (λ (j : IngestionJob). j.id)) (sym e) f
Effect-Filed r r' f (inr (k, before, after, (l, i, kept, e))) =
    subst (Filed (λ (j : IngestionJob). j.id)) (sym e)
      (insert-Filed (λ (j : IngestionJob). j.id) k after r.jobs i f)

Effect-Survives :
    (r r' : Repository) (k : String) (j : IngestionJob)
    → Effect r r'
    → lookup k r.jobs ≡ some j
    → Survives k j r'
Effect-Survives r r' k j (inl e) l = (j, subst (λ d. lookup k d ≡ some j) (sym e) l, (refl, λ t. t))
Effect-Survives r r' k j (inr (i, before, after, (lb, n, kept, e))) l =
    subst (λ d. (x : IngestionJob) × (lookup k d ≡ some x) × Kept j x) (sym e)
      (elim (eq_cases i k) [
        | inl (p, q) ↦ (
          after,
          ground (arith, lookup-insert i k after r.jobs),
          subst (λ x. Kept x after) (same_job p) kept,
        )
        | inr q ↦ (j, ground (arith, lookup-insert i k after r.jobs), (refl, λ t. t))
      ])
  where
    same_job : i ≡ k → before ≡ j
    same_job p = two (subst (λ x. lookup x r.jobs ≡ some before) p lb)
      where
        two : lookup k r.jobs ≡ some before → before ≡ j
        two h = cc

-- In a repository whose jobs are filed under their ids, a job that is there stays there through any
-- updates, cancellations, repairs, completions and claims that return, with the same space, document,
-- version, build, generation and request hash, and once it is cancelled it stays cancelled.
pub JobSteps-Kept :
    (r r' : Repository) (k : String) (j : IngestionJob)
    → Filed (λ (j : IngestionJob). j.id) r.jobs
    → lookup k r.jobs ≡ some j
    → JobSteps r r'
    → (after : IngestionJob) × (lookup k r'.jobs ≡ some after) × Kept j after
JobSteps-Kept r _ k j f l (JobSteps.done _) = (j, l, (refl, λ t. t))
JobSteps-Kept r r' k j f l (JobSteps.step _ s _ first rest) =
    let effect = JobStep-Effect r s f first in
    let (i, li, (ei, ci)) = Effect-Survives r s k j effect l in
    let (x, lx, (ex, cx)) = JobSteps-Kept s r' k i (Effect-Filed r s f effect) li rest in
    (x, lx, (ex ∙ ei, λ t. cx (ci t)))
