-- ===== src/Knowledge/Tests.antt =====
-- Runs of the knowledge base's operations on a small repository.
use atlas_flow_agent.Base.{
  String, ◌≡◌, refl, ap, subst, inl, inr, true, false, none, some, List, ◌∷◌, arith, ok, raise,
  for_each, nat_eq, string_eq, contains, subset, eq_cases, dedup, any, all, keep, is_blank,
  distinct, [],
}
use atlas_flow_agent.Base.Dict.{lookup, insert, adjust, map_values}
use atlas_flow_agent.Base.Sorting.{sort_by}
use atlas_flow_agent.Knowledge.Models.{
  VersionStatus, JobStatus, GenerationStatus, KnowledgeSpace, DocumentVersion, IngestionJob,
  IndexGeneration, KnowledgeSpaceVersion, option_eq, document_status_eq,
}
use atlas_flow_agent.Knowledge.BuildChecks.{
  collect, same_documents, validate_build_baseline, validate_build_targets, active_targets,
}
use atlas_flow_agent.Knowledge.BuildContents.{validate_build_chunks}
use atlas_flow_agent.Knowledge.Repository.{Repository, require_all, documents_of, next_number}
use atlas_flow_agent.Knowledge.Builds.{
  publish_space_build, cancel_space_build, check_publish, release, snapshot, cancel_jobs, withdraw,
  called_off, release_documents,
}
use atlas_flow_agent.Knowledge.Samples.{indexed, waiting, build, space, generation, base, job, dv}
use atlas_flow_agent.Knowledge.Publishing.{publish_space_build_again}
use atlas_flow_agent.Knowledge.Cancelling.{
  cancel_space_build-Withdrawn, Withdrawn, JobsFiled, SpacesFiled,
}
use atlas_flow_agent.Knowledge.Ended.{publish_space_build-cancel, not_active}
use atlas_flow_agent.Knowledge.Locking.{Change, Changes, Changes-keep_locked}
use atlas_flow_agent.Knowledge.Released.{Published, publish_space_build-Published}
use atlas_flow_agent.Knowledge.Targets.{validate_build_targets-TargetsFit, TargetsFit}
use atlas_flow_agent.Knowledge.Activation.{Switch, Switched, Switch-OneActive}
use atlas_flow_agent.Knowledge.JobSteps.{JobStep, JobSteps, JobSteps-Kept}
use atlas_flow_agent.Knowledge.JobParts.{Kept}
use atlas_flow_agent.Knowledge.Filing.{Filed-lookup}
use atlas_flow_agent.Base.Sorting.{insert_stable}
use atlas_flow_agent.Knowledge.Repository.{Repository}
use atlas_flow_agent.Knowledge.Versions.{update_space_version, is_active_generation}
use atlas_flow_agent.Knowledge.Jobs.{next_pending}
use atlas_flow_agent.Knowledge.BuildChecks.{
  baseline_changed, check_target, check_generation, check_counts, check_version, check_job,
}
use atlas_flow_agent.Knowledge.BuildContents.{check_children, is_complete_child, dimensions_of}
use atlas_flow_agent.Knowledge.Jobs.{claim_job, claimed_job}

-- What the tests run.
unfoldable program : Unit {0}
unfolding publish_space_build cancel_space_build check_publish release withdraw release_documents
    cancel_jobs distinct lookup insert adjust map_values collect any all keep contains subset dedup
    for_each documents_of next_number require_all validate_build_baseline baseline_changed
    same_documents check_target validate_build_targets check_generation check_counts check_version
    check_job active_targets validate_build_chunks check_children is_complete_child dimensions_of
    claim_job next_pending sort_by insert_stable is_blank
program = tt

abbrev new_generation : IndexGeneration
new_generation = generation "g1" GenerationStatus.building

abbrev new_version : KnowledgeSpaceVersion
new_version = snapshot "v9" 50 space build new_generation indexed

abbrev published : Repository
published = release "v9" 50 space build new_generation indexed

publishes : publish_space_build "v9" 50 "b1" indexed ≡ ok (new_version, published)
unfolding program
publishes = refl

publish_space_build-Published_example : Published build new_version indexed published 50
unfolding program
publish_space_build-Published_example =
    publish_space_build-Published "v9" 50 "b1" build indexed new_version published refl refl refl
      publishes

publish_space_build_again_example :
    publish_space_build "v10" 60 "b1" published ≡ ok (new_version, published)
unfolding program
publish_space_build_again_example =
    publish_space_build_again "v9" "v10" 50 60 build indexed new_version published refl refl refl
      publishes

waiting-JobsFiled : JobsFiled waiting
unfolding program
waiting-JobsFiled k j l =
    Filed-lookup (λ (x : IngestionJob). x.id) waiting.jobs k j (refl, refl, tt) l

waiting-SpacesFiled : SpacesFiled waiting
unfolding program
waiting-SpacesFiled k s l =
    Filed-lookup (λ (x : KnowledgeSpace). x.id) waiting.spaces k s (refl, refl, tt) l

abbrev withdrawn : Repository
withdrawn = withdraw 50 space build new_generation (job JobStatus.queued ∷ []) waiting

cancels : cancel_space_build 50 "b1" waiting ≡ ok (called_off 50 build, withdrawn)
unfolding program
cancels = refl

cancel_space_build-Withdrawn_example : Withdrawn build (called_off 50 build) withdrawn
unfolding program
cancel_space_build-Withdrawn_example =
    cancel_space_build-Withdrawn 50 "b1" build (called_off 50 build) waiting withdrawn
      waiting-JobsFiled waiting-SpacesFiled refl refl cancels

publish_space_build-cancel_example : publish_space_build "v9" 60 "b1" withdrawn ≡ raise not_active
unfolding program
publish_space_build-cancel_example =
    publish_space_build-cancel 50 60 "v9" build (called_off 50 build) waiting withdrawn
      waiting-JobsFiled waiting-SpacesFiled refl refl cancels

abbrev noted : Repository
noted = record waiting { space_versions = insert "v0" base waiting.space_versions }

Changes-keep_locked_example : lookup "s" noted.spaces ≡ some space
unfolding program update_space_version
Changes-keep_locked_example =
    Changes-keep_locked waiting noted "s" space waiting-SpacesFiled refl refl (
      Changes.change waiting noted noted (Change.version_noted base base noted refl)
        (Changes.done noted))

abbrev new_versions : List DocumentVersion
new_versions = dv "dv1" VersionStatus.ready ∷ []

abbrev done_jobs : List IngestionJob
done_jobs = job JobStatus.completed ∷ []

validate_build_targets-TargetsFit_example :
    TargetsFit build new_generation new_versions done_jobs true
unfolding program
validate_build_targets-TargetsFit_example =
    validate_build_targets-TargetsFit build new_generation new_versions done_jobs true refl

one_active_in_indexed :
    (t k : String) (g : IndexGeneration) (s : KnowledgeSpace)
    → lookup k indexed.generations ≡ some g
    → g.space_id ≡ t
    → is_active_generation g.status ≡ true
    → lookup t indexed.spaces ≡ some s
    → s.active_generation_id ≡ some k
unfolding program
one_active_in_indexed t k g s lg es act ls = elim (eq_cases "g0" k) [
  | inl (p, q) ↦ elim (eq_cases "s" t) [
    | inl (u, v) ↦
        let same : space ≡ s = ground arith in
        subst (λ x. x.active_generation_id ≡ some k) same (ap some p)
    | inr v ↦ absurd (ground arith)
  ]
  | inr q ↦ elim (eq_cases "g1" k) [
    | inl (u, v) ↦
        let same : generation "g1" GenerationStatus.building ≡ g = ground arith in
        absurd (idle (ap (λ x. is_active_generation x.status) same))
    | inr v ↦ absurd (ground arith)
  ]
]
  where
    idle : false ≡ is_active_generation g.status → ⊥
    idle e = ground arith

Switch-OneActive_example : Switched indexed published
unfolding program
Switch-OneActive_example =
    Switch-OneActive indexed published
      (λ k s l. Filed-lookup (λ (x : KnowledgeSpace). x.id) indexed.spaces k s (refl, refl, tt) l)
      (λ k g l.
        Filed-lookup (λ (x : IndexGeneration). x.id) indexed.generations k g
          (refl, refl, (refl, refl, tt)) l)
      (λ t. record { only = one_active_in_indexed t })
      (Switch.publish "v9" 50 "b1" build new_version published refl refl publishes)

abbrev claimed : Repository
claimed = record waiting { jobs = ("j1", claimed_job 50 (job JobStatus.queued)) ∷ [] }

claims : claim_job 50 none waiting ≡ ok (some (claimed_job 50 (job JobStatus.queued)), claimed)
unfolding program
claims = refl

JobSteps-Kept_example :
    (after : IngestionJob) × (lookup "j1" claimed.jobs ≡ some after)
    × Kept (job JobStatus.queued) after
unfolding program
JobSteps-Kept_example =
    JobSteps-Kept waiting claimed "j1" (job JobStatus.queued) (refl, refl, tt) refl
      (JobSteps.step waiting claimed claimed
        (JobStep.claim 50 none (some (claimed_job 50 (job JobStatus.queued))) claimed claims)
        (JobSteps.done claimed))
