-- ===== src/Knowledge/JobParts.antt =====
-- What each operation on a job reads and stores where it returns.
mod Changes
unfoldable pub use Changes.*
use atlas_flow_agent.Base.{
  ℕ, String, ◌≡◌, refl, sym, ap, ◌∙◌, subst, ◌⊎◌, inl, inr, true, false, not, ◌&&◌, Option, none,
  some, List, ◌∷◌, map, arith, Bool-cases, Option-cases, Outcome, ok, ◌>>=◌, >>=-eq-ok, ◌==◌,
  nat_eq, string_eq, length, In, [], ◌>>◌,
}
use atlas_flow_agent.Base.Dict.{Dict, lookup, insert, values}
use atlas_flow_agent.Knowledge.Models.{
  KnowledgeSpace, KnowledgeDocument, DocumentVersion, IngestionJob, IndexGeneration, KnowledgeError,
  same_option_iff, option_eq, document_status_eq,
}
use atlas_flow_agent.Knowledge.BuildChecks.{ensure_job_allowed}
use atlas_flow_agent.Knowledge.BuildContents.{validate_vectors}
use atlas_flow_agent.Knowledge.Repository.{Repository, require, mark_space_unversioned}
use atlas_flow_agent.Knowledge.Builds.{is_running, cancelled_job}
use atlas_flow_agent.Knowledge.Jobs.{
  update_job, cancel_job, repair_legacy_running_job, complete_ingestion_job, commit_job,
  commit_document, completed_job, ready_version, repaired, next_pending, is_pending_job, wanted,
  same_identity, is_cancelled_job, is_completed, bound_generation, get_generation,
  committed_children,
}
use atlas_flow_agent.Knowledge.Generations.{vector_of, observed}

-- What completing a job that is not completed reads and stores.
commit_job_parts :
    (now : ℕ) (k : String) (job j : IngestionJob) (r r' : Repository)
    → commit_job now k job r ≡ ok (j, r')
    → (is_running job.status ≡ true) × (r'.jobs ≡ insert k (completed_job now job) r.jobs)
unfolding commit_job
commit_job_parts now k job j r r' h =
    let (space, l, h1) = >>=-eq-ok (require job.space_id r.spaces) from_space h in
    let (_, u, h2) = >>=-eq-ok (ensure_job_allowed space job) (λ _. from_lock space) h1 in
    let (version, v, h3) = >>=-eq-ok (require job.version_id r.versions) (from_version space) h2 in
    let (document, d, h4) =
      >>=-eq-ok (require job.document_id r.documents) (from_document space version) h3 in
    let (generation, g, h5) =
      >>=-eq-ok (bound_generation space job version (get_generation job.generation_id r))
        (from_generation space version document) h4 in
    let (size, z, h6) =
      >>=-eq-ok (sizes version generation) (λ _. stored space version document) h5 in
    let (after, a, e) =
      >>=-eq-ok (committed space version document) (λ after. ok (made after)) h6 in
    let same : ◌≡◌ {A = IngestionJob × Repository} (made after) (j, r') = cc in
    (
      bound_generation_running space job version (get_generation job.generation_id r) generation g,
      ap (λ x. x.1.jobs) (sym same)
          ∙ ap (insert k (completed_job now job))
              (commit_document_jobs now space job version document (marked version) after a),
    )
  where
    made : Repository → IngestionJob × Repository
    made after =
        (completed_job now job, record after { jobs = insert k (completed_job now job) after.jobs })

    marked : DocumentVersion → Repository
    marked version = record r {
      versions = insert version.id (ready_version now version) r.versions;
    }

    committed :
        KnowledgeSpace → DocumentVersion → KnowledgeDocument → Outcome KnowledgeError Repository
    committed space version document =
        commit_document now space job version document (marked version)

    stored :
        KnowledgeSpace
        → DocumentVersion
        → KnowledgeDocument
        → Outcome KnowledgeError (IngestionJob × Repository)
    stored space version document = do after ← committed space version document; ok (made after)

    sizes : DocumentVersion → IndexGeneration → Outcome KnowledgeError ℕ
    sizes version generation =
        validate_vectors
          (map (λ c. vector_of c.embedding)
            (committed_children version generation (values r.chunks)))
          (length (committed_children version generation (values r.chunks)))
          (observed generation.build_spec)

    from_generation :
        KnowledgeSpace
        → DocumentVersion
        → KnowledgeDocument
        → IndexGeneration
        → Outcome KnowledgeError (IngestionJob × Repository)
    from_generation space version document generation = do
      size ← sizes version generation
      stored space version document

    from_document :
        KnowledgeSpace
        → DocumentVersion
        → KnowledgeDocument
        → Outcome KnowledgeError (IngestionJob × Repository)
    from_document space version document = do
      generation ← bound_generation space job version (get_generation job.generation_id r)
      from_generation space version document generation

    from_version :
        KnowledgeSpace → DocumentVersion → Outcome KnowledgeError (IngestionJob × Repository)
    from_version space version = require job.document_id r.documents >>= from_document space version

    from_lock : KnowledgeSpace → Outcome KnowledgeError (IngestionJob × Repository)
    from_lock space = require job.version_id r.versions >>= from_version space

    from_space : KnowledgeSpace → Outcome KnowledgeError (IngestionJob × Repository)
    from_space space = do ensure_job_allowed space job; from_lock space

pub complete_parts :
    (now : ℕ) (k : String) (j job : IngestionJob) (r r' : Repository)
    → lookup k r.jobs ≡ some job
    → complete_ingestion_job now k r ≡ ok (j, r')
    → (r' ≡ r)
      ⊎ ((is_running job.status ≡ true) × (r'.jobs ≡ insert k (completed_job now job) r.jobs))
unfolding complete_ingestion_job
complete_parts now k j job r r' l h = elim (Bool-cases (is_completed job.status)) [
  | inl t ↦ inl (ground arith)
  | inr f ↦ inr (commit_job_parts now k job j r r' (ground arith))
]
