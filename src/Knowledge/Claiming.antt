-- ===== src/Knowledge/Claiming.antt =====
-- Which job is claimed next.
use atlas_flow_agent.Base.{ℕ, ◌≤◌, String, ◌≡◌, true, Option, some, nat_eq, string_eq, In}
use atlas_flow_agent.Base.Dict.{Dict, lookup, values}
use atlas_flow_agent.Knowledge.Models.{KnowledgeSpace, IngestionJob, option_eq, document_status_eq}
use atlas_flow_agent.Knowledge.Repository.{Repository}
use atlas_flow_agent.Knowledge.Jobs.{claimed_job, is_pending_job, wanted}

-- The job waits, is asked for, and belongs to what its space works on: its active build, or no build.
abbrev pub Claimable : Option String → Dict KnowledgeSpace → IngestionJob → Type 0
Claimable job_id spaces j =
    (is_pending_job j.status ≡ true)
    × (wanted job_id j.id ≡ true)
    × ((s : KnowledgeSpace) × (lookup j.space_id spaces ≡ some s)
        × (j.space_build_id ≡ s.active_build_id))

-- What a claim has done with the job that it took.
abbrev pub Claims :
    ℕ → Option String → IngestionJob → Repository → Repository → IngestionJob → Type 0
Claims now job_id j' r r' j =
    In j (values r.jobs)
    × (is_pending_job j.status ≡ true)
    × ((s : KnowledgeSpace) × (lookup j.space_id r.spaces ≡ some s)
        × (j.space_build_id ≡ s.active_build_id))
    × (j' ≡ claimed_job now j)
    × (lookup j.id r'.jobs ≡ some j')
    × ((other : IngestionJob)
        → In other (values r.jobs)
        → Claimable job_id r.spaces other
        → j.created_at ≤ other.created_at)
