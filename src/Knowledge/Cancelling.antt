-- ===== src/Knowledge/Cancelling.antt =====
-- What cancelling a build of a whole space does, and that a build which has ended stays so.
mod Jobs
unfoldable pub use Jobs.*
use atlas_flow_agent.Base.{
  ℕ, String, ◌≡◌, refl, sym, ap, ◌∙◌, subst, ◌⊎◌, inl, inr, true, false, not, ◌||◌, none, some,
  List, ◌∷◌, map, arith, if◌then◌else◌, Bool-cases, Outcome, ok, ◌>>=◌, raise_if, raise_if-eq-ok,
  >>=-eq-ok, ◌==◌, nat_eq, string_eq, any, In, [], ◌>>◌,
}
use atlas_flow_agent.Base.Dict.{Dict, lookup, insert, lookup-insert}
use atlas_flow_agent.Knowledge.Models.{
  GenerationStatus, KnowledgeSpace, IngestionJob, IndexGeneration, SpaceBuild, KnowledgeError,
  value_error, option_eq, document_status_eq,
}
use atlas_flow_agent.Knowledge.Repository.{Repository, require, require_all}
use atlas_flow_agent.Knowledge.Builds.{
  cancel_space_build, is_published, is_called_off, is_running, is_settled, cancelled_job,
  cancel_jobs, withdraw, called_off, cancel_new,
}
use atlas_flow_agent.Knowledge.Publishing.{found-eq-ok, lookup-insert_self}

-- Values are filed under their ids.
abbrev pub JobsFiled : Repository → Type 0
JobsFiled r = (k : String) (j : IngestionJob) → lookup k r.jobs ≡ some j → j.id ≡ k

abbrev pub SpacesFiled : Repository → Type 0
SpacesFiled r = (k : String) (s : KnowledgeSpace) → lookup k r.spaces ≡ some s → s.id ≡ k

-- What cancelling reads, where it returns.
abbrev Cancellable :
    SpaceBuild → Repository → KnowledgeSpace → List IngestionJob → IndexGeneration → Type 0
Cancellable build r space js generation =
    (lookup build.space_id r.spaces ≡ some space)
    × ((not (space.active_build_id == some build.id) || is_published build.status) ≡ false)
    × (require_all (map some build.job_ids) r.jobs ≡ ok js)
    × (any (λ j. is_running j.status) js ≡ false)
    × (lookup build.generation_id r.generations ≡ some generation)

cancel_new_parts :
    (now : ℕ) (build : SpaceBuild) (r : Repository) (b : SpaceBuild) (r' : Repository)
    → cancel_new now build r ≡ ok (b, r')
    → (space : KnowledgeSpace) × (js : List IngestionJob) × (generation : IndexGeneration)
      × Cancellable build r space js generation
      × (called_off now build ≡ b)
      × (withdraw now space build generation js r ≡ r')
cancel_new_parts now build r b r' h =
    let (space, l, h1) = >>=-eq-ok (require build.space_id r.spaces) from_space h in
    let (t, h2) = raise_if-eq-ok _ _ (read_jobs space) h1 in
    let (js, a, h3) =
      >>=-eq-ok (require_all (map some build.job_ids) r.jobs) (from_jobs space) h2 in
    let (u, h4) = raise_if-eq-ok _ _ (read_generation space js) h3 in
    let (generation, g, e) =
      >>=-eq-ok (require build.generation_id r.generations) (λ g. ok (made space js g)) h4 in
    let same : ◌≡◌ {A = SpaceBuild × Repository} (made space js generation) (b, r') = cc in
    (
      space,
      js,
      generation,
      (
        found-eq-ok build.space_id (lookup build.space_id r.spaces) l,
        t,
        a,
        u,
        found-eq-ok build.generation_id (lookup build.generation_id r.generations) g,
      ),
      ap (λ x. x.0) same,
      ap (λ x. x.1) same,
    )
  where
    made : KnowledgeSpace → List IngestionJob → IndexGeneration → SpaceBuild × Repository
    made space js g = (called_off now build, withdraw now space build g js r)

    read_generation :
        KnowledgeSpace → List IngestionJob → Outcome KnowledgeError (SpaceBuild × Repository)
    read_generation space js = do
      g ← require build.generation_id r.generations
      ok (made space js g)

    from_jobs :
        KnowledgeSpace → List IngestionJob → Outcome KnowledgeError (SpaceBuild × Repository)
    from_jobs space js = do
      raise_if (any (λ j. is_running j.status) js)
          (value_error "space build has running jobs; wait until they finish before cancelling")
      read_generation space js

    read_jobs : KnowledgeSpace → Outcome KnowledgeError (SpaceBuild × Repository)
    read_jobs space = require_all (map some build.job_ids) r.jobs >>= from_jobs space

    from_space : KnowledgeSpace → Outcome KnowledgeError (SpaceBuild × Repository)
    from_space space = do
      raise_if (not (space.active_build_id == some build.id) || is_published build.status)
          (value_error "space build is not active")
      read_jobs space

abbrev pub Withdrawn : SpaceBuild → SpaceBuild → Repository → Type 0
Withdrawn build b after =
    (is_called_off b.status ≡ true)
    × (lookup build.id after.space_builds ≡ some b)
    × (b.space_id ≡ build.space_id)
    × ((k : String) → In k build.job_ids → Settled after.jobs k)
    × ((g : IndexGeneration) × (lookup build.generation_id after.generations ≡ some g)
        × (g.status ≡ GenerationStatus.retired))
    × ((s : KnowledgeSpace) × (lookup build.space_id after.spaces ≡ some s)
        × (s.active_build_id ≡ none))

withdraw_jobs :
    (now : ℕ) (build : SpaceBuild) (r : Repository) (js : List IngestionJob)
    → JobsFiled r
    → require_all (map some build.job_ids) r.jobs ≡ ok js
    → (k : String) → In k build.job_ids
    → Settled (cancel_jobs now js r.jobs) k
withdraw_jobs now build r js filed a k m =
    let (j, n, l) = require_all-In k build.job_ids r.jobs js a m in
    let e : j.id ≡ k = filed k j l in
    subst (Settled (cancel_jobs now js r.jobs)) e (cancel_jobs-In now js r.jobs j n (inl (rw e l)))

withdrawn :
    (now : ℕ) (build : SpaceBuild) (r : Repository) (space : KnowledgeSpace)
    (js : List IngestionJob) (generation : IndexGeneration)
    → JobsFiled r
    → space.id ≡ build.space_id
    → Cancellable build r space js generation
    → Withdrawn build (called_off now build) (withdraw now space build generation js r)
unfolding withdraw
withdrawn now build r space js generation filed e c = (
  refl,
  lookup-insert_self build.id _ r.space_builds,
  refl,
  withdraw_jobs now build r js filed c.2,
  (_, lookup-insert_self build.generation_id _ r.generations, refl),
  (
    unlocked,
    subst (λ k. lookup k (insert space.id unlocked r.spaces) ≡ some unlocked) e
        (lookup-insert_self space.id unlocked r.spaces),
    refl,
  ),
)
  where
    unlocked : KnowledgeSpace
    unlocked = record space { active_build_id = none; updated_at = now }

cancel_of_new :
    (now : ℕ) (build_id : String) (build : SpaceBuild) (r : Repository)
    → lookup build_id r.space_builds ≡ some build
    → is_called_off build.status ≡ false
    → cancel_space_build now build_id r ≡ cancel_new now build r
unfolding cancel_space_build
cancel_of_new now build_id build r l n = rw l (rw n refl)

-- Where the cancellation of a build that is not yet cancelled returns, jobs and spaces being filed
-- under their ids: each job that the build names is completed or cancelled, the generation of the
-- build is retired, its space is unlocked, and the build is stored as cancelled.
pub cancel_space_build-Withdrawn :
    (now : ℕ) (build_id : String) (build b : SpaceBuild) (r r' : Repository)
    → JobsFiled r
    → SpacesFiled r
    → lookup build_id r.space_builds ≡ some build
    → is_called_off build.status ≡ false
    → cancel_space_build now build_id r ≡ ok (b, r')
    → Withdrawn build b r'
cancel_space_build-Withdrawn now build_id build b r r' filed spaces l n h =
    let (space, js, generation, c, e, e') =
      cancel_new_parts now build r b r' (sym (cancel_of_new now build_id build r l n) ∙ h) in
    subst (λ x. Withdrawn build x r') e
      (subst (Withdrawn build (called_off now build)) e'
        (withdrawn now build r space js generation filed (spaces build.space_id space c.0) c))
