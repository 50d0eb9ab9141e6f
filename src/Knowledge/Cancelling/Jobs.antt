-- ===== src/Knowledge/Cancelling/Jobs.antt =====
-- What cancelling the jobs of a build in memory_repository.py leaves under their keys.
use atlas_flow_agent.Base.{
  ℕ, String, ◌≡◌, refl, subst, ◌⊎◌, inl, inr, true, some, List, ◌∷◌, map, arith, if◌then◌else◌,
  Bool-cases, ok, ◌>>=◌, >>=-eq-ok, ◌==◌, nat_eq, string_eq, In, [],
}
use atlas_flow_agent.Base.Dict.{Dict, lookup, insert, lookup-insert}
use atlas_flow_agent.Knowledge.Models.{IngestionJob, option_eq, document_status_eq}
use atlas_flow_agent.Knowledge.Repository.{require, require_all}
use atlas_flow_agent.Knowledge.Builds.{is_settled, cancelled_job, cancel_jobs}
use atlas_flow_agent.Knowledge.Publishing.{found-eq-ok, lookup-insert_self}

-- The job under a key has ended.
abbrev pub Settled : Dict IngestionJob → String → Type 0
Settled jobs k = (j : IngestionJob) × (lookup k jobs ≡ some j) × (is_settled j.status ≡ true)

insert-Settled :
    (now : ℕ) (j : IngestionJob) (jobs : Dict IngestionJob) (k : String)
    → Settled jobs k
    → Settled (insert j.id (cancelled_job now j) jobs) k
insert-Settled now j jobs k (i, l, t) = elim (Bool-cases (j.id == k)) [
  | inl e ↦
      (cancelled_job now j, ground (arith, lookup-insert j.id k (cancelled_job now j) jobs), refl)
  | inr f ↦ (i, ground (arith, lookup-insert j.id k (cancelled_job now j) jobs), t)
]

step_jobs : ℕ → IngestionJob → Dict IngestionJob → Dict IngestionJob
step_jobs now j jobs = if is_settled j.status then jobs else insert j.id (cancelled_job now j) jobs

step_jobs-Settled :
    (now : ℕ) (j : IngestionJob) (jobs : Dict IngestionJob) (k : String)
    → Settled jobs k
    → Settled (step_jobs now j jobs) k
unfolding step_jobs
step_jobs-Settled now j jobs k s = elim (Bool-cases (is_settled j.status)) [
  | inl t ↦ rw t s
  | inr f ↦ rw f (insert-Settled now j jobs k s)
]

cancel_jobs-Settled :
    (now : ℕ) (js : List IngestionJob) (jobs : Dict IngestionJob) (k : String)
    → Settled jobs k
    → Settled (cancel_jobs now js jobs) k
unfolding cancel_jobs step_jobs
cancel_jobs-Settled now [] jobs k s = s
cancel_jobs-Settled now (j ∷ js) jobs k s =
    cancel_jobs-Settled now js (step_jobs now j jobs) k (step_jobs-Settled now j jobs k s)

-- The job is as it was read, or has ended since.
abbrev Fresh : Dict IngestionJob → IngestionJob → Type 0
Fresh jobs j = (lookup j.id jobs ≡ some j) ⊎ Settled jobs j.id

step_jobs_self :
    (now : ℕ) (j : IngestionJob) (jobs : Dict IngestionJob)
    → Fresh jobs j
    → Settled (step_jobs now j jobs) j.id
unfolding step_jobs
step_jobs_self now j jobs h = elim (Bool-cases (is_settled j.status)) [
  | inl t ↦ rw t (elim h [ inl l ↦ (j, l, t) | inr s ↦ s ])
  | inr f ↦ rw f (cancelled_job now j, lookup-insert_self j.id _ jobs, refl)
]

step_jobs-Fresh :
    (now : ℕ) (i j : IngestionJob) (jobs : Dict IngestionJob)
    → Fresh jobs j
    → Fresh (step_jobs now i jobs) j
unfolding step_jobs
step_jobs-Fresh now i j jobs (inr s) = inr (step_jobs-Settled now i jobs j.id s)
step_jobs-Fresh now i j jobs (inl l) = elim (Bool-cases (is_settled i.status)) [
  | inl t ↦ rw t (inl l)
  | inr f ↦ rw f (elim (Bool-cases (i.id == j.id)) [
    | inl e ↦ inr (
      cancelled_job now i,
      ground (arith, lookup-insert i.id j.id (cancelled_job now i) jobs),
      refl,
    )
    | inr g ↦ inl (ground (arith, lookup-insert i.id j.id (cancelled_job now i) jobs))
  ])
]

pub cancel_jobs-In :
    (now : ℕ) (js : List IngestionJob) (jobs : Dict IngestionJob) (j : IngestionJob)
    → In j js
    → Fresh jobs j
    → Settled (cancel_jobs now js jobs) j.id
unfolding cancel_jobs step_jobs
cancel_jobs-In now [] jobs j m h = absurd m
cancel_jobs-In now (i ∷ js) jobs j (inl e) h =
    cancel_jobs-Settled now js (step_jobs now i jobs) j.id
      (subst (λ x. Settled (step_jobs now x jobs) j.id) e (step_jobs_self now j jobs h))
cancel_jobs-In now (i ∷ js) jobs j (inr m) h =
    cancel_jobs-In now js (step_jobs now i jobs) j m (step_jobs-Fresh now i j jobs h)

-- What is required of a list of keys is read for each of them.
pub require_all-In :
    {V : Type 0} (k : String) (ks : List String) (d : Dict V) (vs : List V)
    → require_all (map some ks) d ≡ ok vs
    → In k ks
    → (v : V) × In v vs × (lookup k d ≡ some v)
unfolding require_all
require_all-In k [] d vs h m = absurd m
require_all-In {V} k (j ∷ ks) d vs h m =
    let (w, l, h1) =
      >>=-eq-ok (require j d) (λ w. require_all (map some ks) d >>= λ ws. ok (w ∷ ws)) h in
    let (ws, a, h2) = >>=-eq-ok (require_all (map some ks) d) (λ ws. ok (w ∷ ws)) h1 in
    let same : ◌≡◌ {A = List V} (w ∷ ws) vs = cc in
    subst (λ us. (v : V) × In v us × (lookup k d ≡ some v)) same
      (elim m [
        | inl e ↦ (w, inl refl, rw e (found-eq-ok j (lookup j d) l))
        | inr n ↦ deeper w ws (require_all-In k ks d ws a n)
      ])
  where
    deeper :
        (w : V) (ws : List V)
        → (v : V) × In v ws × (lookup k d ≡ some v)
        → (v : V) × In v (w ∷ ws) × (lookup k d ≡ some v)
    deeper w ws (v, n, l) = (v, inr n, l)
