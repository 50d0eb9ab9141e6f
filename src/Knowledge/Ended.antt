-- ===== src/Knowledge/Ended.antt =====
-- A build that has been published is not cancelled, and one that has been cancelled is not published.
use atlas_flow_agent.Base.{
  ℕ, String, ◌≡◌, refl, sym, ◌∙◌, subst, true, false, some, arith, ok, raise, nat_eq, string_eq,
}
use atlas_flow_agent.Base.Dict.{lookup}
use atlas_flow_agent.Knowledge.Models.{
  BuildStatus, KnowledgeSpace, KnowledgeSpaceVersion, SpaceBuild, KnowledgeError, value_error,
  option_eq, document_status_eq,
}
use atlas_flow_agent.Knowledge.Repository.{Repository}
use atlas_flow_agent.Knowledge.Builds.{
  publish_space_build, cancel_space_build, check_publish, is_published, is_called_off,
}
use atlas_flow_agent.Knowledge.Publishing.{publish_space_build-Released}
use atlas_flow_agent.Knowledge.Cancelling.{SpacesFiled, JobsFiled, cancel_space_build-Withdrawn}

-- The exception of both operations on a build that its space is not locked by
abbrev pub not_active : KnowledgeError
not_active = value_error "space build is not active"

publish_of_cancelled :
    (fresh : String) (now : ℕ) (b : SpaceBuild) (id : String) (s : KnowledgeSpace) (r : Repository)
    → lookup id r.space_builds ≡ some b
    → is_called_off b.status ≡ true
    → lookup b.space_id r.spaces ≡ some s
    → publish_space_build fresh now id r ≡ raise not_active
unfolding publish_space_build check_publish
publish_of_cancelled fresh now b id s r l t k =
    rw l (rw (cancelled_not_published b.status t) (rw k (rw t (ground arith))))
  where
    cancelled_not_published : (x : BuildStatus) → is_called_off x ≡ true → is_published x ≡ false
    cancelled_not_published BuildStatus.cancelled h = refl
    cancelled_not_published BuildStatus.published h = cc
    cancelled_not_published BuildStatus.building h = cc
    cancelled_not_published BuildStatus.ready h = cc
    cancelled_not_published BuildStatus.failed h = cc

cancel_of_published :
    (now : ℕ) (b : SpaceBuild) (id : String) (s : KnowledgeSpace) (r : Repository)
    → lookup id r.space_builds ≡ some b
    → is_published b.status ≡ true
    → lookup b.space_id r.spaces ≡ some s
    → cancel_space_build now id r ≡ raise not_active
unfolding cancel_space_build
cancel_of_published now b id s r l t k =
    rw l (rw (published_not_cancelled b.status t) (rw k (rw t (ground arith))))
  where
    published_not_cancelled : (x : BuildStatus) → is_published x ≡ true → is_called_off x ≡ false
    published_not_cancelled BuildStatus.published h = refl
    published_not_cancelled BuildStatus.cancelled h = cc
    published_not_cancelled BuildStatus.building h = cc
    published_not_cancelled BuildStatus.ready h = cc
    published_not_cancelled BuildStatus.failed h = cc

-- After a cancellation that returned, publishing the build raises, whatever the id and the time, where
-- jobs and spaces are filed under their ids.
pub publish_space_build-cancel :
    (now now' : ℕ) (fresh : String) (build b : SpaceBuild) (r r' : Repository)
    → JobsFiled r
    → SpacesFiled r
    → lookup build.id r.space_builds ≡ some build
    → is_called_off build.status ≡ false
    → cancel_space_build now build.id r ≡ ok (b, r')
    → publish_space_build fresh now' build.id r' ≡ raise not_active
publish_space_build-cancel now now' fresh build b r r' jobs spaces l n h =
    let (t, lb, e, settled, g, (s, ls, u)) =
      cancel_space_build-Withdrawn now build.id build b r r' jobs spaces l n h in
    publish_of_cancelled fresh now' b build.id s r' lb t
      (subst (λ k. lookup k r'.spaces ≡ some s) (sym e) ls)

-- After a first publication that returned, cancelling the build raises, where spaces are filed under
-- their ids.
pub cancel_space_build-publish :
    (fresh : String) (now now' : ℕ) (build : SpaceBuild) (v : KnowledgeSpaceVersion)
    (r r' : Repository)
    → SpacesFiled r
    → lookup build.id r.space_builds ≡ some build
    → is_published build.status ≡ false
    → publish_space_build fresh now build.id r ≡ ok (v, r')
    → cancel_space_build now' build.id r' ≡ raise not_active
cancel_space_build-publish fresh now now' build v r r' spaces l n h =
    let (space, generation, p, k, d, m, (s, ls, av, ag, u), (b, lb, o, t, w), g) =
      publish_space_build-Released fresh now build.id build r v r' l n h in
    let e : space.id ≡ build.space_id = spaces build.space_id space p.0 in
    cancel_of_published now' b build.id s r' lb t
      (subst (λ k. lookup k r'.spaces ≡ some s) (e ∙ sym o) ls)
