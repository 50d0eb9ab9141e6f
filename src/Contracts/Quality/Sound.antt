-- ===== src/Contracts/Quality/Sound.antt =====
-- What a quality decision satisfies once it is accepted, and once it may be acted upon.
use atlas_flow_agent.Base.{
  ◌≤◌, String, ◌≡◌, refl, ◌≢◌, inl, inr, true, false, List, ◌∷◌, arith, ok, nat_eq, string_eq,
  is_empty, any, In, any-In, has_content, [],
}
use atlas_flow_agent.Contracts.Critique.{ReviewIssue, Severity, is_critical}
use atlas_flow_agent.Contracts.Quality.{
  QualityRoute, QualityDecision, quality_fields_ok, has_critical, validate_for_execution,
  validate_acceptance_threshold, validate_quality,
}

-- What each route of a decision needs.
abbrev pub QualityIsActionable : QualityDecision → QualityRoute → Type 0
QualityIsActionable d QualityRoute.accept =
    (50 ≤ d.score)
    × (d.score ≤ 100)
    × ((i : ReviewIssue) → In i d.issues → i.severity ≢ Severity.critical)
QualityIsActionable d QualityRoute.revise =
    (d.issues ≢ [])
    × ((instruction : String) × In instruction d.revision_instructions
        × (has_content instruction ≡ true))
QualityIsActionable d QualityRoute.replan =
    (i : ReviewIssue) × In i d.issues × (i.severity ≡ Severity.critical)

quality_parts :
    (d e f : QualityDecision)
    → validate_quality d ≡ ok e
    → validate_for_execution e ≡ ok f
    → (f ≡ d)
      × (d.score ≤ 100)
      × (d.decision ≡ QualityRoute.accept → (50 ≤ d.score) × (has_critical d.issues ≡ false))
      × (d.decision ≡ QualityRoute.revise
          → (is_empty d.issues ≡ false) × (any has_content d.revision_instructions ≡ true))
      × (d.decision ≡ QualityRoute.replan → has_critical d.issues ≡ true)
unfolding validate_quality validate_for_execution validate_acceptance_threshold quality_fields_ok
quality_parts d e f h k = ground arith

no_critical :
    (issues : List ReviewIssue) (i : ReviewIssue)
    → has_critical issues ≡ false
    → In i issues
    → i.severity ≢ Severity.critical
unfolding any
no_critical [] i h m = absurd m
no_critical (x ∷ xs) i h (inl e) = λ c. ground arith
no_critical (x ∷ xs) i h (inr m) = no_critical xs i (ground arith) m

some_critical :
    (issues : List ReviewIssue)
    → has_critical issues ≡ true
    → (i : ReviewIssue) × In i issues × (i.severity ≡ Severity.critical)
some_critical issues h =
    let (i, m, c) = any-In (λ (x : ReviewIssue). is_critical x.severity) issues h in
    (i, m, ground arith)

-- A quality decision that is built and then accepted for execution is unchanged. Acceptance has a
-- score of 50 to 100 and no critical issue, a revision has an issue and an instruction that is not
-- blank, and a replan has a critical issue.
pub validate_quality-QualityIsActionable :
    (d e f : QualityDecision)
    → validate_quality d ≡ ok e
    → validate_for_execution e ≡ ok f
    → (f ≡ d) × QualityIsActionable d d.decision
validate_quality-QualityIsActionable d e f h k =
    ((quality_parts d e f h k).0, by_route d.decision refl)
  where
    by_route : (r : QualityRoute) → d.decision ≡ r → QualityIsActionable d r
    by_route QualityRoute.accept a =
        let (_, bounded, accept, _, _) = quality_parts d e f h k in
        ((accept a).0, bounded, λ i m. no_critical d.issues i (accept a).1 m)
    by_route QualityRoute.revise r =
        let (_, _, _, revise, _) = quality_parts d e f h k in
        let (s, m, c) = any-In has_content d.revision_instructions (revise r).1 in
        (λ e. ground (arith, revise r), (s, m, c))
    by_route QualityRoute.replan r =
        let (_, _, _, _, replan) = quality_parts d e f h k in some_critical d.issues (replan r)
