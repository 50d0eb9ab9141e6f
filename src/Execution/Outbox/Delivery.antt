-- ===== src/Execution/Outbox/Delivery.antt =====
-- Delivery in backend/src/atlasflow/execution/runtime.py: what a flush hands to the store.
use atlas_flow_agent.Base.{
  String, ◌≡◌, refl, sym, ap, ◌∙◌, subst, ◌≢◌, ◌⊎◌, inl, inr, Bool, true, false, not, ◌&&◌, ◌||◌,
  List, ◌∷◌, map, arith, ltb, Bool-cases, false_of_not, &&_elim, ◌==◌, nat_eq, string_eq, contains,
  distinct, eq_cases, contains-head, contains-tail, In, [],
}
use atlas_flow_agent.Base.Dict.{Dict, adjust}
use atlas_flow_agent.Base.Sorting.{In-sort_by, sort_by-In}
use atlas_flow_agent.Execution.Bundle.{Envelope, RunBundle}
use atlas_flow_agent.Execution.Claims.{is_barred}
use atlas_flow_agent.Execution.Outbox.{sort_by_order, mark_delivered, deliver, flush}

module _ {V : Type 0} where
  abbrev pub keys : Dict (Envelope V) → List String
  keys d = map (λ (x : String × Envelope V). x.0) d

  -- The event would still be handed to the store.
  abbrev is_pending : Bool → Envelope V → Bool
  is_pending stopped e = not (e.delivered || stopped && is_barred e.patch.status)

  sort_by_order-In :
      (x : String × Envelope V) (es : List (String × Envelope V))
      → (In x (sort_by_order es) → In x es) × (In x es → In x (sort_by_order es))
  unfolding sort_by_order
  sort_by_order-In x es = (
    In-sort_by (λ e f. ltb e.1.order f.1.order) es x,
    sort_by-In (λ e f. ltb e.1.order f.1.order) es x,
  )

  keys-adjust :
      (k : String) (f : Envelope V → Envelope V) (d : Dict (Envelope V))
      → keys (adjust k f d) ≡ keys d
  unfolding adjust
  keys-adjust k f [] = refl
  keys-adjust k f ((j, w) ∷ d) = ground (arith, keys-adjust k f d)

  keys-In :
      (k : String) (e : Envelope V) (d : Dict (Envelope V))
      → In (k, e) d
      → contains (keys d) k ≡ true
  keys-In k e [] m = absurd m
  keys-In k e ((j, w) ∷ d) (inl p) =
      subst (λ i. contains (j ∷ keys d) i ≡ true) (sym (ap (λ (x : String × Envelope V). x.0) p))
        (contains-head j (keys d))
  keys-In k e ((j, w) ∷ d) (inr m) = contains-tail j k (keys d) (keys-In k e d m)

  -- An entry after an update is the updated one or one under another key.
  adjust-In :
      (k j : String) (f : Envelope V → Envelope V) (e : Envelope V) (d : Dict (Envelope V))
      → distinct (keys d) ≡ true
      → In (j, e) (adjust k f d)
      → ((w : Envelope V) × (e ≡ f w)) ⊎ ((j ≢ k) × In (j, e) d)
  unfolding adjust distinct
  adjust-In k j f e [] u m = absurd m
  adjust-In k j f e ((i, w) ∷ d) u m =
      let (alone, rest) = &&_elim _ _ u in
      elim (eq_cases i k) [
        | inl (same, t) ↦ hit same (ground arith) (rw t at m)
        | inr other ↦ missed other (adjust-In k j f e d rest) (rw other at m)
      ]
    where
      hit :
          i ≡ k
          → contains (keys d) i ≡ false
          → In (j, e) ((i, f w) ∷ d)
          → ((v : Envelope V) × (e ≡ f v)) ⊎ ((j ≢ k) × In (j, e) ((i, w) ∷ d))
      hit same alone (inl p) = inl (w, ap (λ (x : String × Envelope V). x.1) p)
      hit same alone (inr n) = inr (
        λ q. cc (keys-In j e d n, subst (λ x. contains (keys d) x ≡ false) (same ∙ sym q) alone),
        inr n,
      )

      missed :
          (i == k) ≡ false
          → (In (j, e) (adjust k f d) → ((v : Envelope V) × (e ≡ f v)) ⊎ ((j ≢ k) × In (j, e) d))
          → In (j, e) ((i, w) ∷ adjust k f d)
          → ((v : Envelope V) × (e ≡ f v)) ⊎ ((j ≢ k) × In (j, e) ((i, w) ∷ d))
      missed other deeper (inl p) =
          let here : j ≡ i = ap (λ (x : String × Envelope V). x.0) p in
          inr (λ q. ground (arith, (string_eq.same_iff i k).1 (sym here ∙ q)), inl p)
      missed other deeper (inr n) = elim (deeper n) [
        | inl done ↦ inl done
        | inr (q, n') ↦ inr (q, inr n')
      ]

  -- Each entry of the box that is still pending is among those to come.
  abbrev AllQueued : Bool → List (String × Envelope V) → Dict (Envelope V) → Type 0
  AllQueued stopped es box =
      (k : String) (e : Envelope V) → In (k, e) box → is_pending stopped e ≡ true → In (k, e) es

  deliver_skip :
      (stopped : Bool) (k : String) (e : Envelope V) (es : List (String × Envelope V))
      (box : Dict (Envelope V))
      → is_pending stopped e ≡ false
      → deliver stopped ((k, e) ∷ es) box ≡ deliver stopped es box
  unfolding deliver
  deliver_skip stopped k e es box h = ground arith

  deliver_send :
      (stopped : Bool) (k : String) (e : Envelope V) (es : List (String × Envelope V))
      (box : Dict (Envelope V))
      → is_pending stopped e ≡ true
      → deliver stopped ((k, e) ∷ es) box ≡ (
        (e.event, e.patch) ∷ (deliver stopped es (adjust k mark_delivered box)).0,
        (deliver stopped es (adjust k mark_delivered box)).1,
      )
  unfolding deliver
  deliver_send stopped k e es box h = ground arith

  -- Nothing that is pending is left in the box after the loop.
  deliver_empties :
      (stopped : Bool) (es : List (String × Envelope V)) (box : Dict (Envelope V))
      → distinct (keys box) ≡ true
      → AllQueued stopped es box
      → AllQueued stopped [] (deliver stopped es box).1
  unfolding deliver
  deliver_empties stopped [] box u queued = queued
  deliver_empties stopped ((j, w) ∷ es) box u queued = elim (Bool-cases (is_pending stopped w)) [
    | inr settled ↦
        subst (λ r. AllQueued stopped [] r.1) (sym (deliver_skip stopped j w es box settled))
          (deliver_empties stopped es box u (λ k e m p. skipped settled k e p (queued k e m p)))
    | inl waiting ↦
        subst (λ r. AllQueued stopped [] r.1) (sym (deliver_send stopped j w es box waiting))
          (deliver_empties stopped es (adjust j mark_delivered box)
            (rw (keys-adjust j mark_delivered box) u) sent)
  ]
    where
      skipped :
          is_pending stopped w ≡ false
          → (k : String) (e : Envelope V) → is_pending stopped e ≡ true
          → In (k, e) ((j, w) ∷ es)
          → In (k, e) es
      skipped settled k e p (inr m) = m
      skipped settled k e p (inl q) =
          let same : e ≡ w = ap (λ (x : String × Envelope V). x.1) q in
          absurd (cc (subst (λ x. is_pending stopped x ≡ true) same p, settled))

      sent : AllQueued stopped es (adjust j mark_delivered box)
      sent k e m p = elim (adjust-In j k mark_delivered e box u m) [
        | inl (v, done) ↦
            let marked : is_pending stopped (mark_delivered v) ≡ true =
              subst (λ x. is_pending stopped x ≡ true) done p in
            absurd (ground arith)
        | inr (other, n) ↦ elim (queued k e n p) [
          | inl q ↦ absurd (other (ap (λ (x : String × Envelope V). x.0) q))
          | inr later ↦ later
        ]
      ]

  deliver_nothing :
      (stopped : Bool) (es : List (String × Envelope V)) (box : Dict (Envelope V))
      → AllQueued stopped [] es
      → (deliver stopped es box).0 ≡ []
  unfolding deliver
  deliver_nothing stopped [] box h = refl
  deliver_nothing stopped ((j, w) ∷ es) box h =
      let settled : is_pending stopped w ≡ false = false_of_not (λ t. h j w (inl refl) t) in
      ap (λ r. r.0) (deliver_skip stopped j w es box settled)
      ∙ deliver_nothing stopped es box (λ k e m p. h k e (inr m) p)

module _ {P V : Type 0} where
  -- After a flush nothing is left to hand to the store: a second flush hands out no event, if each
  -- event id stands once in the outbox.
  pub flush_again :
      (b : RunBundle P V) → distinct (keys b.outbox) ≡ true → (flush (flush b).1).0 ≡ []
  unfolding flush
  flush_again b unique = elim (Bool-cases b.control.deleted) [
    | inl gone ↦ rw gone refl
    | inr live ↦ rw live (
        deliver_nothing b.control.cancel_requested (sort_by_order after) after
          (λ k e m p. emptied k e ((sort_by_order-In (k, e) after).0 m) p))
  ]
    where
      after : Dict (Envelope V)
      after = (deliver b.control.cancel_requested (sort_by_order b.outbox) b.outbox).1

      emptied : AllQueued b.control.cancel_requested [] after
      emptied =
          deliver_empties b.control.cancel_requested (sort_by_order b.outbox) b.outbox unique
            (λ k e m p. (sort_by_order-In (k, e) b.outbox).1 m)
