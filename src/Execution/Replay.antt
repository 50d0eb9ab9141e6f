-- ===== src/Execution/Replay.antt =====
-- Replay in backend/src/atlasflow/execution/runtime.py: the answer to a repeated call.
use atlas_flow_agent.Base.{
  ℕ, ◌≤◌, String, ◌≡◌, refl, Bool, true, false, not, ◌&&◌, ◌||◌, none, some, List, ◌∷◌, ◌++◌, arith,
  ok, All, ◌==◌, nat_eq, string_eq, ==_refl, length, any, keep, [],
}
use mathlib.Core.List.{reverse, reverse-append}
use atlas_flow_agent.Base.Dict.{Dict, lookup, insert, adjust, values}
use atlas_flow_agent.Base.Sorting.{sort_by-last}
use atlas_flow_agent.Execution.Bundle.{
  ExecutionClaim, Invocation, InvocationLease, RunBundle, is_succeeded,
}
use atlas_flow_agent.Execution.Claims.{assert_claim}
use atlas_flow_agent.Execution.Journal.{
  BeginRequest, sort_by_attempt, matches_of, input_changed, find_replay, new_invocation, reserve,
  begin_invocation, confirm, confirmed,
}
use atlas_flow_agent.Execution.Fencing.{update_invocation_parts}

module _ {V : Type 0} where
  abbrev at_slot : String → Dict (Invocation V) → List (Invocation V)
  at_slot s d = keep (λ i. i.slot == s) (values d)

  -- A new entry stands last among those of its slot, also after an update of it.
  at_slot-adjust-insert :
      (s k : String) (i : Invocation V) (f : Invocation V → Invocation V) (d : Dict (Invocation V))
      → lookup k d ≡ none
      → ((f i).slot == s) ≡ true
      → at_slot s (adjust k f (insert k i d)) ≡ at_slot s d ++ f i ∷ []
  unfolding lookup insert adjust keep
  at_slot-adjust-insert s k i f [] new same = ground (arith, ==_refl k)
  at_slot-adjust-insert s k i f ((j, w) ∷ d) new same =
      ground (arith, at_slot-adjust-insert s k i f d)

  -- No attempt is later than the given number.
  abbrev pub UpTo : ℕ → List (Invocation V) → Type 0
  UpTo n = All (λ i. i.attempt ≤ n)

  matches_of-adjust-insert :
      (s k : String) (i : Invocation V) (f : Invocation V → Invocation V) (d : Dict (Invocation V))
      → lookup k d ≡ none
      → ((f i).slot == s) ≡ true
      → UpTo (f i).attempt (at_slot s d)
      → matches_of s (adjust k f (insert k i d)) ≡ matches_of s d ++ f i ∷ []
  unfolding matches_of sort_by_attempt
  matches_of-adjust-insert s k i f d new same early = rw (
    at_slot-adjust-insert s k i f d new same,
    sort_by-last (λ j. j.attempt) (f i) (at_slot s d) early,
  )

  any-last :
      (p : Invocation V → Bool) (xs : List (Invocation V)) (x : Invocation V)
      → any p (xs ++ x ∷ []) ≡ (any p xs || p x)
  unfolding any
  any-last p [] x = ground arith
  any-last p (y ∷ ys) x = ground (arith, any-last p ys x)

  input_changed-last :
      (r : BeginRequest) (xs : List (Invocation V)) (x : Invocation V)
      → input_changed r xs ≡ false
      → x.input_hash ≡ r.input_hash
      → input_changed r (xs ++ x ∷ []) ≡ false
  unfolding input_changed
  input_changed-last r xs x h e = ground (
    arith,
    any-last (λ i. not (i.input_hash == r.input_hash)) xs x,
    string_eq.same_iff x.input_hash r.input_hash,
  )

  reverse-last :
      (xs : List (Invocation V)) (x : Invocation V) → reverse (xs ++ x ∷ []) ≡ x ∷ reverse xs
  reverse-last xs x = reverse-append xs (x ∷ [])

  find_replay-last :
      (h : String) (xs : List (Invocation V)) (x : Invocation V)
      → x.input_hash ≡ h
      → (is_succeeded x.status && x.replayable) ≡ true
      → find_replay h (reverse (xs ++ x ∷ [])) ≡ ok (some x)
  unfolding find_replay
  find_replay-last h xs x e done =
      rw reverse-last (ground (arith, string_eq.same_iff x.input_hash h))

  -- The lease that answers a call from the journal.
  abbrev pub replay_lease : BeginRequest → V → InvocationLease V
  replay_lease r v = record {
    run_id = r.claim.run_id;
    invocation_id = r.invocation_id;
    slot = r.slot;
    claim = r.claim;
    replay = some v;
    replayed = true;
  }

module _ {P V : Type 0} where
  abbrev attempts : BeginRequest → RunBundle P V → List (Invocation V)
  attempts r b = matches_of r.slot b.invocations

  -- What a call that was not replayed has done to the bundle.
  begin_new_parts :
      (r : BeginRequest) (lease : InvocationLease V) (b c : RunBundle P V)
      → begin_invocation r b ≡ ok (lease, c)
      → lease.replayed ≡ false
      → (input_changed r (attempts r b) ≡ false)
        × (c.invocations
            ≡ insert r.invocation_id (new_invocation r (length (attempts r b))) b.invocations)
        × (lease.claim ≡ r.claim)
        × (lease.invocation_id ≡ r.invocation_id)
  unfolding begin_invocation reserve
  begin_new_parts r lease b c h new = ground arith

  begin_replayed :
      (r : BeginRequest) (x : Invocation V) (v : V) (d : RunBundle P V)
      → assert_claim d r.claim ≡ ok tt
      → input_changed r (attempts r d) ≡ false
      → find_replay r.input_hash (reverse (attempts r d)) ≡ ok (some x)
      → x.result ≡ some v
      → begin_invocation r d ≡ ok (record (replay_lease r v) { invocation_id = x.id }, d)
  unfolding begin_invocation
  begin_replayed r x v d live same found result = rw (live, same, found) (ground arith)

  still_current :
      (c d : RunBundle P V) (claim by : ExecutionClaim) (changed : Dict (Invocation V))
      → by ≡ claim
      → assert_claim c by ≡ ok tt
      → d ≡ record c { invocations = changed }
      → assert_claim d claim ≡ ok tt
  unfolding assert_claim
  still_current c d claim by changed same live e = rw (e, ← same) live

  -- A call that was begun as a replayable one and confirmed is answered from the journal when the
  -- same owner begins it again with the same input: it gets the confirmed result, and the bundle,
  -- the tool budget in it, stays as it is. Earlier attempts at the slot may have failed; they are
  -- numbered below the new one, as the journal numbers them.
  pub confirm-replays :
      (r : BeginRequest) (lease : InvocationLease V) (v : V) (b c d : RunBundle P V) (id : String)
      (now : ℕ)
      → lookup r.invocation_id b.invocations ≡ none
      → UpTo
          (length (matches_of r.slot b.invocations))
          (keep (λ i. i.slot == r.slot) (values b.invocations))
      → r.replayable ≡ true
      → begin_invocation r b ≡ ok (lease, c)
      → lease.replayed ≡ false
      → confirm lease v none c ≡ ok d
      → begin_invocation (record r { invocation_id = id; created_at = now }) d
        ≡ ok (replay_lease r v, d)
  unfolding confirm input_changed
  confirm-replays r lease v b c d id now new early replayable h fresh done =
      let (unchanged, stored, by, named) = begin_new_parts r lease b c h fresh in
      let (live, e) = update_invocation_parts lease (confirmed v none) c d done in
      let n = length (attempts r b) in
      let x : Invocation V = confirmed v none (new_invocation r n) in
      let again : BeginRequest = record r { invocation_id = id; created_at = now } in
      let journal : d.invocations
          ≡ adjust r.invocation_id (confirmed v none)
              (insert r.invocation_id (new_invocation r n) b.invocations) =
        ground arith in
      let all_attempts : attempts r d ≡ attempts r b ++ x ∷ [] = rw journal (
        matches_of-adjust-insert r.slot r.invocation_id (new_invocation r n) (confirmed v none)
          b.invocations new (==_refl r.slot) early) in
      begin_replayed again x v d
        (still_current c d r.claim lease.claim
          (adjust lease.invocation_id (confirmed v none) c.invocations) by live e)
        (rw all_attempts (input_changed-last again (attempts r b) x unchanged refl))
        (rw all_attempts (find_replay-last r.input_hash (attempts r b) x refl (rw replayable))) refl
