-- ===== src/Knowledge/Filing.antt =====
-- Dicts whose values are filed under their own ids, each key once, as the repository keeps them.
use atlas_flow_agent.Knowledge.Models.{option_eq, document_status_eq}
use atlas_flow_agent.Base.{
  String, ◌≡◌, refl, sym, ap, ◌∙◌, subst, inl, inr, none, some, ◌∷◌, arith, nat_eq, string_eq,
  eq_cases, In, [],
}
use atlas_flow_agent.Base.Dict.{Dict, lookup, insert, values, lookup-insert}

module _ {V : Type 0} (id_of : V → String) where
  abbrev pub Filed : Dict V → Type 0
  Filed [] = Unit
  Filed ((k, v) ∷ d) = (id_of v ≡ k) × (lookup k d ≡ none) × Filed d

  pub insert-Filed :
      (k : String) (v : V) (d : Dict V) → id_of v ≡ k → Filed d → Filed (insert k v d)
  unfolding insert lookup
  insert-Filed k v [] e f = (e, refl, tt)
  insert-Filed k v ((j, w) ∷ d) e (g, n, f) = elim (eq_cases j k) [
    | inl (p, q) ↦ rw q (e ∙ sym p, n, f)
    | inr q ↦ rw q (
      g,
      ground (arith, lookup-insert k j v d, string_eq.same_iff j k, string_eq.same_iff k j),
      insert-Filed k v d e f,
    )
  ]

  pub Filed-In : (d : Dict V) (v : V) → Filed d → In v (values d) → lookup (id_of v) d ≡ some v
  unfolding lookup
  Filed-In [] v f m = absurd m
  Filed-In ((k, w) ∷ d) v (g, n, f) (inl e) =
      let p : k ≡ id_of v = sym (ap id_of e ∙ g) in
      rw ((string_eq.same_iff k (id_of v)).1 p) (ap some (sym e))
  Filed-In ((k, w) ∷ d) v (g, n, f) (inr m) = elim (eq_cases k (id_of v)) [
    | inl (p, q) ↦ absurd (clash (subst (λ x. lookup x d ≡ none) p n) (Filed-In d v f m))
    | inr q ↦ rw q (Filed-In d v f m)
  ]
    where
      clash : lookup (id_of v) d ≡ none → lookup (id_of v) d ≡ some v → ⊥
      clash h k = cc

  pub Filed-lookup : (d : Dict V) (k : String) (v : V) → Filed d → lookup k d ≡ some v → id_of v ≡ k
  unfolding lookup
  Filed-lookup [] k v f l = cc
  Filed-lookup ((j, w) ∷ d) k v (g, n, f) l = elim (eq_cases j k) [
    | inl (p, q) ↦ let same : w ≡ v = ground arith in sym (ap id_of same) ∙ g ∙ p
    | inr q ↦ Filed-lookup d k v f (rw q at l)
  ]
