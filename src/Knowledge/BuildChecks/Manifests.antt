-- ===== src/Knowledge/BuildChecks/Manifests.antt =====
-- The dicts and sets that backend/src/atlasflow/knowledge/domain/build_validation.py is made of, and
-- the manifests that it compares.
use atlas_flow_agent.Base.{
  String, ◌≡◌, refl, ap, ◌↔◌, Bool, true, false, ◌&&◌, Option, none, some, List, ◌∷◌, arith, eqb,
  &&_elim, Keyed, ◌==◌, nat_eq, string_eq, subset, length, all, [],
}
use atlas_flow_agent.Base.Dict.{Dict, lookup, insert}
use atlas_flow_agent.Knowledge.Models.{
  KnowledgeDocument, SpaceDocumentState, option_eq, document_status_eq,
}

-- `{key(x): x for x in xs}`, on top of the entries there are
unfoldable pub collect : {A : Type 0} → (A → String) → Dict A → List A → Dict A
unfolding insert
collect key found [] = found
collect key found (x ∷ xs) = collect key (insert (key x) x found) xs

abbrev pub index_by : {A : Type 0} → (A → String) → List A → Dict A
index_by key xs = collect key [] xs

-- `list(d)`
abbrev pub keys : {V : Type 0} → Dict V → List String
keys [] = []
keys ((k, v) ∷ d) = k ∷ keys d

-- `set(xs) == set(ys)`
abbrev pub same_set : {A : Type 0} ⦃e : Keyed A⦄ → List A → List A → Bool
same_set xs ys = subset xs ys && subset ys xs

-- Pairs are compared by their parts.
abbrev pub same_pair : {A B : Type 0} ⦃e : Keyed A⦄ ⦃f : Keyed B⦄ → A × B → A × B → Bool
same_pair p q = p.0 == q.0 && p.1 == q.1

pub same_pair_iff :
    {A B : Type 0} ⦃e : Keyed A⦄ ⦃f : Keyed B⦄ (p q : A × B) → (same_pair p q ≡ true) ↔ (p ≡ q)
same_pair_iff {A} {B} ⦃e⦄ ⦃f⦄ (a, b) (c, d) = (
  λ h.
      let (t, u) = &&_elim _ _ h in
      let p : a ≡ c = (e.same_iff a c).0 t in
      let q : b ≡ d = (f.same_iff b d).0 u in rw p (rw q refl),
  same_parts,
)
  where
    same_parts : ◌≡◌ {A = A × B} (a, b) (c, d) → (a == c && b == d) ≡ true
    same_parts h =
        let p : a ≡ c = ap (λ x. x.0) h in
        let q : b ≡ d = ap (λ x. x.1) h in
        ground (arith, (e.same_iff a c).1 p, (f.same_iff b d).1 q)

instance abbrev pub pair_eq : {A B : Type 0} ⦃e : Keyed A⦄ ⦃f : Keyed B⦄ → Keyed (A × B)
pair_eq = record { same = same_pair; same_iff = same_pair_iff }

abbrev pub same_state : SpaceDocumentState → SpaceDocumentState → Bool
same_state s t = s.version_id == t.version_id && s.status == t.status

abbrev pub state_is : Option SpaceDocumentState → SpaceDocumentState → Bool
state_is none s = false
state_is (some t) s = same_state t s

-- `==` on two manifests
unfoldable pub same_documents : Dict SpaceDocumentState → Dict SpaceDocumentState → Bool
unfolding all
same_documents d e =
    eqb (length d) (length e) && all (λ entry. state_is (lookup entry.0 e) entry.1) d

abbrev pub state_of : KnowledgeDocument → SpaceDocumentState
state_of doc = record { version_id = doc.current_version_id; status = doc.status }

abbrev pub collect_states :
    Dict SpaceDocumentState → List KnowledgeDocument → Dict SpaceDocumentState
collect_states found [] = found
collect_states found (doc ∷ docs) = collect_states (insert doc.id (state_of doc) found) docs

-- The manifest that the documents of a space are in now.
abbrev pub current_states : List KnowledgeDocument → Dict SpaceDocumentState
current_states docs = collect_states [] docs
