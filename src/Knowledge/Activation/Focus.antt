-- ===== src/Knowledge/Activation/Focus.antt =====
-- The lemmas on one active generation for each space of
-- backend/src/atlasflow/knowledge/infrastructure/memory_repository.py.
use atlas_flow_agent.Base.{
  String, ◌≡◌, refl, sym, ap, ◌∙◌, subst, ◌⊎◌, inl, inr, Bool, true, false, ◌&&◌, Option, none,
  some, ◌∷◌, arith, Bool-cases, ◌==◌, nat_eq, string_eq, eq_cases, [], if◌then◌else◌,
}
use atlas_flow_agent.Base.Dict.{Dict, lookup, insert, map_values, lookup-insert, lookup-map_values}
use atlas_flow_agent.Knowledge.Models.{
  GenerationStatus, KnowledgeSpace, IndexGeneration, option_eq, document_status_eq,
}
use atlas_flow_agent.Knowledge.Repository.{Repository}
use atlas_flow_agent.Knowledge.Builds.{retire_in}
use atlas_flow_agent.Knowledge.Versions.{is_active_generation}
use atlas_flow_agent.Knowledge.Publishing.{lookup-insert_self}

pub lookup-map_values_cases :
    {V : Type 0} (f : V → V) (k : String) (d : Dict V) (w : V)
    → lookup k (map_values f d) ≡ some w
    → (v : V) × (lookup k d ≡ some v) × (w ≡ f v)
unfolding lookup map_values
lookup-map_values_cases f k [] w h = cc
lookup-map_values_cases f k ((j, v) ∷ d) w h = elim (Bool-cases (j == k)) [
  | inl e ↦ (v, rw e refl, sym (some_eq (rw e at h)))
  | inr n ↦ let (u, l, e) = lookup-map_values_cases f k d w (rw n at h) in (u, rw n l, e)
]
  where
    some_eq : some (f v) ≡ some w → f v ≡ w
    some_eq h = cc

-- Each active generation of the space is the one that the space points at.
pub record OneActive (space_id : String) (r : Repository) : Type 0 where
  pub only :
      (k : String) (g : IndexGeneration) (s : KnowledgeSpace)
      → lookup k r.generations ≡ some g
      → g.space_id ≡ space_id
      → is_active_generation g.status ≡ true
      → lookup space_id r.spaces ≡ some s
      → s.active_generation_id ≡ some k

retire_in_active :
    (space_id : String) (v : IndexGeneration)
    → (retire_in space_id v).space_id ≡ space_id
    → is_active_generation (retire_in space_id v).status ≡ false
retire_in_active space_id v h =
    elim (Bool-cases (v.space_id == space_id && is_active_generation v.status)) [
      | inl t ↦ rw t refl
      | inr f ↦ rw f (inactive f (rw f at h))
    ]
  where
    inactive :
        (v.space_id == space_id && is_active_generation v.status) ≡ false
        → v.space_id ≡ space_id
        → is_active_generation v.status ≡ false
    inactive f e = ground (arith, (string_eq.same_iff v.space_id space_id).1 e)

pub retire_in_other :
    (space_id : String) (v : IndexGeneration)
    → (v.space_id == space_id) ≡ false
    → retire_in space_id v ≡ v
retire_in_other space_id v h = rw h refl

retire_in_space :
    (space_id : String) (v : IndexGeneration) → (retire_in space_id v).space_id ≡ v.space_id
retire_in_space space_id v =
    elim (Bool-cases (v.space_id == space_id && is_active_generation v.status)) [
      | inl t ↦ rw t refl
      | inr f ↦ rw f refl
    ]

-- The generation is inserted as the only active one of its space, which is pointed at it.
abbrev pub focus : String → IndexGeneration → KnowledgeSpace → Repository → Repository
focus gid g u r = record r {
  generations = insert gid g (map_values (retire_in u.id) r.generations);
  spaces = insert u.id u r.spaces;
}

-- Two lookups of the same key find the same value.
pub the_one : {V : Type 0} (o : Option V) (v w : V) → o ≡ some v → o ≡ some w → v ≡ w
the_one none v w h k = cc
the_one (some u) v w h k = cc

focus_generation :
    (gid : String) (a : IndexGeneration) (u : KnowledgeSpace) (r : Repository) (k : String)
    (g : IndexGeneration)
    → lookup k (focus gid a u r).generations ≡ some g
    → ((gid ≡ k) × (a ≡ g))
      ⊎ ((v : IndexGeneration) × (lookup k r.generations ≡ some v) × (g ≡ retire_in u.id v))
focus_generation gid a u r k g lg = elim (eq_cases gid k) [
  | inl (p, q) ↦ inl (
    p,
    the_one (lookup k (insert gid a (map_values (retire_in u.id) r.generations))) a g
        (ground (arith, lookup-insert gid k a (map_values (retire_in u.id) r.generations))) lg,
  )
  | inr n ↦ inr (
      lookup-map_values_cases (retire_in u.id) k r.generations g
        (ground (arith, lookup-insert gid k a (map_values (retire_in u.id) r.generations))))
]

focus_here :
    (gid : String) (a : IndexGeneration) (u : KnowledgeSpace) (r : Repository)
    → u.active_generation_id ≡ some gid
    → (k : String) (g : IndexGeneration) (s : KnowledgeSpace)
    → lookup k (focus gid a u r).generations ≡ some g
    → g.space_id ≡ u.id
    → is_active_generation g.status ≡ true
    → lookup u.id (focus gid a u r).spaces ≡ some s
    → s.active_generation_id ≡ some k
focus_here gid a u r eu k g s lg es act ls = elim (focus_generation gid a u r k g lg) [
  | inl (p, q) ↦
      let same : u ≡ s =
        the_one (lookup u.id (insert u.id u r.spaces)) u s (lookup-insert_self u.id u r.spaces)
          ls in
      subst (λ x. x.active_generation_id ≡ some k) same (eu ∙ ap some p)
  | inr (v, l, e) ↦ absurd (
      clash (ap (λ x. is_active_generation x.status) e)
        (retire_in_active u.id v (ap (λ x. x.space_id) (sym e) ∙ es)))
]
  where
    clash : {b : Bool} → is_active_generation g.status ≡ b → b ≡ false → ⊥
    clash e f = cc

focus_there :
    (gid : String) (a : IndexGeneration) (u : KnowledgeSpace) (r : Repository) (t : String)
    → a.space_id ≡ u.id
    → (u.id == t) ≡ false
    → OneActive t r
    → (k : String) (g : IndexGeneration) (s : KnowledgeSpace)
    → lookup k (focus gid a u r).generations ≡ some g
    → g.space_id ≡ t
    → is_active_generation g.status ≡ true
    → lookup t (focus gid a u r).spaces ≡ some s
    → s.active_generation_id ≡ some k
focus_there gid a u r t ea n old k g s lg es act ls = elim (focus_generation gid a u r k g lg) [
  | inl (p, q) ↦ absurd (apart (sym ea ∙ ap (λ x. x.space_id) q ∙ es))
  | inr (v, l, e) ↦
      let same : retire_in u.id v ≡ v =
        retire_in_other u.id v
          (elsewhere v (sym (retire_in_space u.id v) ∙ ap (λ x. x.space_id) (sym e) ∙ es)) in
      old.only k g s (subst (λ x. lookup k r.generations ≡ some x) (sym (e ∙ same)) l) es act
        (sym (lookup-insert u.id t u r.spaces ∙ rw n refl) ∙ ls)
]
  where
    apart : u.id ≡ t → ⊥
    apart e = ground (arith, (string_eq.same_iff u.id t).1 e)

    elsewhere : (v : IndexGeneration) → v.space_id ≡ t → (v.space_id == u.id) ≡ false
    elsewhere v e = elim (eq_cases v.space_id u.id) [
      | inl (p, q) ↦ absurd (apart (sym p ∙ e))
      | inr f ↦ f
    ]

pub focus-OneActive :
    (gid : String) (a : IndexGeneration) (u : KnowledgeSpace) (r : Repository)
    → a.space_id ≡ u.id
    → u.active_generation_id ≡ some gid
    → ((t : String) → OneActive t r)
    → (t : String) → OneActive t (focus gid a u r)
focus-OneActive gid a u r ea eu old t = elim (eq_cases u.id t) [
  | inl (p, q) ↦
      subst (λ x. OneActive x (focus gid a u r)) p (record { only = focus_here gid a u r eu })
  | inr n ↦ record { only = focus_there gid a u r t ea n (old t) }
]

-- The active generation of the space `u` is now the one that is chosen, if it is there. Nothing else
-- has changed among the generations of other spaces and among the other spaces.
pub record Focused (u : String) (chosen : Option String) (r r' : Repository) : Type 0 where
  pub others :
      (k : String) (g : IndexGeneration)
      → lookup k r.generations ≡ some g
      → (g.space_id == u) ≡ false
      → lookup k r'.generations ≡ some g
  pub retired :
      (k : String) (g : IndexGeneration)
      → lookup k r.generations ≡ some g
      → g.space_id ≡ u
      → is_active_generation g.status ≡ true
      → (chosen == some k) ≡ false
      → lookup k r'.generations ≡ some (record g { status = GenerationStatus.retired })
  pub active :
      (k : String) (g : IndexGeneration)
      → lookup k r.generations ≡ some g
      → g.space_id ≡ u
      → chosen ≡ some k
      → (h : IndexGeneration) × (lookup k r'.generations ≡ some h)
        × (is_active_generation h.status ≡ true)
  pub pointed :
      (s : KnowledgeSpace) × (lookup u r'.spaces ≡ some s) × (s.active_generation_id ≡ chosen)
  pub elsewhere : (t : String) → (u == t) ≡ false → lookup t r'.spaces ≡ lookup t r.spaces

retire_in_here :
    (u : String) (g : IndexGeneration)
    → g.space_id ≡ u
    → is_active_generation g.status ≡ true
    → retire_in u g ≡ record g { status = GenerationStatus.retired }
retire_in_here u g e act = rw ((string_eq.same_iff g.space_id u).1 e, act) refl

some_other : (gid k : String) → (some gid == some k) ≡ false → (gid == k) ≡ false
some_other gid k h = h

module _ (gid : String) (a sel : IndexGeneration) (u : KnowledgeSpace) (r : Repository)
    (found : lookup gid r.generations ≡ some sel) (home : sel.space_id ≡ u.id)
    (active : is_active_generation a.status ≡ true) where
  focus_at :
      (k : String) (g : IndexGeneration)
      → lookup k r.generations ≡ some g
      → (gid == k) ≡ false
      → lookup k (focus gid a u r).generations ≡ some (retire_in u.id g)
  focus_at k g l n =
      lookup-insert gid k a (map_values (retire_in u.id) r.generations)
      ∙ rw n (lookup-map_values (retire_in u.id) k r.generations g l)

  -- A generation of another space is not the one that is put in.
  other_key :
      (k : String) (g : IndexGeneration)
      → lookup k r.generations ≡ some g
      → (g.space_id == u.id) ≡ false
      → (gid == k) ≡ false
  other_key k g l n = elim (eq_cases gid k) [
    | inl (p, q) ↦
        let same : sel ≡ g =
          the_one (lookup k r.generations) sel g
            (subst (λ x. lookup x r.generations ≡ some sel) p found) l in
        absurd (
          clash ((string_eq.same_iff g.space_id u.id).1 (ap (λ x. x.space_id) (sym same) ∙ home)) n)
    | inr f ↦ f
  ]
    where
      clash : {b : Bool} → b ≡ true → b ≡ false → ⊥
      clash e f = cc

  pub focus-Focused :
      u.active_generation_id ≡ some gid → Focused u.id (some gid) r (focus gid a u r)
  focus-Focused points = record {
    others = λ k g l n. focus_at k g l (other_key k g l n) ∙ ap some (retire_in_other u.id g n);
    retired = λ k g l e act n.
        focus_at k g l (some_other gid k n) ∙ ap some (retire_in_here u.id g e act);
    active = λ k g l e c.
        (a, lookup-insert gid k a (map_values (retire_in u.id) r.generations) ∙ here k c, active);
    pointed = (u, lookup-insert_self u.id u r.spaces, points);
    elsewhere = λ t n. lookup-insert u.id t u r.spaces ∙ rw n refl;
  }
    where
      here :
          (k : String)
          → some gid ≡ some k
          → (if gid == k then some a else lookup k (map_values (retire_in u.id) r.generations))
            ≡ some a
      here k c = rw ((string_eq.same_iff gid k).1 (some_key c)) refl
        where
          some_key : some gid ≡ some k → gid ≡ k
          some_key e = cc
