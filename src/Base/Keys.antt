-- ===== src/Base/Keys.antt =====
-- Types with a Boolean equality, and the sets of the source as lists over them.
use Prim.Native.Nat.{ℕ}
use Prim.Native.String.{String}
use mathlib.Core.Path.{◌≡◌, refl, sym, subst}
use mathlib.Core.Logic.{◌≢◌, ◌↔◌, ◌⊎◌, inl, inr}
use mathlib.Core.Bool.{Bool, true, false, not, ◌&&◌, ◌||◌}
use mathlib.Core.List.{List, [], ◌∷◌, ◌++◌}
use native.Mathlib.Omega.{arith}
use text.Mathlib.Text.{◌==◌ as text_same}
use text.Mathlib.TextEquality.{eq_iff as text_same_iff}
use atlas_flow_agent.Base.Lists.{keep}
use atlas_flow_agent.Base.Tests.{eqb, eqb_iff, Bool-cases, &&_elim}

-- A type whose values the source compares with `==`.
pub record Keyed {ℓ} (A : Type ℓ) : Type ℓ where
  pub same : A → A → Bool
  pub same_iff : (x y : A) → (same x y ≡ true) ↔ (x ≡ y)

instance abbrev pub string_eq : Keyed String
string_eq = record { same = text_same; same_iff = text_same_iff }

instance abbrev pub nat_eq : Keyed ℕ
nat_eq = record { same = eqb; same_iff = eqb_iff }

infix 50 ◌==◌
abbrev pub ◌==◌ {ℓ} : {A : Type ℓ} ⦃e : Keyed A⦄ → A → A → Bool
◌==◌ ⦃e⦄ x y = e.same x y

module _ {ℓ} {A : Type ℓ} ⦃e : Keyed A⦄ where
  -- `a in xs`
  unfoldable pub contains : List A → A → Bool
  contains [] a = false
  contains (x ∷ xs) a = x == a || contains xs a

  -- `len(xs) == len(set(xs))`
  unfoldable pub distinct : List A → Bool
  unfolding contains
  distinct [] = true
  distinct (x ∷ xs) = not (contains xs x) && distinct xs

  -- `set(xs) <= set(ys)`
  unfoldable pub subset : List A → List A → Bool
  unfolding contains
  subset [] ys = true
  subset (x ∷ xs) ys = contains ys x && subset xs ys

  -- `set(xs) & set(ys)` is empty
  unfoldable pub disjoint : List A → List A → Bool
  unfolding contains
  disjoint [] ys = true
  disjoint (x ∷ xs) ys = not (contains ys x) && disjoint xs ys

  -- `list(dict.fromkeys(xs))`, and `set(xs)` where only its size or its elements count
  unfoldable pub dedup : List A → List A
  unfolding keep
  dedup [] = []
  dedup (x ∷ xs) = x ∷ keep (λ y. not (x == y)) (dedup xs)

  -- Equality is decided by `==`.
  pub eq_cases : (a b : A) → ((a ≡ b) × ((a == b) ≡ true)) ⊎ ((a == b) ≡ false)
  eq_cases a b = elim (Bool-cases (a == b)) [
    | inl t ↦ inl ((e.same_iff a b).0 t, t)
    | inr f ↦ inr f
  ]

  pub ==_refl : (a : A) → (a == a) ≡ true
  ==_refl a = (e.same_iff a a).1 refl

  pub contains-nil : (a : A) → contains [] a ≢ true
  unfolding contains
  contains-nil a h = cc

  pub contains-head : (a : A) (xs : List A) → contains (a ∷ xs) a ≡ true
  unfolding contains
  contains-head a xs = ground (arith, ==_refl a)

  pub contains-tail : (x a : A) (xs : List A) → contains xs a ≡ true → contains (x ∷ xs) a ≡ true
  unfolding contains
  contains-tail x a xs h = ground arith

  pub contains-cases :
      (x a : A) (xs : List A) → contains (x ∷ xs) a ≡ true → (x ≡ a) ⊎ (contains xs a ≡ true)
  unfolding contains
  contains-cases x a xs h = elim (eq_cases x a) [ inl p ↦ inl p.0 | inr f ↦ inr (ground arith) ]

  pub contains-append :
      (xs ys : List A) (a : A) → contains (xs ++ ys) a ≡ (contains xs a || contains ys a)
  unfolding contains
  contains-append [] ys a = refl
  contains-append (x ∷ xs) ys a = ground (arith, contains-append xs ys a)

  -- What a subset holds, the larger set holds.
  pub subset-contains :
      (xs ys : List A) (a : A) → subset xs ys ≡ true → contains xs a ≡ true → contains ys a ≡ true
  unfolding subset contains
  subset-contains [] ys a s h = ground arith
  subset-contains (x ∷ xs) ys a s h = elim (contains-cases x a xs h) [
    | inl p ↦ subst_head p (&&_elim _ _ s).0
    | inr t ↦ subset-contains xs ys a (&&_elim _ _ s).1 t
  ]
    where
      subst_head : x ≡ a → contains ys x ≡ true → contains ys a ≡ true
      subst_head p c = ground arith

  pub subset_of_contains :
      (xs ys : List A)
      → ((a : A) → contains xs a ≡ true → contains ys a ≡ true)
      → subset xs ys ≡ true
  unfolding subset
  subset_of_contains [] ys h = refl
  subset_of_contains (x ∷ xs) ys h = ground (
    arith,
    h x (contains-head x xs),
    subset_of_contains xs ys (λ a c. h a (contains-tail x a xs c)),
  )

  pub disjoint-contains :
      (xs ys : List A) (a : A)
      → disjoint xs ys ≡ true
      → contains xs a ≡ true
      → contains ys a ≡ false
  unfolding disjoint contains
  disjoint-contains [] ys a s h = ground arith
  disjoint-contains (x ∷ xs) ys a s h = elim (contains-cases x a xs h) [
    | inl p ↦ ground arith
    | inr t ↦ disjoint-contains xs ys a (&&_elim _ _ s).1 t
  ]

  contains-keep_ne :
      (x a : A) (xs : List A)
      → contains (keep (λ y. not (x == y)) xs) a ≡ (not (x == a) && contains xs a)
  unfolding contains keep
  contains-keep_ne x a [] = ground arith
  contains-keep_ne x a (y ∷ ys) = elim (eq_cases y a) [
    | inl (p, t) ↦
        subst
          (λ b.
            contains (keep (λ y. not (x == y)) (b ∷ ys)) a ≡ (not (x == a) && contains (b ∷ ys) a))
          (sym p) (ground (arith, ==_refl a, contains-keep_ne x a ys))
    | inr f ↦ ground (arith, contains-keep_ne x a ys)
  ]

  -- Removing repetitions keeps the elements.
  pub contains-dedup : (xs : List A) (a : A) → contains (dedup xs) a ≡ contains xs a
  unfolding contains dedup
  contains-dedup [] a = refl
  contains-dedup (x ∷ xs) a = ground (arith, contains-keep_ne x a (dedup xs), contains-dedup xs a)

  -- What is filtered out is not found.
  pub contains-keep :
      (p : A → Bool) (xs : List A) (a : A) → contains (keep p xs) a ≡ (contains xs a && p a)
  unfolding contains keep
  contains-keep p [] a = refl
  contains-keep p (x ∷ xs) a = elim (eq_cases x a) [
    | inl (q, t) ↦
        subst (λ b. contains (keep p (b ∷ xs)) a ≡ (contains (b ∷ xs) a && p a)) (sym q)
          (ground (arith, ==_refl a, contains-keep p xs a))
    | inr f ↦ ground (arith, contains-keep p xs a)
  ]

  pub distinct-keep :
      (p : A → Bool) (xs : List A) → distinct xs ≡ true → distinct (keep p xs) ≡ true
  unfolding distinct keep
  distinct-keep p [] h = refl
  distinct-keep p (x ∷ xs) h = ground (arith, contains-keep p xs x, distinct-keep p xs)

  pub distinct-dedup : (xs : List A) → distinct (dedup xs) ≡ true
  unfolding distinct dedup
  distinct-dedup [] = refl
  distinct-dedup (x ∷ xs) = ground (
    arith,
    ==_refl x,
    contains-keep (λ y. not (x == y)) (dedup xs) x,
    distinct-keep (λ y. not (x == y)) (dedup xs) (distinct-dedup xs),
  )

  keep_absent : (x : A) (xs : List A) → contains xs x ≡ false → keep (λ y. not (x == y)) xs ≡ xs
  unfolding contains keep
  keep_absent x [] h = refl
  keep_absent x (y ∷ ys) h = elim (eq_cases x y) [
    | inl (q, t) ↦ absurd (ground (arith, ==_refl x))
    | inr f ↦ ground (arith, keep_absent x ys)
  ]

  -- A list with no repetition is unchanged.
  pub dedup_of_distinct : (xs : List A) → distinct xs ≡ true → dedup xs ≡ xs
  unfolding distinct dedup
  dedup_of_distinct [] h = refl
  dedup_of_distinct (x ∷ xs) h = ground (arith, dedup_of_distinct xs, keep_absent x xs)

  -- Two such lists with nothing in common make one without repetition.
  pub distinct-append :
      (xs ys : List A)
      → distinct xs ≡ true
      → distinct ys ≡ true
      → disjoint xs ys ≡ true
      → distinct (xs ++ ys) ≡ true
  unfolding distinct disjoint
  distinct-append [] ys h k d = k
  distinct-append (x ∷ xs) ys h k d = ground (arith, contains-append xs ys x, distinct-append xs ys)
