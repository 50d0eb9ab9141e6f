-- ===== src/Base/Lists.antt =====
-- Lists measured by native numbers, and the filters of the source's comprehensions.
use Prim.Native.Nat.{ℕ, suc, ◌+◌, ◌≤◌}
use mathlib.Core.Path.{◌≡◌, refl, ap, subst}
use mathlib.Core.Bool.{Bool, true, false, ◌&&◌, ◌||◌}
use mathlib.Core.List.{List, [], ◌∷◌, ◌++◌, map}
use mathlib.Core.Logic.{◌⊎◌, inl, inr}
use native.Mathlib.Omega.{arith}
use atlas_flow_agent.Base.Tests.{if◌then◌else◌, Bool-cases}

module _ {ℓ} {A : Type ℓ} where
  abbrev pub length : List A → ℕ
  length [] = 0
  length (x ∷ xs) = suc (length xs)

  -- `not xs`
  abbrev pub is_empty : List A → Bool
  is_empty [] = true
  is_empty (x ∷ xs) = false

  -- `any(p(x) for x in xs)`
  unfoldable pub any : (A → Bool) → List A → Bool
  any p [] = false
  any p (x ∷ xs) = p x || any p xs

  -- `all(p(x) for x in xs)`
  unfoldable pub all : (A → Bool) → List A → Bool
  all p [] = true
  all p (x ∷ xs) = p x && all p xs

  -- `[x for x in xs if p(x)]`
  unfoldable pub keep : (A → Bool) → List A → List A
  keep p [] = []
  keep p (x ∷ xs) = let rest = keep p xs in if p x then x ∷ rest else rest

  pub length-append : (xs ys : List A) → length (xs ++ ys) ≡ length xs + length ys
  length-append [] ys = omega arith
  length-append (x ∷ xs) ys = omega (arith, length-append xs ys)

  pub length-keep-le : (p : A → Bool) (xs : List A) → length (keep p xs) ≤ length xs
  unfolding keep
  length-keep-le p [] = omega arith
  length-keep-le p (x ∷ xs) = ground (arith, length-keep-le p xs)

pub length-map {ℓ κ} :
    {A : Type ℓ} {B : Type κ} (f : A → B) (xs : List A) → length (map f xs) ≡ length xs
length-map f [] = refl
length-map f (x ∷ xs) = ap suc (length-map f xs)

-- `x` stands in the list.
abbrev pub In : {A : Type 0} → A → List A → Type 0
In x [] = ⊥
In x (y ∷ ys) = (x ≡ y) ⊎ In x ys

module _ {A : Type 0} (p : A → Bool) where
  pub any-In : (xs : List A) → any p xs ≡ true → (x : A) × In x xs × (p x ≡ true)
  unfolding any
  any-In [] h = cc
  any-In (x ∷ xs) h = elim (Bool-cases (p x)) [
    | inl t ↦ (x, inl refl, t)
    | inr f ↦ let (y, m, t) = any-In xs (ground arith) in (y, inr m, t)
  ]

  pub all-In : (xs : List A) (x : A) → all p xs ≡ true → In x xs → p x ≡ true
  unfolding all
  all-In [] x h m = absurd m
  all-In (y ∷ ys) x h (inl e) = ground arith
  all-In (y ∷ ys) x h (inr m) = all-In ys x (ground arith) m

  pub In-keep : (xs : List A) (x : A) → In x (keep p xs) → In x xs × (p x ≡ true)
  unfolding keep
  In-keep [] x m = absurd m
  In-keep (y ∷ ys) x m = elim (Bool-cases (p y)) [
    | inl t ↦
        at_head t (In-keep ys x) (subst (λ b. In x (if b then y ∷ keep p ys else keep p ys)) t m)
    | inr f ↦
        let rest = subst (λ b. In x (if b then y ∷ keep p ys else keep p ys)) f m in
        let (n, q) = In-keep ys x rest in (inr n, q)
  ]
    where
      at_head :
          p y ≡ true
          → (In x (keep p ys) → In x ys × (p x ≡ true))
          → (x ≡ y) ⊎ In x (keep p ys)
          → In x (y ∷ ys) × (p x ≡ true)
      at_head t rest (inl e) = (inl e, rw e t)
      at_head t rest (inr n) = let (n', q) = rest n in (inr n', q)

  pub keep-of_In : (xs : List A) (x : A) → In x xs → p x ≡ true → In x (keep p xs)
  unfolding keep
  keep-of_In [] x m h = absurd m
  keep-of_In (y ∷ ys) x (inl e) h = kept e (rw e at h)
    where
      kept : x ≡ y → p y ≡ true → In x (if p y then y ∷ keep p ys else keep p ys)
      kept e t = rw t (inl e)
  keep-of_In (y ∷ ys) x (inr m) h = later (keep-of_In ys x m h)
    where
      later : In x (keep p ys) → In x (if p y then y ∷ keep p ys else keep p ys)
      later n = elim (Bool-cases (p y)) [ inl t ↦ rw t (inr n) | inr f ↦ rw f n ]
