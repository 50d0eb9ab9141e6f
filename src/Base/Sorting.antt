-- ===== src/Base/Sorting.antt =====
-- Stable sorting, as Python's `sorted`: equal elements keep their order.
use Prim.Native.Nat.{ℕ, ◌≤◌}
use mathlib.Core.Path.{◌≡◌, refl}
use mathlib.Core.Bool.{Bool, true, false}
use mathlib.Core.List.{List, [], ◌∷◌, ◌++◌}
use mathlib.Core.Logic.{inl, inr}
use native.Mathlib.Omega.{arith}
use atlas_flow_agent.Base.Tests.{if◌then◌else◌, Bool-cases, ltb}
use atlas_flow_agent.Base.Lists.{In}
use atlas_flow_agent.Base.Results.{All}

module _ {A : Type 0} (less : A → A → Bool) where
  unfoldable pub insert_stable : A → List A → List A
  insert_stable x [] = x ∷ []
  insert_stable x (y ∷ ys) =
      let rest = insert_stable x ys in if less y x then y ∷ rest else x ∷ y ∷ ys

  unfoldable pub sort_by : List A → List A
  unfolding insert_stable
  sort_by [] = []
  sort_by (x ∷ xs) = insert_stable x (sort_by xs)

  pub In-insert_stable : (x a : A) (ys : List A) → In a (insert_stable x ys) → In a (x ∷ ys)
  unfolding insert_stable
  In-insert_stable x a [] m = m
  In-insert_stable x a (y ∷ ys) m = elim (Bool-cases (less y x)) [
    | inl t ↦ at_tail (In-insert_stable x a ys) (rw t at m)
    | inr f ↦ rw f at m
  ]
    where
      at_tail :
          (In a (insert_stable x ys) → In a (x ∷ ys))
          → In a (y ∷ insert_stable x ys)
          → In a (x ∷ y ∷ ys)
      at_tail rest (inl e) = inr (inl e)
      at_tail rest (inr n) = elim (rest n) [ inl e ↦ inl e | inr k ↦ inr (inr k) ]

  pub In-sort_by : (xs : List A) (a : A) → In a (sort_by xs) → In a xs
  unfolding sort_by
  In-sort_by [] a m = m
  In-sort_by (x ∷ xs) a m = elim (In-insert_stable x a (sort_by xs) m) [
    | inl e ↦ inl e
    | inr k ↦ inr (In-sort_by xs a k)
  ]

  pub insert_stable-In : (x a : A) (ys : List A) → In a (x ∷ ys) → In a (insert_stable x ys)
  unfolding insert_stable
  insert_stable-In x a [] m = m
  insert_stable-In x a (y ∷ ys) m = elim (Bool-cases (less y x)) [
    | inl t ↦ rw t (at_tail (insert_stable-In x a ys) m)
    | inr f ↦ rw f m
  ]
    where
      at_tail :
          (In a (x ∷ ys) → In a (insert_stable x ys))
          → In a (x ∷ y ∷ ys)
          → In a (y ∷ insert_stable x ys)
      at_tail rest (inl e) = inr (rest (inl e))
      at_tail rest (inr (inl e)) = inl e
      at_tail rest (inr (inr k)) = inr (rest (inr k))

  pub sort_by-In : (xs : List A) (a : A) → In a xs → In a (sort_by xs)
  unfolding sort_by
  sort_by-In [] a m = m
  sort_by-In (x ∷ xs) a (inl e) = insert_stable-In x a (sort_by xs) (inl e)
  sort_by-In (x ∷ xs) a (inr k) = insert_stable-In x a (sort_by xs) (inr (sort_by-In xs a k))

-- Each element is at most those after it.
abbrev pub Ordered : {A : Type 0} → (A → ℕ) → List A → Type 0
Ordered key [] = Unit
Ordered key (x ∷ xs) = ((y : _) → In y xs → key x ≤ key y) × Ordered key xs

module _ {A : Type 0} (key : A → ℕ) where
  insert_stable-Ordered :
      (x : A) (ys : List A)
      → Ordered key ys
      → Ordered key (insert_stable (λ x y. ltb (key x) (key y)) x ys)
  unfolding insert_stable
  insert_stable-Ordered x [] o = ((λ y m. absurd m), tt)
  insert_stable-Ordered x (y ∷ ys) (h, o) = elim (Bool-cases (ltb (key y) (key x))) [
    | inl t ↦
        rw t
          (above t (In-insert_stable (λ x y. ltb (key x) (key y)) x), insert_stable-Ordered x ys o)
    | inr f ↦ rw f (below f, (h, o))
  ]
    where
      above :
          ltb (key y) (key x) ≡ true
          → ((a : A) (zs : List A)
              → In a (insert_stable (λ x y. ltb (key x) (key y)) x zs)
              → In a (x ∷ zs))
          → (a : A) → In a (insert_stable (λ x y. ltb (key x) (key y)) x ys)
          → key y ≤ key a
      above t member a m = elim (member a ys m) [ inl e ↦ rw e (ground arith) | inr n ↦ h a n ]

      below : ltb (key y) (key x) ≡ false → (a : A) → In a (y ∷ ys) → key x ≤ key a
      below f a (inl e) = rw e (ground arith)
      below f a (inr n) = let p : key y ≤ key a = h a n in ground arith

  pub sort_by-Ordered : (xs : List A) → Ordered key (sort_by (λ x y. ltb (key x) (key y)) xs)
  unfolding sort_by
  sort_by-Ordered [] = tt
  sort_by-Ordered (x ∷ xs) =
      insert_stable-Ordered x (sort_by (λ x y. ltb (key x) (key y)) xs) (sort_by-Ordered xs)

  insert_stable-last :
      (x z : A) (ys : List A)
      → key x ≤ key z
      → insert_stable (λ a b. ltb (key a) (key b)) x (ys ++ z ∷ [])
        ≡ insert_stable (λ a b. ltb (key a) (key b)) x ys ++ z ∷ []
  unfolding insert_stable
  insert_stable-last x z [] h = ground arith
  insert_stable-last x z (y ∷ ys) h = ground (arith, insert_stable-last x z ys h)

  -- An element that is at least all the others stays last.
  pub sort_by-last :
      (z : A) (ys : List A)
      → All (λ y. key y ≤ key z) ys
      → sort_by (λ a b. ltb (key a) (key b)) (ys ++ z ∷ [])
        ≡ sort_by (λ a b. ltb (key a) (key b)) ys ++ z ∷ []
  unfolding sort_by
  sort_by-last z [] h = refl
  sort_by-last z (y ∷ ys) h =
      rw (
        sort_by-last z ys h.1,
        insert_stable-last y z (sort_by (λ a b. ltb (key a) (key b)) ys) h.0,
      )
