-- ===== src/Base/Dict.antt =====
-- Dicts with text keys, as lists of entries in the order of insertion.
use Prim.Native.Nat.{ℕ, ◌+◌}
use Prim.Native.String.{String}
use mathlib.Core.Path.{◌≡◌, refl}
use mathlib.Core.Bool.{Bool, true, false}
use mathlib.Core.Option.{Option, none, some}
use mathlib.Core.List.{List, [], ◌∷◌}
use native.Mathlib.Omega.{arith}
use atlas_flow_agent.Base.Tests.{if◌then◌else◌, is_some}
use atlas_flow_agent.Base.Keys.{◌==◌, string_eq, ==_refl}

abbrev pub Dict : Type 0 → Type 0
Dict V = List (String × V)

abbrev pub one_if : Bool → ℕ
one_if true = 1
one_if false = 0

module _ {V : Type 0} where
  -- `d.get(k)`
  unfoldable pub lookup : String → Dict V → Option V
  lookup k [] = none
  lookup k ((j, v) ∷ d) = let rest = lookup k d in if j == k then some v else rest

  -- `d[k] = v`
  unfoldable pub insert : String → V → Dict V → Dict V
  insert k v [] = (k, v) ∷ []
  insert k v ((j, w) ∷ d) = let rest = insert k v d in if j == k then (j, v) ∷ d else (j, w) ∷ rest

  -- An update of the value under `k`, where there is one.
  unfoldable pub adjust : String → (V → V) → Dict V → Dict V
  adjust k f [] = []
  adjust k f ((j, w) ∷ d) =
      let rest = adjust k f d in if j == k then (j, f w) ∷ d else (j, w) ∷ rest

  -- `for v in d.values(): v = f(v)`
  unfoldable pub map_values : (V → V) → Dict V → Dict V
  map_values f [] = []
  map_values f ((j, w) ∷ d) = (j, f w) ∷ map_values f d

  -- `d.setdefault(k, v)`
  unfoldable pub set_default : String → V → Dict V → Dict V
  unfolding lookup insert
  set_default k v d = if is_some (lookup k d) then d else insert k v d

  -- `list(d.values())`
  abbrev pub values : Dict V → List V
  values [] = []
  values ((j, w) ∷ d) = w ∷ values d

  -- How many values pass the test.
  unfoldable pub count : (V → Bool) → Dict V → ℕ
  count p [] = 0
  count p ((j, w) ∷ d) = one_if (p w) + count p d

  -- `{k: v for k, v in d.items() if p(v)}`
  unfoldable pub keep_values : (V → Bool) → Dict V → Dict V
  keep_values p [] = []
  keep_values p ((k, v) ∷ d) = let rest = keep_values p d in if p v then (k, v) ∷ rest else rest

  -- `d.pop(k, None)`
  unfoldable pub without : String → Dict V → Dict V
  without k [] = []
  without k ((j, v) ∷ d) = let rest = without k d in if j == k then rest else (j, v) ∷ rest

  pub lookup-insert :
      (k j : String) (v : V) (d : Dict V)
      → lookup j (insert k v d) ≡ (if k == j then some v else lookup j d)
  unfolding lookup insert
  lookup-insert k j v [] = refl
  lookup-insert k j v ((i, w) ∷ d) = ground (
    arith,
    string_eq.same_iff k j,
    string_eq.same_iff i k,
    string_eq.same_iff i j,
    lookup-insert k j v d,
  )

  pub lookup-adjust_self :
      (k : String) (f : V → V) (d : Dict V) (v : V)
      → lookup k d ≡ some v
      → lookup k (adjust k f d) ≡ some (f v)
  unfolding lookup adjust
  lookup-adjust_self k f [] v h = cc
  lookup-adjust_self k f ((i, w) ∷ d) v h = ground (arith, lookup-adjust_self k f d v)

  pub count-insert :
      (p : V → Bool) (k : String) (v : V) (d : Dict V)
      → lookup k d ≡ none
      → count p (insert k v d) ≡ count p d + one_if (p v)
  unfolding lookup insert count
  count-insert p k v [] h = omega arith
  count-insert p k v ((i, w) ∷ d) h = ground (arith, count-insert p k v d)

  pub count-adjust :
      (p : V → Bool) (k : String) (f : V → V) (d : Dict V)
      → ((v : V) → p (f v) ≡ p v)
      → count p (adjust k f d) ≡ count p d
  unfolding adjust count
  count-adjust p k f [] h = refl
  count-adjust p k f ((i, w) ∷ d) h = ground (arith, h w, count-adjust p k f d h)

  pub count-map_values :
      (p : V → Bool) (f : V → V) (d : Dict V)
      → ((v : V) → p (f v) ≡ p v)
      → count p (map_values f d) ≡ count p d
  unfolding map_values count
  count-map_values p f [] h = refl
  count-map_values p f ((i, w) ∷ d) h = ground (arith, h w, count-map_values p f d h)

  pub lookup-map_values :
      (f : V → V) (k : String) (d : Dict V) (v : V)
      → lookup k d ≡ some v
      → lookup k (map_values f d) ≡ some (f v)
  unfolding map_values lookup
  lookup-map_values f k [] v h = cc
  lookup-map_values f k ((i, w) ∷ d) v h = ground (arith, lookup-map_values f k d v)

  -- `d.setdefault` is the identity from the second time on.
  pub set_default-again :
      (k : String) (v w : V) (d : Dict V) → set_default k w (set_default k v d) ≡ set_default k v d
  unfolding set_default
  set_default-again k v w d = ground (arith, lookup-insert k k v d, ==_refl k)

  pub lookup-without :
      (k j : String) (d : Dict V) → lookup j (without k d) ≡ (if k == j then none else lookup j d)
  unfolding lookup without
  lookup-without k j [] = ground arith
  lookup-without k j ((i, w) ∷ d) = ground (
    arith,
    string_eq.same_iff k j,
    string_eq.same_iff i k,
    string_eq.same_iff i j,
    lookup-without k j d,
  )
