-- ===== src/Base/Results.antt =====
-- Code that returns or raises. The type of the exceptions is a parameter.
use mathlib.Core.Path.{◌≡◌, refl}
use mathlib.Core.Bool.{Bool, true, false}
use mathlib.Core.List.{List, [], ◌∷◌}

pub data Outcome (E : Type 0) (A : Type 0) : Type 0 where
  ok : A → Outcome E A
  raise : E → Outcome E A

infixl 5 ◌>>=◌ ◌>>◌
abbrev pub ◌>>=◌ : {E A B : Type 0} → Outcome E A → (A → Outcome E B) → Outcome E B
raise e >>= rest = raise e
ok x >>= rest = rest x

abbrev pub ◌>>◌ : {E B : Type 0} → Outcome E (Unit {0}) → Outcome E B → Outcome E B
first >> rest = first >>= λ _. rest

-- `if test: raise e`
abbrev pub raise_if : {E : Type 0} → Bool → E → Outcome E (Unit {0})
raise_if true e = raise e
raise_if false e = ok tt

-- A loop whose body may raise, and that keeps no state.
unfoldable pub for_each :
    {E A : Type 0} → (A → Outcome E (Unit {0})) → List A → Outcome E (Unit {0})
for_each body [] = ok tt
for_each body (x ∷ xs) = body x >> for_each body xs

pub >>=-eq-ok :
    {E A B : Type 0} (first : Outcome E A) (rest : A → Outcome E B) {v : B}
    → (first >>= rest) ≡ ok v
    → (x : A) × (first ≡ ok x) × (rest x ≡ ok v)
>>=-eq-ok (raise e) rest h = cc
>>=-eq-ok (ok x) rest h = (x, refl, h)

pub raise_if-eq-ok :
    {E B : Type 0} (b : Bool) (e : E) (k : Outcome E B) {v : B}
    → (raise_if b e >> k) ≡ ok v
    → (b ≡ false) × (k ≡ ok v)
raise_if-eq-ok true e k h = cc
raise_if-eq-ok false e k h = (refl, h)

-- Every element of the list satisfies the predicate.
abbrev pub All {ℓ κ} : {A : Type ℓ} → (A → Type κ) → List A → Type κ
All Holds [] = Unit
All Holds (x ∷ xs) = Holds x × All Holds xs

-- A loop that ends with no exception ran its body with none on each element.
pub for_each-eq-ok :
    {E A : Type 0} (body : A → Outcome E (Unit {0})) (xs : List A)
    → for_each body xs ≡ ok tt
    → All (λ x. body x ≡ ok tt) xs
unfolding for_each
for_each-eq-ok body [] h = tt
for_each-eq-ok body (x ∷ xs) h =
    let (u, first, rest) = >>=-eq-ok (body x) (λ _. for_each body xs) h in
    (first, for_each-eq-ok body xs rest)

-- Such a loop raises nothing if its body raises nothing on any element.
pub for_each-ok :
    {E A : Type 0} (body : A → Outcome E (Unit {0})) (xs : List A)
    → All (λ x. body x ≡ ok tt) xs
    → for_each body xs ≡ ok tt
unfolding for_each
for_each-ok body [] h = refl
for_each-ok body (x ∷ xs) h = rw h.0 (for_each-ok body xs h.1)

pub All-map {ℓ κ μ} :
    {A : Type ℓ} {P : A → Type κ} {Q : A → Type μ} (xs : List A)
    → ((x : A) → P x → Q x)
    → All P xs
    → All Q xs
All-map [] f h = tt
All-map {P} {Q} (x ∷ xs) f h = (f x h.0, All-map {P = P} {Q = Q} xs f h.1)

pub All-zip {ℓ κ μ} :
    {A : Type ℓ} (P : A → Type κ) (Q : A → Type μ) (xs : List A)
    → All P xs
    → All Q xs
    → All (λ x. P x × Q x) xs
All-zip P Q [] h k = tt
All-zip P Q (x ∷ xs) h k = ((h.0, k.0), All-zip P Q xs h.1 k.1)
