-- ===== src/Chunking/Windows.antt =====
-- `chunk_text` of backend/src/atlasflow/rag/hybrid.py, on texts as their code points.
use atlas_flow_agent.Base.{
  ℕ, zero, suc, ◌+◌, ◌-◌, ◌≤◌, ◌<◌, min, max, ◌≡◌, refl, sym, subst, inl, inr, Bool, true, false,
  not, List, ◌∷◌, arith, ltb, eqb, lt→ltb, ltb→lt, if◌then◌else◌, Bool-cases, All, nat_eq,
  string_eq, length, In, is_space, [],
}

abbrev pub take : {A : Type 0} → ℕ → List A → List A
take zero cs = []
take (suc n) [] = []
take (suc n) (c ∷ cs) = c ∷ take n cs

abbrev pub drop : {A : Type 0} → ℕ → List A → List A
drop zero cs = cs
drop (suc n) [] = []
drop (suc n) (c ∷ cs) = drop n cs

-- `cs[a:b]`
abbrev pub slice : {A : Type 0} → ℕ → ℕ → List A → List A
slice a b cs = take (b - a) (drop a cs)

-- `" ".join(text.split())`: runs of spaces become one space, and the ends are trimmed. The argument
-- says whether a space is owed before the next character that is none.
abbrev squeeze : Bool → List ℕ → List ℕ
squeeze owed [] = []
squeeze owed (c ∷ cs) =
    let inside = squeeze false cs in
    let after = squeeze true cs in
    if is_space c then after else (if owed then 0x20 ∷ c ∷ inside else c ∷ inside)

unfoldable pub normalize : List ℕ → List ℕ
unfolding is_space
normalize [] = []
normalize (c ∷ cs) = let rest = normalize cs in if is_space c then rest else c ∷ squeeze false cs

-- The loop over `start`, which returns where the chunks begin and end in a text of length `n`.
unfoldable pub windows : ℕ → ℕ → ℕ → ℕ → ℕ → List (ℕ × ℕ)
windows zero size overlap n start = []
windows (suc fuel) size overlap n start =
    let end = min n (start + size) in
    let rest = windows fuel size overlap n (max (start + 1) (end - overlap)) in
    if not (ltb start n) then [] else if eqb end n then (start, end) ∷ [] else (start, end) ∷ rest

abbrev cut : List ℕ → List (ℕ × ℕ) → List (List ℕ)
cut cs [] = []
cut cs ((a, b) ∷ ws) = slice a b cs ∷ cut cs ws

unfoldable pub chunk_text : ℕ → ℕ → List ℕ → List (List ℕ)
unfolding normalize windows
chunk_text size overlap text =
    let cs = normalize text in cut cs (windows (length cs) size overlap (length cs) 0)

-- Windows from `a` on that leave no gap: each is not empty, is at most `size` long and ends in the text
-- of length `n`; the next one begins after it began and not after it ended; the last one ends the text.
pub data Tiles (size n : ℕ) : ℕ → List (ℕ × ℕ) → Type 0 where
  last : (a : ℕ) → a < n → n ≤ a + size → Tiles size n a ((a, n) ∷ [])
  next :
      (a b e : ℕ) (ws : List (ℕ × ℕ))
      → a < e
      → e < n
      → e ≤ a + size
      → a < b
      → b ≤ e
      → Tiles size n b ws
      → Tiles size n a ((a, e) ∷ ws)

windows-Tiles :
    (fuel size overlap n start : ℕ)
    → 0 < size
    → start < n
    → n ≤ start + fuel
    → Tiles size n start (windows fuel size overlap n start)
unfolding windows
windows-Tiles zero size overlap n start p h f = absurd (omega arith)
windows-Tiles (suc fuel) size overlap n start p h f =
    elim (Bool-cases (eqb (min n (start + size)) n)) [
      | inl t ↦ rw (lt→ltb start n h) (rw t (at_end (ground arith)))
      | inr e ↦ rw (lt→ltb start n h) (
          rw e (
            Tiles.next start (max (start + 1) (min n (start + size) - overlap))
              (min n (start + size)) _ (omega arith) (ground arith) (omega arith) (omega arith)
              (omega arith)
              (windows-Tiles fuel size overlap n (max (start + 1) (min n (start + size) - overlap))
                p (ground arith) (omega arith))))
    ]
  where
    at_end : min n (start + size) ≡ n → Tiles size n start ((start, min n (start + size)) ∷ [])
    at_end q =
        subst (λ e. Tiles size n start ((start, e) ∷ [])) (sym q) (Tiles.last start h (omega arith))

Tiles-covers :
    (size n a : ℕ) (ws : List (ℕ × ℕ))
    → Tiles size n a ws
    → (i : ℕ) → a ≤ i
    → i < n
    → (w : ℕ × ℕ) × In w ws × (w.0 ≤ i) × (i < w.1)
Tiles-covers size n a _ (Tiles.last _ h k) i l u = ((a, n), inl refl, l, u)
Tiles-covers size n a _ (Tiles.next _ b e ws h k m ab be rest) i l u = elim (Bool-cases (ltb i e)) [
  | inl t ↦ ((a, e), inl refl, l, ltb→lt i e t)
  | inr f ↦ later (Tiles-covers size n b ws rest i (ground arith) u)
]
  where
    later :
        (w : ℕ × ℕ) × In w ws × (w.0 ≤ i) × (i < w.1)
        → (w : ℕ × ℕ) × In w ((a, e) ∷ ws) × (w.0 ≤ i) × (i < w.1)
    later (w, m, x, y) = (w, inr m, x, y)

pub length-take : {A : Type 0} (n : ℕ) (cs : List A) → length (take n cs) ≡ min n (length cs)
length-take zero cs = omega arith
length-take (suc n) [] = omega arith
length-take (suc n) (c ∷ cs) = omega (arith, length-take n cs)

pub length-drop : {A : Type 0} (n : ℕ) (cs : List A) → length (drop n cs) ≡ length cs - n
length-drop zero cs = omega arith
length-drop (suc n) [] = omega arith
length-drop (suc n) (c ∷ cs) = omega (arith, length-drop n cs)

-- A chunk that is not empty and not too long.
abbrev pub Fits : ℕ → List ℕ → Type 0
Fits size chunk = (0 < length chunk) × (length chunk ≤ size)

slice-Fits :
    (size a b : ℕ) (cs : List ℕ) → a < b → b ≤ length cs → b ≤ a + size → Fits size (slice a b cs)
slice-Fits size a b cs h k m =
    let t = length-take (b - a) (drop a cs) in
    let d = length-drop a cs in (omega arith, omega arith)

cut-Fits :
    (size n : ℕ) (cs : List ℕ)
    → n ≤ length cs
    → (a : ℕ) (ws : List (ℕ × ℕ)) → Tiles size n a ws
    → All (Fits size) (cut cs ws)
cut-Fits size n cs l _ _ (Tiles.last a h k) = (slice-Fits size a n cs h l k, tt)
cut-Fits size n cs l _ _ (Tiles.next a b e ws h k m ab be rest) =
    (slice-Fits size a e cs h (omega arith) m, cut-Fits size n cs l b ws rest)

-- With windows of one character at least, and any overlap, the loop over a normalized text of any
-- length but 0 ends: as many rounds as the text has characters are enough. Its windows start at 0 and
-- leave no gap up to the end of the text, each is at most `size` long and begins after the one before
-- it, every position of the text is in one of them, and each chunk that is cut out is not empty and at
-- most `size` characters long.
pub chunk_text-Tiles :
    (size overlap : ℕ) (text : List ℕ)
    → 0 < size
    → 0 < length (normalize text)
    → Tiles size
        (length (normalize text))
        0
        (windows (length (normalize text)) size overlap (length (normalize text)) 0)
      × ((i : ℕ)
          → i < length (normalize text)
          → (w : ℕ × ℕ) × In w
              (windows (length (normalize text)) size overlap (length (normalize text)) 0)
            × (w.0 ≤ i)
            × (i < w.1))
      × All (Fits size) (chunk_text size overlap text)
unfolding chunk_text
chunk_text-Tiles size overlap text p h =
    let n = length (normalize text) in
    let tiles = windows-Tiles n size overlap n 0 p h (omega arith) in
    (
      tiles,
      (λ i u. Tiles-covers size n 0 (windows n size overlap n 0) tiles i (omega arith) u),
      cut-Fits size n (normalize text) (omega arith) 0 (windows n size overlap n 0) tiles,
    )
