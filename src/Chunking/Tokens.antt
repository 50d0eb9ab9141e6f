-- ===== src/Chunking/Tokens.antt =====
-- `TOKEN_PATTERN`, `estimate_tokens` and `_split_block` of
-- backend/src/atlasflow/knowledge/ingestion/chunker.py.
use atlas_flow_agent.Base.{
  ℕ, zero, suc, ◌+◌, ◌≤◌, ◌<◌, String, ◌≡◌, refl, ap, ◌∙◌, Bool, ◌||◌, Option, none, some, List,
  ◌∷◌, ◌++◌, arith, eqb, if◌then◌else◌, All, nat_eq, string_eq, length, is_digit, is_lower,
  is_upper, is_space, [],
}
use atlas_flow_agent.Chunking.Windows.{take, drop, slice, length-take, length-drop}

-- A block of a parsed document: of its locator, the offsets and the role that the chunker reads.
pub data BlockType : Type 0 where
  heading paragraph list table code quote : BlockType

pub record ParsedBlock : Type 0 where
  pub block_type : BlockType
  pub text : List ℕ
  pub heading_path : List (List ℕ)
  pub page_number : Option ℕ
  pub order : ℕ
  pub block_char_start : Option ℕ
  pub block_char_end : Option ℕ
  pub section_role : Option String

-- `[a-zA-Z0-9_]`
abbrev is_word : ℕ → Bool
is_word c = is_lower c || is_upper c || is_digit c || eqb c b'_'

abbrev close : ℕ → Option ℕ → List (ℕ × ℕ) → List (ℕ × ℕ)
close at none rest = rest
close at (some a) rest = (a, at) ∷ rest

abbrev begin : ℕ → Option ℕ → ℕ
begin at none = at
begin at (some a) = a

-- `TOKEN_PATTERN.finditer`: where the matches begin and end. A run of word characters is one match,
-- any other character that is no space is one by itself. The state is the position and the start of
-- the run that is open.
unfoldable pub spans : ℕ → Option ℕ → List ℕ → List (ℕ × ℕ)
unfolding is_space is_lower is_upper is_digit
spans at run [] = close at run []
spans at run (c ∷ cs) =
    let inside = spans (at + 1) (some (begin at run)) cs in
    let outside = spans (at + 1) none cs in
    if is_word c
    then inside
    else if is_space c
    then close at run outside
    else close at run ((at, at + 1) ∷ outside)

unfoldable pub matches_of_text : List ℕ → List (ℕ × ℕ)
unfolding spans
matches_of_text text = spans 0 none text

unfoldable pub estimate_tokens : List ℕ → ℕ
unfolding matches_of_text
estimate_tokens text = length (matches_of_text text)

-- `for first in range(0, len(matches), limit)`: the matches from `first` to `last`
unfoldable pub pieces : {A : Type 0} → ℕ → ℕ → List A → List (List A)
pieces zero limit ms = []
pieces (suc fuel) limit [] = []
pieces (suc fuel) limit (m ∷ ms) = take limit (m ∷ ms) ∷ pieces fuel limit (drop limit (m ∷ ms))

abbrev last_end : ℕ → List (ℕ × ℕ) → ℕ
last_end e [] = e
last_end e ((a, b) ∷ ms) = last_end b ms

abbrev pub or_zero : Option ℕ → ℕ
or_zero none = 0
or_zero (some n) = n

abbrev pub fragment : ParsedBlock → ℕ → ℕ → ParsedBlock
fragment block start end = record block {
  text = slice start end block.text;
  block_char_start = some (or_zero block.block_char_start + start);
  block_char_end = some (or_zero block.block_char_start + end);
}

abbrev pub fragments : ParsedBlock → List (List (ℕ × ℕ)) → List ParsedBlock
fragments block [] = []
fragments block ([] ∷ groups) = fragments block groups
fragments block (((a, b) ∷ ms) ∷ groups) = fragment block a (last_end b ms) ∷ fragments block groups

unfoldable pub split_block : ParsedBlock → ℕ → List ParsedBlock
unfolding matches_of_text pieces
split_block block limit =
    let ms = matches_of_text block.text in fragments block (pieces (length ms) limit ms)

-- The lists one after the other.
abbrev pub concat : {A : Type 0} → List (List A) → List A
concat [] = []
concat (xs ∷ xss) = xs ++ concat xss

take-drop : {A : Type 0} (n : ℕ) (xs : List A) → take n xs ++ drop n xs ≡ xs
take-drop zero xs = refl
take-drop (suc n) [] = refl
take-drop (suc n) (x ∷ xs) = ap (λ ys. x ∷ ys) (take-drop n xs)

-- As much fuel as there are matches, or more, and a limit of one match at least: the pieces are the
-- matches in their order, and each piece has between one match and as many as the limit.
pub pieces-concat :
    {A : Type 0} (fuel limit : ℕ) (ms : List A)
    → 0 < limit
    → length ms ≤ fuel
    → (concat (pieces fuel limit ms) ≡ ms)
      × All (λ p. (0 < length p) × (length p ≤ limit)) (pieces fuel limit ms)
unfolding pieces
pieces-concat zero limit [] p h = (refl, tt)
pieces-concat zero limit (m ∷ ms) p h = absurd (omega arith)
pieces-concat (suc fuel) limit [] p h = (refl, tt)
pieces-concat (suc fuel) limit (m ∷ ms) p h =
    let d = length-drop limit (m ∷ ms) in
    let t = length-take limit (m ∷ ms) in
    let (joined, fit) = pieces-concat fuel limit (drop limit (m ∷ ms)) p (omega arith) in
    (
      ap (λ ys. take limit (m ∷ ms) ++ ys) joined ∙ take-drop limit (m ∷ ms),
      ((omega arith, omega arith), fit),
    )
