-- ===== src/Chunking/Structure.antt =====
-- `StructuralChunker` of backend/src/atlasflow/knowledge/ingestion/chunker.py: sections, groups of
-- fragments, and the parent and child chunks made of them. The drawn ids are an argument.
use atlas_flow_agent.Base.{
  ℕ, ◌+◌, min, max, String, ◌≡◌, refl, ◌↔◌, Bool, true, false, not, ◌&&◌, Option, none, some, List,
  ◌∷◌, ◌++◌, map, arith, ltb, eqb, if◌then◌else◌, is_some, Keyed, ◌==◌, nat_eq, string_eq, is_empty,
  [],
}
use atlas_flow_agent.Knowledge.Models.{ChunkKind, option_eq}
use atlas_flow_agent.Knowledge.BuildChecks.{pair_eq}
use atlas_flow_agent.Chunking.Tokens.{BlockType, ParsedBlock, estimate_tokens, split_block}

-- `==` on two lists
abbrev pub same_list : {A : Type 0} ⦃e : Keyed A⦄ → List A → List A → Bool
same_list [] [] = true
same_list (x ∷ xs) (y ∷ ys) = x == y && same_list xs ys
same_list _ _ = false

pub same_list_iff :
    {A : Type 0} ⦃e : Keyed A⦄ (xs ys : List A) → (same_list xs ys ≡ true) ↔ (xs ≡ ys)
same_list_iff [] [] = (λ _. refl, λ _. refl)
same_list_iff [] (y ∷ ys) = (λ h. cc, λ h. cc)
same_list_iff (x ∷ xs) [] = (λ h. cc, λ h. cc)
same_list_iff ⦃e⦄ (x ∷ xs) (y ∷ ys) = (to (same_list_iff xs ys).0, from (same_list_iff xs ys).1)
  where
    to : (same_list xs ys ≡ true → xs ≡ ys) → (x == y && same_list xs ys) ≡ true → x ∷ xs ≡ y ∷ ys
    to tail h =
        let p : x ≡ y = (e.same_iff x y).0 (ground arith) in
        let q : xs ≡ ys = tail (ground arith) in rw p (rw q refl)

    from : (xs ≡ ys → same_list xs ys ≡ true) → x ∷ xs ≡ y ∷ ys → (x == y && same_list xs ys) ≡ true
    from tail h =
        let p : x ≡ y = cc in let q : xs ≡ ys = cc in ground (arith, (e.same_iff x y).1 p, tail q)

instance abbrev pub list_eq : {A : Type 0} ⦃e : Keyed A⦄ → Keyed (List A)
list_eq = record { same = same_list; same_iff = same_list_iff }

abbrev pub Key : Type 0
Key = List (List ℕ) × Option ℕ

abbrev pub key_of : ParsedBlock → Key
key_of block = (block.heading_path, block.page_number)

abbrev pub Section : Type 0
Section = List (List ℕ) × List ParsedBlock

-- `if current and current_key is not None: sections.append(…)`
abbrev pub flush_section : Option Key → List ParsedBlock → List Section → List Section
flush_section none current rest = rest
flush_section (some key) [] rest = rest
flush_section (some key) (b ∷ bs) rest = (key.0, b ∷ bs) ∷ rest

abbrev pub is_heading : BlockType → Bool
is_heading BlockType.heading = true
is_heading _ = false

abbrev pub key_is : Option Key → Key → Bool
key_is none key = false
key_is (some k) key = k == key

-- The loop of `_ordered_sections`, from what it keeps between two blocks
unfoldable pub sections_from : Option Key → List ParsedBlock → List ParsedBlock → List Section
sections_from key current [] = flush_section key current []
sections_from key current (b ∷ bs) =
    let after_heading = sections_from none [] bs in
    let fresh = sections_from (some (key_of b)) (b ∷ []) bs in
    let longer = sections_from (some (key_of b)) (current ++ b ∷ []) bs in
    if is_heading b.block_type
    then flush_section key current after_heading
    else if not (is_empty current) && is_some key && not (key_is key (key_of b))
    then flush_section key current fresh
    else longer

unfoldable pub ordered_sections : List ParsedBlock → List Section
unfolding sections_from
ordered_sections blocks = sections_from none [] blocks

unfoldable pub all_fragments : ℕ → List ParsedBlock → List ParsedBlock
unfolding split_block
all_fragments limit [] = []
all_fragments limit (b ∷ bs) = split_block b limit ++ all_fragments limit bs

abbrev pub flush_group : List ParsedBlock → List (List ParsedBlock) → List (List ParsedBlock)
flush_group [] rest = rest
flush_group (b ∷ bs) rest = (b ∷ bs) ∷ rest

-- The two loops of `_split_blocks`, which keep `current` and `count` from one fragment to the next
unfoldable pub pack : ℕ → List ParsedBlock → ℕ → List ParsedBlock → List (List ParsedBlock)
unfolding estimate_tokens
pack limit current count [] = flush_group current []
pack limit current count (f ∷ fs) =
    let size = estimate_tokens f.text in
    let fresh = pack limit (f ∷ []) size fs in
    let longer = pack limit (current ++ f ∷ []) (count + size) fs in
    if not (is_empty current) && ltb limit (count + size) then flush_group current fresh else longer

unfoldable pub split_blocks : List ParsedBlock → ℕ → List (List ParsedBlock)
unfolding pack all_fragments
split_blocks blocks limit = pack limit [] 0 (all_fragments limit blocks)

-- `separator.join(parts)`
unfoldable pub join_with : List ℕ → List (List ℕ) → List ℕ
join_with separator [] = []
join_with separator (p ∷ []) = p
join_with separator (p ∷ q ∷ ps) = p ++ separator ++ join_with separator (q ∷ ps)

-- `" > "` and two newlines
abbrev pub arrow : List ℕ
arrow = 0x20 ∷ 0x3e ∷ 0x20 ∷ []

abbrev pub blank_line : List ℕ
blank_line = 0x0a ∷ 0x0a ∷ []

unfoldable pub render : List ParsedBlock → List (List ℕ) → Bool → List ℕ
unfolding join_with
render blocks heading_path include_prefix =
    let body = join_with blank_line (map (λ b. b.text) blocks) in
    if include_prefix then join_with arrow heading_path ++ blank_line ++ body else body

-- A chunk, with the fields that the chunker computes but for the lexical text
pub record Chunk : Type 0 where
  pub id : String
  pub document_id : String
  pub version_id : String
  pub generation_id : String
  pub parent_id : Option String
  pub chunk_kind : ChunkKind
  pub title : String
  pub content : List ℕ
  pub token_count : ℕ
  pub heading_path : List (List ℕ)
  pub page_number : Option ℕ
  pub block_start : Option ℕ
  pub block_end : Option ℕ

-- The arguments of `chunk` that every chunk repeats
pub record Origin : Type 0 where
  pub document_id : String
  pub version_id : String
  pub generation_id : String
  pub title : String

abbrev pub min_of : List ℕ → Option ℕ
min_of [] = none
min_of (n ∷ ns) = let rest = min_of ns in some (elim rest [ none ↦ n | some m ↦ min n m ])

abbrev pub max_of : List ℕ → Option ℕ
max_of [] = none
max_of (n ∷ ns) = let rest = max_of ns in some (elim rest [ none ↦ n | some m ↦ max n m ])

-- `[item.page_number for item in blocks if item.page_number]`
abbrev pub pages : List ParsedBlock → List ℕ
pages [] = []
pages (b ∷ bs) =
    let rest = pages bs in
    elim (b.page_number) [ none ↦ rest | some n ↦ if eqb n 0 then rest else n ∷ rest ]

unfoldable pub make_chunk :
    Origin → String → Option String → ChunkKind → List ℕ → List ParsedBlock → List (List ℕ) → Chunk
unfolding estimate_tokens
make_chunk origin chunk_id parent_id kind content blocks heading_path = record {
  id = chunk_id;
  document_id = origin.document_id;
  version_id = origin.version_id;
  generation_id = origin.generation_id;
  parent_id = parent_id;
  chunk_kind = kind;
  title = origin.title;
  content = content;
  token_count = estimate_tokens content;
  heading_path = heading_path;
  page_number = min_of (pages blocks);
  block_start = min_of (map (λ b. b.order) blocks);
  block_end = max_of (map (λ b. b.order) blocks);
}
