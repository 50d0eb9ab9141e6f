-- ===== src/Chunking/Chunks.antt =====
-- `StructuralChunker.chunk` of backend/src/atlasflow/knowledge/ingestion/chunker.py. `fresh n` is the
-- n-th id that is drawn; a loop returns its chunks and how many ids it has drawn.
use atlas_flow_agent.Base.{
  ℕ, ◌+◌, ◌-◌, String, Bool, not, ◌&&◌, ◌||◌, none, some, List, ◌∷◌, ◌++◌, ltb, if◌then◌else◌,
  Outcome, ok, raise_if, nat_eq, string_eq, length, is_empty, any, is_space, [], ◌>>◌,
}
use atlas_flow_agent.Knowledge.Models.{ChunkKind}
use atlas_flow_agent.Chunking.Tokens.{ParsedBlock, estimate_tokens}
use atlas_flow_agent.Chunking.Structure.{
  Section, Chunk, Origin, ordered_sections, split_blocks, render, make_chunk, join_with, arrow,
}

-- `StructuralChunker.__init__`
pub record Limits : Type 0 where
  pub child_tokens : ℕ
  pub parent_tokens : ℕ

unfoldable pub validate_limits : Limits → Outcome String Limits
validate_limits l = do
  raise_if (ltb l.child_tokens 1 || ltb l.parent_tokens l.child_tokens)
      "chunk limits must satisfy 1 <= child_tokens <= parent_tokens"
  ok l

-- `content.strip()` is not empty.
abbrev pub has_body : List ℕ → Bool
has_body cs = any (λ c. not (is_space c)) cs

abbrev pub prefix_tokens : List (List ℕ) → ℕ
prefix_tokens path = estimate_tokens (join_with arrow path)

abbrev pub include_prefix : Limits → List (List ℕ) → Bool
include_prefix limits path = not (is_empty path) && ltb (prefix_tokens path) limits.child_tokens

abbrev pub body_limit : Bool → ℕ → List (List ℕ) → ℕ
body_limit prefixed limit path = if prefixed then limit - prefix_tokens path else limit

module _ (fresh : ℕ → String) (origin : Origin) where
  -- The innermost loop: the children of one parent
  unfoldable pub child_chunks :
      String → List (List ℕ) → Bool → ℕ → List (List ParsedBlock) → List Chunk
  unfolding make_chunk render
  child_chunks parent_id path prefixed n [] = []
  child_chunks parent_id path prefixed n (g ∷ gs) =
      make_chunk origin (fresh n) (some parent_id) ChunkKind.child (render g path prefixed) g path
      ∷ child_chunks parent_id path prefixed (n + 1) gs

  -- The loop over the groups of blocks of one section
  unfoldable pub parent_chunks :
      ℕ → List (List ℕ) → Bool → ℕ → List (List ParsedBlock) → List Chunk × ℕ
  unfolding child_chunks make_chunk render split_blocks any is_space
  parent_chunks child_limit path prefixed n [] = ([], n)
  parent_chunks child_limit path prefixed n (g ∷ gs) =
      let content = render g path prefixed in
      let groups = split_blocks g child_limit in
      let skipped = parent_chunks child_limit path prefixed n gs in
      let (rest, drawn) = parent_chunks child_limit path prefixed (n + 1 + length groups) gs in
      if has_body content
      then (
        make_chunk origin (fresh n) none ChunkKind.parent content g path
              ∷ child_chunks (fresh n) path prefixed (n + 1) groups
            ++ rest,
        drawn,
      )
      else skipped

  -- The loop over the sections
  unfoldable pub section_chunks : Limits → ℕ → List Section → List Chunk
  unfolding estimate_tokens join_with parent_chunks split_blocks
  section_chunks limits n [] = []
  section_chunks limits n ((path, blocks) ∷ sections) =
      let prefixed = include_prefix limits path in
      let (made, drawn) =
        parent_chunks (body_limit prefixed limits.child_tokens path) path prefixed n
          (split_blocks blocks (body_limit prefixed limits.parent_tokens path)) in
      made ++ section_chunks limits drawn sections

  unfoldable pub chunk : Limits → List ParsedBlock → List Chunk
  unfolding section_chunks ordered_sections
  chunk limits blocks = section_chunks limits 0 (ordered_sections blocks)
