-- ===== src/Chunking/Tests.antt =====
-- A small document, cut by both chunkers.
use atlas_flow_agent.Base.{
  ℕ, zero, suc, ◌≤◌, ◌<◌, String, ◌≡◌, refl, none, some, List, ◌∷◌, map, arith, All, nat_eq,
  string_eq, length, any, all, keep, In, is_digit, is_lower, is_upper, is_space, join, [],
}
use atlas_flow_agent.Chunking.Windows.{
  normalize, windows, chunk_text, Tiles, Fits, chunk_text-Tiles,
}
use atlas_flow_agent.Chunking.Tokens.{
  BlockType, ParsedBlock, spans, matches_of_text, estimate_tokens, pieces, split_block, concat,
}
use atlas_flow_agent.Chunking.Structure.{
  sections_from, ordered_sections, all_fragments, pack, split_blocks, join_with, render, make_chunk,
  Origin,
}
use atlas_flow_agent.Chunking.Chunks.{Limits, child_chunks, parent_chunks, section_chunks, chunk}
use atlas_flow_agent.Chunking.Packing.{Packed, split_blocks-Packed}
use atlas_flow_agent.Chunking.Linking.{Linked, chunk-Linked}

-- What the tests run.
unfoldable program : Unit {0}
unfolding normalize windows chunk_text spans matches_of_text estimate_tokens pieces split_block
    sections_from ordered_sections all_fragments pack split_blocks join_with render make_chunk
    child_chunks parent_chunks section_chunks chunk any all keep join is_space is_lower is_upper
    is_digit
program = tt

-- "ab  cd e"
abbrev text : List ℕ
text = b'a' ∷ b'b' ∷ 0x20 ∷ 0x20 ∷ b'c' ∷ b'd' ∷ 0x20 ∷ b'e' ∷ []

chunks_of_three : windows 7 3 1 (length (normalize text)) 0 ≡ (0, 3) ∷ (2, 5) ∷ (4, 7) ∷ []
unfolding program
chunks_of_three = refl

tokens_of_text : matches_of_text text ≡ (0, 2) ∷ (4, 6) ∷ (7, 8) ∷ []
unfolding program
tokens_of_text = refl

chunk_text-Tiles_example :
    Tiles 3
      (length (normalize text))
      0
      (windows (length (normalize text)) 3 1 (length (normalize text)) 0)
    × ((i : ℕ)
        → i < length (normalize text)
        → (w : ℕ × ℕ) × In w (windows (length (normalize text)) 3 1 (length (normalize text)) 0)
          × (w.0 ≤ i)
          × (i < w.1))
    × All (Fits 3) (chunk_text 3 1 text)
unfolding program
chunk_text-Tiles_example = chunk_text-Tiles 3 1 text (omega arith) (omega arith)

abbrev block : BlockType → List ℕ → ℕ → ParsedBlock
block kind text order = record {
  block_type = kind;
  text = text;
  heading_path = (b'h' ∷ []) ∷ [];
  page_number = some 1;
  order = order;
  block_char_start = none;
  block_char_end = none;
  section_role = none;
}

abbrev document : List ParsedBlock
document =
    block BlockType.heading (b'h' ∷ []) 0
    ∷ block BlockType.paragraph text 1
    ∷ block BlockType.paragraph text 2
    ∷ []

split_blocks-Packed_example :
    (concat (split_blocks document 2) ≡ all_fragments 2 document)
    × All (Packed 2) (split_blocks document 2)
split_blocks-Packed_example = split_blocks-Packed document 2

abbrev drawn_ids : ℕ → String
drawn_ids zero = "0"
drawn_ids (suc n) = join "1" (drawn_ids n)

abbrev origin : Origin
origin = record { document_id = "d"; version_id = "v"; generation_id = "g"; title = "t" }

abbrev limits : Limits
limits = record { child_tokens = 3; parent_tokens = 6 }

makes_chunks :
    map (λ c. c.parent_id) (chunk drawn_ids origin limits document)
    ≡ none ∷ some "0" ∷ some "0" ∷ none ∷ some "1110" ∷ some "1110" ∷ []
unfolding program
makes_chunks = refl

chunk-Linked_example :
    All (Linked (chunk drawn_ids origin limits document)) (chunk drawn_ids origin limits document)
unfolding program
chunk-Linked_example = chunk-Linked drawn_ids origin limits document
