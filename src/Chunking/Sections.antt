-- ===== src/Chunking/Sections.antt =====
-- What `_ordered_sections` of backend/src/atlasflow/knowledge/ingestion/chunker.py does with blocks.
use atlas_flow_agent.Base.{
  ℕ, ◌≡◌, Bool, false, not, Option, none, some, List, ◌∷◌, ◌++◌, map, All, nat_eq, string_eq,
  is_empty, keep, [],
}
use atlas_flow_agent.Knowledge.Models.{option_eq}
use atlas_flow_agent.Knowledge.BuildChecks.{pair_eq}
use atlas_flow_agent.Chunking.Tokens.{ParsedBlock, concat}
use atlas_flow_agent.Chunking.Structure.{Key, key_of, Section, is_heading, list_eq}

abbrev pub bodies : List Section → List (List ParsedBlock)
bodies sections = map (λ s. s.1) sections

-- The blocks of a section are not empty and share one page, and the section's path.
abbrev pub Uniform : Section → Type 0
Uniform s = (is_empty s.1 ≡ false) × ((page : Option ℕ) × All (λ b. key_of b ≡ (s.0, page)) s.1)

-- What the loop keeps between two blocks: nothing, or blocks with their common key.
data State : Option Key → List ParsedBlock → Type 0 where
  idle : State none []
  collecting :
      (key : Key) (b : ParsedBlock) (bs : List ParsedBlock)
      → All (λ x. key_of x ≡ key) (b ∷ bs)
      → State (some key) (b ∷ bs)

abbrev not_heading : ParsedBlock → Bool
not_heading b = not (is_heading b.block_type)

-- The loop from any of its states, on the rest of the blocks.
abbrev Sectioned : List ParsedBlock → List ParsedBlock → List Section → Type 0
Sectioned current blocks sections =
    (concat (bodies sections) ≡ current ++ keep not_heading blocks) × All Uniform sections
