-- ===== src/Chunking/Linking.antt =====
-- That the chunks of backend/src/atlasflow/knowledge/ingestion/chunker.py name their parents.
use atlas_flow_agent.Base.{
  ℕ, ◌+◌, String, ◌≡◌, refl, ◌⊎◌, inl, inr, Bool, true, none, some, List, ◌∷◌, ◌++◌, Bool-cases,
  All, nat_eq, string_eq, length, all, In, [],
}
use atlas_flow_agent.Knowledge.Models.{ChunkKind}
use atlas_flow_agent.Knowledge.BuildContents.{is_parent}
use atlas_flow_agent.Chunking.Tokens.{ParsedBlock, estimate_tokens}
use atlas_flow_agent.Chunking.Structure.{
  Section, Chunk, Origin, ordered_sections, split_blocks, render, make_chunk,
}
use atlas_flow_agent.Chunking.Chunks.{
  Limits, child_chunks, parent_chunks, section_chunks, chunk, has_body, include_prefix, body_limit,
}

-- The chunk is a parent, or of the kind of a child with a parent among the chunks that comes from the same document,
-- version and generation; and its tokens are those of its content.
abbrev pub Linked : List Chunk → Chunk → Type 0
Linked all c =
    (c.token_count ≡ estimate_tokens c.content)
    × (((is_parent c.chunk_kind ≡ true) × (c.parent_id ≡ none))
        ⊎ ((c.chunk_kind ≡ ChunkKind.child)
            × (p : Chunk) × In p all
            × (c.parent_id ≡ some p.id)
            × (is_parent p.chunk_kind ≡ true)
            × (p.document_id ≡ c.document_id)
            × (p.version_id ≡ c.version_id)
            × (p.generation_id ≡ c.generation_id)))

-- Each element of one list stands in the other.
abbrev Within : List Chunk → List Chunk → Type 0
Within xs ys = (c : Chunk) → In c xs → In c ys

Within-left : (xs ys : List Chunk) → Within xs (xs ++ ys)
Within-left [] ys c m = absurd m
Within-left (x ∷ xs) ys c (inl e) = inl e
Within-left (x ∷ xs) ys c (inr m) = inr (Within-left xs ys c m)

Within-right : (xs ys : List Chunk) → Within ys (xs ++ ys)
Within-right [] ys c m = m
Within-right (x ∷ xs) ys c m = inr (Within-right xs ys c m)

All-append : (P : Chunk → Type 0) (xs ys : List Chunk) → All P xs → All P ys → All P (xs ++ ys)
All-append P [] ys h k = k
All-append P (x ∷ xs) ys h k = (h.0, All-append P xs ys h.1 k)

module _ (fresh : ℕ → String) (origin : Origin) where
  child_chunks-Linked :
      (all : List Chunk) (parent : Chunk) (path : List (List ℕ)) (prefixed : Bool) (n : ℕ)
      (groups : List (List ParsedBlock))
      → In parent all
      → is_parent parent.chunk_kind ≡ true
      → parent.document_id ≡ origin.document_id
      → parent.version_id ≡ origin.version_id
      → parent.generation_id ≡ origin.generation_id
      → All (Linked all) (child_chunks fresh origin parent.id path prefixed n groups)
  unfolding child_chunks make_chunk
  child_chunks-Linked all parent path prefixed n [] m k d v g = tt
  child_chunks-Linked all parent path prefixed n (x ∷ xs) m k d v g = (
    (refl, inr (refl, parent, m, refl, k, d, v, g)),
    child_chunks-Linked all parent path prefixed (n + 1) xs m k d v g,
  )

  parent_chunks-Linked :
      (all : List Chunk) (limit : ℕ) (path : List (List ℕ)) (prefixed : Bool) (n : ℕ)
      (groups : List (List ParsedBlock))
      → Within (parent_chunks fresh origin limit path prefixed n groups).0 all
      → All (Linked all) (parent_chunks fresh origin limit path prefixed n groups).0
  unfolding parent_chunks
  parent_chunks-Linked all limit path prefixed n [] w = tt
  parent_chunks-Linked all limit path prefixed n (x ∷ xs) w =
      elim (Bool-cases (has_body (render x path prefixed))) [
        | inl t ↦ rw t (
            with_parent
              (parent_chunks-Linked all limit path prefixed (n + 1 + length (split_blocks x limit))
                xs)
              (rw t at w))
        | inr f ↦ rw f (parent_chunks-Linked all limit path prefixed n xs (rw f at w))
      ]
    where
      parent : Chunk
      parent = make_chunk origin (fresh n) none ChunkKind.parent (render x path prefixed) x path

      kids : List Chunk
      kids = child_chunks fresh origin (fresh n) path prefixed (n + 1) (split_blocks x limit)

      rest : List Chunk
      rest =
          (parent_chunks fresh origin limit path prefixed (n + 1 + length (split_blocks x limit))
            xs).0

      with_parent :
          (Within rest all → All (Linked all) rest)
          → Within (parent ∷ kids ++ rest) all
          → All (Linked all) (parent ∷ kids ++ rest)
      with_parent linked w = (
        (refl, inl (refl, refl)),
        All-append (Linked all) kids rest
            (child_chunks-Linked all parent path prefixed (n + 1) (split_blocks x limit)
              (w parent (inl refl)) refl refl refl refl)
            (linked (λ c m. w c (inr (Within-right kids rest c m)))),
      )

  section_chunks-Linked :
      (all : List Chunk) (limits : Limits) (n : ℕ) (sections : List Section)
      → Within (section_chunks fresh origin limits n sections) all
      → All (Linked all) (section_chunks fresh origin limits n sections)
  unfolding section_chunks
  section_chunks-Linked all limits n [] w = tt
  section_chunks-Linked all limits n ((path, blocks) ∷ sections) w =
      All-append (Linked all) made.0 (section_chunks fresh origin limits made.1 sections)
        (parent_chunks-Linked all child_limit path prefixed n groups (λ c m.
          w c (Within-left made.0 (section_chunks fresh origin limits made.1 sections) c m)))
        (section_chunks-Linked all limits made.1 sections (λ c m.
          w c (Within-right made.0 (section_chunks fresh origin limits made.1 sections) c m)))
    where
      prefixed : Bool
      prefixed = include_prefix limits path

      child_limit : ℕ
      child_limit = body_limit prefixed limits.child_tokens path

      groups : List (List ParsedBlock)
      groups = split_blocks blocks (body_limit prefixed limits.parent_tokens path)

      made : List Chunk × ℕ
      made = parent_chunks fresh origin child_limit path prefixed n groups

  -- Whatever the limits, the blocks and the drawn ids are, each chunk that is made is a parent without
  -- a parent, or a child that names a parent among the chunks, of the same document, version and
  -- generation; and its token count is that of its content.
  pub chunk-Linked :
      (limits : Limits) (blocks : List ParsedBlock)
      → All (Linked (chunk fresh origin limits blocks)) (chunk fresh origin limits blocks)
  unfolding chunk
  chunk-Linked limits blocks =
      section_chunks-Linked (chunk fresh origin limits blocks) limits 0 (ordered_sections blocks)
        (λ c m. m)
