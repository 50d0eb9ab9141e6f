-- ===== src/Chunking/Packing.antt =====
-- What `_split_blocks` of backend/src/atlasflow/knowledge/ingestion/chunker.py does with fragments.
use atlas_flow_agent.Base.{
  ℕ, ◌+◌, ◌≤◌, ◌<◌, ◌≡◌, refl, ap, ◌∙◌, ◌⊎◌, inl, inr, true, false, not, ◌&&◌, List, ◌∷◌, ◌++◌,
  arith, ltb, Bool-cases, All, nat_eq, string_eq, length, is_empty, [],
}
use atlas_flow_agent.Chunking.Tokens.{ParsedBlock, estimate_tokens, concat}
use atlas_flow_agent.Chunking.Structure.{pack, flush_group, split_blocks, all_fragments}

-- The tokens of the blocks of a group, counted one by one.
abbrev pub total : List ParsedBlock → ℕ
total [] = 0
total (b ∷ bs) = estimate_tokens b.text + total bs

-- A group that is not empty, and has no more tokens than the limit unless it is a single fragment.
abbrev pub Packed : ℕ → List ParsedBlock → Type 0
Packed limit g = (0 < length g) × ((total g ≤ limit) ⊎ (length g ≡ 1))

pub append_nil : {A : Type 0} (xs : List A) → xs ++ [] ≡ xs
append_nil [] = refl
append_nil (x ∷ xs) = ap (λ ys. x ∷ ys) (append_nil xs)

pub append_assoc : {A : Type 0} (xs ys zs : List A) → (xs ++ ys) ++ zs ≡ xs ++ (ys ++ zs)
append_assoc [] ys zs = refl
append_assoc (x ∷ xs) ys zs = ap (λ ws. x ∷ ws) (append_assoc xs ys zs)

concat-flush_group :
    (current : List ParsedBlock) (rest : List (List ParsedBlock))
    → concat (flush_group current rest) ≡ current ++ concat rest
concat-flush_group [] rest = refl
concat-flush_group (b ∷ bs) rest = refl

total-append : (xs ys : List ParsedBlock) → total (xs ++ ys) ≡ total xs + total ys
total-append [] ys = omega arith
total-append (x ∷ xs) ys = omega (arith, total-append xs ys)

pack-concat :
    (limit count : ℕ) (current fs : List ParsedBlock)
    → concat (pack limit current count fs) ≡ current ++ fs
unfolding pack
pack-concat limit count current [] = concat-flush_group current []
pack-concat limit count current (f ∷ fs) =
    elim (Bool-cases (not (is_empty current) && ltb limit (count + estimate_tokens f.text))) [
      | inl t ↦ rw t (
          concat-flush_group current (pack limit (f ∷ []) (estimate_tokens f.text) fs)
          ∙ ap (λ ys. current ++ ys) (pack-concat limit (estimate_tokens f.text) (f ∷ []) fs))
      | inr n ↦ rw n (
          pack-concat limit (count + estimate_tokens f.text) (current ++ f ∷ []) fs
          ∙ append_assoc current (f ∷ []) fs)
    ]

-- What holds of the group that is open: it is empty, or packed.
abbrev Open : ℕ → List ParsedBlock → Type 0
Open limit current = (is_empty current ≡ true) ⊎ Packed limit current

flush_group-Packed :
    (limit : ℕ) (current : List ParsedBlock) (rest : List (List ParsedBlock))
    → Open limit current
    → All (Packed limit) rest
    → All (Packed limit) (flush_group current rest)
flush_group-Packed limit [] rest o h = h
flush_group-Packed limit (b ∷ bs) rest (inl e) h = cc
flush_group-Packed limit (b ∷ bs) rest (inr p) h = (p, h)

single-Packed : (limit : ℕ) (f : ParsedBlock) → Packed limit (f ∷ [])
single-Packed limit f = (omega arith, inr refl)

longer-Packed :
    (limit count : ℕ) (current : List ParsedBlock) (f : ParsedBlock)
    → total current ≡ count
    → (not (is_empty current) && ltb limit (count + estimate_tokens f.text)) ≡ false
    → Packed limit (current ++ f ∷ [])
longer-Packed limit count [] f e n = single-Packed limit f
longer-Packed limit count (b ∷ bs) f e n =
    let t = total-append (b ∷ bs) (f ∷ []) in
    let fits : count + estimate_tokens f.text ≤ limit = ground arith in
    (omega arith, inl (omega arith))

pack-Packed :
    (limit count : ℕ) (current fs : List ParsedBlock)
    → total current ≡ count
    → Open limit current
    → All (Packed limit) (pack limit current count fs)
unfolding pack
pack-Packed limit count current [] e o = flush_group-Packed limit current [] o tt
pack-Packed limit count current (f ∷ fs) e o =
    elim (Bool-cases (not (is_empty current) && ltb limit (count + estimate_tokens f.text))) [
      | inl t ↦ rw t (
          flush_group-Packed limit current (pack limit (f ∷ []) (estimate_tokens f.text) fs) o (
            pack-Packed limit (estimate_tokens f.text) (f ∷ []) fs (omega arith)
              (inr (single-Packed limit f))))
      | inr n ↦
          let t = total-append current (f ∷ []) in
          rw n (
            pack-Packed limit (count + estimate_tokens f.text) (current ++ f ∷ []) fs (omega arith)
              (inr (longer-Packed limit count current f e n)))
    ]

-- The groups of fragments are, one after the other, the fragments of the blocks in their order: none
-- is lost, repeated or moved. Each group is not empty and has no more tokens than the limit, unless it
-- is a single fragment.
pub split_blocks-Packed :
    (blocks : List ParsedBlock) (limit : ℕ)
    → (concat (split_blocks blocks limit) ≡ all_fragments limit blocks)
      × All (Packed limit) (split_blocks blocks limit)
unfolding split_blocks
split_blocks-Packed blocks limit = (
  pack-concat limit 0 [] (all_fragments limit blocks),
  pack-Packed limit 0 [] (all_fragments limit blocks) refl (inl refl),
)
