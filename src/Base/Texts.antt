-- ===== src/Base/Texts.antt =====
-- Texts as their code points, their lengths, and the character classes of the source's patterns.
use Prim.Native.Nat.{ℕ, zero, suc, ◌+◌, min}
use Prim.Native.Char.{code}
use Prim.Native.String.{String}
use mathlib.Core.Path.{◌≡◌}
use native.Mathlib.Omega.{arith}
use mathlib.Core.Bool.{Bool, true, false, not, ◌&&◌, ◌||◌}
use mathlib.Core.List.{List, [], ◌∷◌}
use atlas_flow_agent.Base.Tests.{leb, eqb}
use atlas_flow_agent.Base.Lists.{length, any, all}

abbrev pub codes : String → List ℕ
codes String.[] = []
codes (String.◌∷◌ c s) = code c ∷ codes s

-- `len(s)`
unfoldable pub text_length : String → ℕ
text_length s = length (codes s)

-- `not s`
unfoldable pub is_blank : String → Bool
is_blank String.[] = true
is_blank (String.◌∷◌ c s) = false

unfoldable pub is_digit : ℕ → Bool
is_digit c = leb b'0' c && leb c b'9'

unfoldable pub is_lower : ℕ → Bool
is_lower c = leb b'a' c && leb c b'z'

unfoldable pub is_upper : ℕ → Bool
is_upper c = leb b'A' c && leb c b'Z'

-- A pattern `^[first][rest]*$`: its first character and those after it.
unfoldable pub matches : (ℕ → Bool) → (ℕ → Bool) → List ℕ → Bool
unfolding all
matches first rest [] = false
matches first rest (c ∷ cs) = first c && all rest cs

-- The characters that `str.strip` removes.
unfoldable pub is_space : ℕ → Bool
is_space c =
    leb 0x09 c && leb c 0x0d
    || leb 0x1c c && leb c 0x20
    || eqb c 0x85
    || eqb c 0xa0
    || eqb c 0x1680
    || leb 0x2000 c && leb c 0x200a
    || eqb c 0x2028
    || eqb c 0x2029
    || eqb c 0x202f
    || eqb c 0x205f
    || eqb c 0x3000

-- `bool(s.strip())`: some character is not a space.
unfoldable pub has_content : String → Bool
unfolding is_space any
has_content s = any (λ c. not (is_space c)) (codes s)

-- `s + t`
unfoldable pub join : String → String → String
join String.[] t = t
join (String.◌∷◌ c s) t = String.◌∷◌ c (join s t)

-- `s[:n]`
unfoldable pub clip : ℕ → String → String
clip zero s = String.[]
clip (suc n) String.[] = String.[]
clip (suc n) (String.◌∷◌ c s) = String.◌∷◌ c (clip n s)

pub text_length-clip : (n : ℕ) (s : String) → text_length (clip n s) ≡ min n (text_length s)
unfolding text_length clip
text_length-clip zero s = omega arith
text_length-clip (suc n) String.[] = omega arith
text_length-clip (suc n) (String.◌∷◌ c s) = omega (arith, text_length-clip n s)

pub text_length-join : (s t : String) → text_length (join s t) ≡ text_length s + text_length t
unfolding text_length join
text_length-join String.[] t = omega arith
text_length-join (String.◌∷◌ c s) t = omega (arith, text_length-join s t)
