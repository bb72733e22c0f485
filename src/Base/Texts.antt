-- ===== src/Base/Texts.antt =====
-- Texts: concatenation as an operator, and the character at an index.
use Prim.Native.String
use Prim.Native.String.{String}
use Prim.Native.Char.{Char}
use Prim.Native.Nat.{ℕ, zero, suc}

infixr 65 ◌<>◌
abbrev pub ◌<>◌ : String → String → String
s <> t = String.◌++◌ s t

-- `text[i]`; the callers stay in range.
abbrev pub char_at : String → ℕ → Char
char_at String.[] i = "?"
char_at (String.◌∷◌ c text) zero = c
char_at (String.◌∷◌ c text) (suc i) = char_at text i
