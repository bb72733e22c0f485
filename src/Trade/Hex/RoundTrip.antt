-- ===== src/Trade/Hex/RoundTrip.antt =====
-- The digits that `b2a_hex` writes, read back.
use Prim.Native.Char.{code}
use Prim.Native.String.{String}
use mathlib.Core.Option
use text.Mathlib.TextLemmas.{append-nil, append_assoc, nil-append, cons-append}
use sample.Base.{
  ℕ, ◌+◌, ◌-◌, ◌*◌, ◌/◌, ◌%◌, ◌<◌, List, [], ◌∷◌, Option, none, some, ◌≡◌, refl, sym, ap, ◌∙◌,
  arith, ◌<>◌, All, if◌then◌else◌, ltb, ◌>>=◌, Bool, true, false, ◌==◌, ==_iff, below_lem,
}
use sample.Trade.Hex.{hex_code, two, hex_from, b2a_hex}

-- The value of a lower-case hexadecimal digit.
abbrev pub digit_value : ℕ → Option ℕ
digit_value c =
    if ltb c b'0'
    then none
    else if ltb c (b'9' + 1)
    then some (c - b'0')
    else if ltb c b'a'
    then none
    else if ltb c (b'f' + 1)
    then some (c - b'a' + 10)
    else none

-- Reads pairs of digits.
abbrev pub bytes_of : String → Option (List ℕ)
bytes_of String.[] = some []
bytes_of (String.◌∷◌ c String.[]) = none
bytes_of (String.◌∷◌ c (String.◌∷◌ d text)) = digit_value (code c) >>= λ hi.
    digit_value (code d) >>= λ lo. Option.map (λ bytes. (hi * 16 + lo) ∷ bytes) (bytes_of text)

abbrev is_value : Option ℕ → ℕ → Bool
is_value (some m) n = m == n
is_value none n = false

is_value_lem : (o : Option ℕ) (n : ℕ) → is_value o n ≡ true → o ≡ some n
is_value_lem (some m) n e = ap some ((==_iff m n).0 e)
is_value_lem none n e = cc

digit_value-hex_code : (n : ℕ) → n < 16 → digit_value (code (hex_code n)) ≡ some n
unfolding hex_code
digit_value-hex_code n h =
    is_value_lem (digit_value (code (hex_code n))) n
      (below_lem 16 (λ k. is_value (digit_value (code (hex_code k))) k) n refl h)

-- The text, without the accumulator of the loop.
pairs : List ℕ → String
pairs [] = ""
pairs (b ∷ bytes) = two (hex_code (b / 16 % 16)) (hex_code (b % 16)) <> pairs bytes

hex_from-pairs : (bytes : List ℕ) (text : String) → hex_from bytes text ≡ text <> pairs bytes
unfolding hex_from pairs
hex_from-pairs [] text = sym (append-nil text)
hex_from-pairs (b ∷ bytes) text =
    hex_from-pairs bytes (text <> two (hex_code (b / 16 % 16)) (hex_code (b % 16)))
    ∙ append_assoc text (two (hex_code (b / 16 % 16)) (hex_code (b % 16))) (pairs bytes)

bytes_of-pairs : (bytes : List ℕ) → All (λ b. b < 256) bytes → bytes_of (pairs bytes) ≡ some bytes
unfolding pairs
bytes_of-pairs [] h = refl
bytes_of-pairs (b ∷ bytes) (small, h) =
    rw
      (
        cons-append,
        cons-append,
        nil-append,
        digit_value-hex_code (b / 16 % 16) (omega arith),
        digit_value-hex_code (b % 16) (omega arith),
        bytes_of-pairs bytes h,
      )
      (ap (λ (x : ℕ). some (x ∷ bytes)) (omega arith))

-- Reading pairs of hexadecimal digits from what `b2a_hex` makes of a sequence of bytes gives these
-- bytes back.
pub bytes_of-b2a_hex :
    (bytes : List ℕ) → All (λ b. b < 256) bytes → bytes_of (b2a_hex bytes) ≡ some bytes
unfolding b2a_hex
bytes_of-b2a_hex bytes h = rw (hex_from-pairs bytes "", nil-append) (bytes_of-pairs bytes h)
