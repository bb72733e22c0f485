-- ===== src/Trade/Hex.antt =====
-- `b2a_hex`, and `hmac_sha256` over it.
pub mod RoundTrip
use sample.Base.{ℕ, ◌/◌, ◌%◌, ◌<◌, String, List, [], ◌∷◌, ◌<>◌, char_at}
use Prim.Native.Char.{Char}
use sample.External.{Libraries}

-- `HexCodes[n]`
unfoldable pub hex_code : ℕ → Char
hex_code n = char_at "0123456789abcdef" n

abbrev pub two : Char → Char → String
two c d = String.◌∷◌ c (String.◌∷◌ d String.[])

-- The loop of `b2a_hex` over the bytes that are left: `(b >> 4) & 0x0F`, then `b & 0x0F`.
unfoldable pub hex_from : List ℕ → String → String
unfolding hex_code
hex_from [] text = text
hex_from (b ∷ bytes) text =
    hex_from bytes (text <> two (hex_code (b / 16 % 16)) (hex_code (b % 16)))

unfoldable pub b2a_hex : List ℕ → String
unfolding hex_from
b2a_hex bytes = hex_from bytes ""

unfoldable pub hmac_sha256 : Libraries → (key text : String) → String
hmac_sha256 lib key text = b2a_hex (lib.hmac key text)
