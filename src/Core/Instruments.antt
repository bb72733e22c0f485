-- ===== src/Core/Instruments.antt =====
-- `SecurityMaster` of exchange-core.h: the instruments by symbol, and the file that they are read from.
pub mod Pieces
pub mod Numbers
pub mod Rows
pub mod Known
use Prim.Native.Char.{Char, code}
use sample.Base.{
  ◌≡◌, refl, ℕ, ◌+◌, ◌-◌, ◌*◌, Bool, true, false, not, ◌&&◌, ◌||◌, String, List, [], ◌∷◌, ◌<>◌,
  Option, none, some, ltb, leb, ◌==◌, if◌then◌else◌,
}
use sample.Base.Dict
use sample.Base.Int.{ℤ, pos, neg_ℕ}

pub data InstrumentType : Type 0 where
  stock future options crypto : InstrumentType

-- `type` is `none` where it is indeterminate.
pub record Instrument : Type 0 where
  pub symbol : String
  pub type : Option InstrumentType
  pub instrument_id : ℤ

-- `mInstrumentMap`
abbrev pub Instruments : Type 0
Instruments = List (String × Instrument)

-- What ends `load` before the end of the file: a line with fewer than two items, for which `items[1]`
-- is undefined, and the two exceptions of `std::stoi`.
pub data Failure : Type 0 where
  undefined invalid_argument out_of_range : Failure

-- The text `c`.
abbrev pub single : Char → String
single c = String.◌∷◌ c String.[]

abbrev pub is_nothing : String → Bool
is_nothing String.[] = true
is_nothing (String.◌∷◌ c text) = false

-- `std::getline` until it fails: what follows the last delimiter counts unless it is empty. `item` is
-- what was read of the current item.
unfoldable pub pieces : (delim : ℕ) (item text : String) → List String
pieces delim item String.[] = if is_nothing item then [] else item ∷ []
pieces delim item (String.◌∷◌ c text) =
    let next = pieces delim "" text in
    let on = pieces delim (item <> single c) text in if code c == delim then item ∷ next else on

-- `split`
unfoldable pub split : String → (delim : ℕ) → List String
unfolding pieces
split s delim = pieces delim "" s

-- `isspace`
abbrev pub is_space : ℕ → Bool
is_space c = c == b' ' || leb 9 c && leb c 13

abbrev pub is_digit : ℕ → Bool
is_digit c = leb b'0' c && leb c b'9'

unfoldable pub skip_spaces : String → String
skip_spaces String.[] = ""
skip_spaces (String.◌∷◌ c text) =
    let rest = skip_spaces text in if is_space (code c) then rest else String.◌∷◌ c text

-- The digits that a text begins with, read behind the value `acc`.
unfoldable pub read_digits : (acc : ℕ) → String → ℕ
read_digits acc String.[] = acc
read_digits acc (String.◌∷◌ c text) =
    let more = read_digits (acc * 10 + (code c - b'0')) text in
    if is_digit (code c) then more else acc

abbrev pub begins_with_digit : String → Bool
begins_with_digit String.[] = false
begins_with_digit (String.◌∷◌ c text) = is_digit (code c)

-- The result of a call that may throw.
pub data Result (A : Type 0) : Type 0 where
  ok : A → Result A
  throws : Failure → Result A

-- The number behind the sign, within the range of `int`.
unfoldable pub signed_number : (negative : Bool) → String → Result ℤ
unfolding read_digits
signed_number negative text =
    let n = read_digits 0 text in
    if not (begins_with_digit text)
    then throws Failure.invalid_argument
    else if ltb (if negative then 2147483648 else 2147483647) n
    then throws Failure.out_of_range
    else ok (if negative then neg_ℕ n else pos n)

abbrev behind_spaces : String → Result ℤ
behind_spaces String.[] = signed_number false ""
behind_spaces (String.◌∷◌ c text) =
    if code c == b'-'
    then signed_number true text
    else if code c == b'+'
    then signed_number false text
    else signed_number false (String.◌∷◌ c text)

-- `std::stoi`
unfoldable pub stoi : String → Result ℤ
unfolding skip_spaces
stoi text = behind_spaces (skip_spaces text)

-- `Instrument instr;`, with the two members that `load` assigns.
abbrev pub instrument_of : String → ℤ → Instrument
instrument_of symbol id = record { symbol = symbol; type = none; instrument_id = id }

abbrev stored : String → Instruments → Result ℤ → Instruments × Option Failure
stored symbol map (ok id) = (Dict.insert symbol (instrument_of symbol id) map, none)
stored symbol map (throws f) = (map, some f)

-- One round of `load`, on the items of a line.
unfoldable pub load_items : List String → Instruments → Instruments × Option Failure
unfolding stoi
load_items (id ∷ symbol ∷ more) map = stored symbol map (stoi id)
load_items _ map = (map, some Failure.undefined)

unfoldable pub load_lines : List String → Instruments → Instruments × Option Failure
unfolding load_items split
load_lines [] map = (map, none)
load_lines (line ∷ lines) map =
    let (map', failure) = load_items (split line b',') map in
    elim failure [ none ↦ load_lines lines map' | some f ↦ (map', some f) ]

-- `load`, on the text of the file; it is `none` when the file does not open, and no line is read then.
-- Without a failure it returns true.
unfoldable pub load : Option String → Instruments → Instruments × Option Failure
unfolding load_lines split
load none map = (map, none)
load (some text) map = load_lines (split text b'\n') map

-- `mInstrumentMap[symbol]` enters a missing symbol with an instrument that is all zero.
abbrev pub no_instrument : Instrument
no_instrument = record { symbol = ""; type = some InstrumentType.stock; instrument_id = pos 0 }

unfoldable pub get_instrument : String → Instruments → Instrument × Instruments
get_instrument symbol map = Dict.get_or_insert symbol no_instrument map
