-- ===== src/Core/Instruments/Rows.antt =====
-- Files of instruments, well-formed and not.
use text.Mathlib.TextLemmas.{nil-append}
use text.Mathlib.Text.{◌==◌}
use sample.Base.{
  ℕ, ◌≤◌, Bool, true, false, String, List, [], ◌∷◌, ◌++◌, map, ◌<>◌, Option, none, some, ◌≡◌, refl,
  sym, ap, ◌∙◌, arith, All, if◌then◌else◌, str_eq,
}
use sample.Base.Dict
use sample.Base.Int.{pos}
use sample.Base.Decimal.{to_string}
use sample.Core.Instruments.{
  Instruments, instrument_of, Failure, single, is_nothing, split, load_items, load_lines, load,
}
use sample.Core.Instruments.Pieces.{Free, Free-append, terminated, split_items, split-terminated}
use sample.Core.Instruments.Numbers.{stoi-to_string, to_string-Free}

pub record Row : Type 0 where
  pub id : ℕ
  pub symbol : String

-- "id,symbol"
abbrev pub line_of : Row → String
line_of r = terminated "," (to_string r.id ∷ []) <> r.symbol

abbrev pub text_of : List Row → String
text_of rows = terminated "\n" (map line_of rows)

-- An id that is an `int`, and a symbol that is not empty and has no comma and no newline.
pub record Proper (r : Row) : Type 0 where
  pub id_fits : r.id ≤ 2147483647
  pub has_symbol : is_nothing r.symbol ≡ false
  pub no_comma : Free b',' r.symbol
  pub one_line : Free b'\n' r.symbol

abbrev pub enter : List Row → Instruments → Instruments
enter [] m = m
enter (r ∷ rows) m = enter rows (Dict.insert r.symbol (instrument_of r.symbol (pos r.id)) m)

-- The id in the last row for a symbol.
abbrev pub last_id : String → List Row → Option ℕ
last_id symbol [] = none
last_id symbol (r ∷ rows) = elim (last_id symbol rows) [
  | some later ↦ some later
  | none ↦ if str_eq r.symbol symbol then some r.id else none
]

line_items : (r : Row) → Proper r → split (line_of r) b',' ≡ to_string r.id ∷ r.symbol ∷ []
line_items r p =
    split-terminated "," (to_string r.id ∷ []) r.symbol (to_string-Free b',' r.id (omega arith), tt)
      p.no_comma
    ∙ ap (λ (b : Bool). to_string r.id ∷ (if b then [] else r.symbol ∷ [])) p.has_symbol

load_row :
    (r : Row) (m : Instruments)
    → Proper r
    → load_items (split (line_of r) b',') m
      ≡ (Dict.insert r.symbol (instrument_of r.symbol (pos r.id)) m, none)
unfolding load_items
load_row r m p =
    ap (λ (l : List String). load_items l m) (line_items r p)
    ∙ rw (stoi-to_string r.id p.id_fits) refl

-- What follows a line.
abbrev then_lines : List String → Instruments × Option Failure → Instruments × Option Failure
then_lines lines p = elim p.1 [ none ↦ load_lines lines p.0 | some f ↦ (p.0, some f) ]

load_line :
    (line : String) (lines : List String) (m : Instruments)
    → load_lines (line ∷ lines) m ≡ then_lines lines (load_items (split line b',') m)
unfolding load_lines
load_line line lines m = refl

load_rows :
    (rows : List Row) (more : List String) (m : Instruments)
    → All Proper rows
    → load_lines (map line_of rows ++ more) m ≡ load_lines more (enter rows m)
load_rows [] more m p = refl
load_rows (r ∷ rows) more m (p, ps) =
    load_line (line_of r) (map line_of rows ++ more) m
    ∙ ap (then_lines (map line_of rows ++ more)) (load_row r m p)
    ∙ load_rows rows more (Dict.insert r.symbol (instrument_of r.symbol (pos r.id)) m) ps

-- A row is one line.
line_of-Free : (r : Row) → Proper r → Free b'\n' (line_of r)
line_of-Free r p =
    Free-append b'\n' (terminated "," (to_string r.id ∷ [])) r.symbol
      (Free-append b'\n' (to_string r.id) (single "," <> "")
        (to_string-Free b'\n' r.id (omega arith))
        (Free-append b'\n' (single ",") "" (λ e. omega (arith, e), tt) tt))
      p.one_line

lines_of-Free : (rows : List Row) → All Proper rows → All (Free b'\n') (map line_of rows)
lines_of-Free [] p = tt
lines_of-Free (r ∷ rows) (p, ps) = (line_of-Free r p, lines_of-Free rows ps)

-- The rows in front of any text are entered first.
pub load_front :
    (rows : List Row) (rest : String) (m : Instruments)
    → All Proper rows
    → load (some (text_of rows <> rest)) m ≡ load_lines (split rest b'\n') (enter rows m)
unfolding load
load_front rows rest m p =
    ap (λ (l : List String). load_lines l m)
      (split_items "\n" (map line_of rows) rest (lines_of-Free rows p))
    ∙ load_rows rows (split rest b'\n') m p

-- A line without a comma has no second item.
bad_line :
    (line : String) (m : Instruments)
    → Free b',' line
    → load_items (split line b',') m ≡ (m, some Failure.undefined)
unfolding load_items
bad_line line m free =
    ap (λ (l : List String). load_items l m)
      (ap (λ (t : String). split t b',') (sym (nil-append line))
        ∙ split-terminated "," [] line tt free)
    ∙ short (is_nothing line)
  where
    short : (b : Bool) → load_items (if b then [] else line ∷ []) m ≡ (m, some Failure.undefined)
    short true = refl
    short false = refl

-- A line without a comma behind such rows ends `load` with undefined behaviour, when the rows
-- before it are entered and none behind it is.
pub load_stops :
    (rows : List Row) (line rest : String) (m : Instruments)
    → All Proper rows
    → Free b',' line
    → Free b'\n' line
    → load (some (text_of rows <> terminated "\n" (line ∷ []) <> rest)) m
      ≡ (enter rows m, some Failure.undefined)
load_stops rows line rest m p one_item one_line =
    load_front rows (terminated "\n" (line ∷ []) <> rest) m p
    ∙ ap (λ (l : List String). load_lines l (enter rows m))
        (split_items "\n" (line ∷ []) rest (one_line, tt))
    ∙ load_line line (split rest b'\n') (enter rows m)
    ∙ ap (then_lines (split rest b'\n')) (bad_line line (enter rows m) one_item)
