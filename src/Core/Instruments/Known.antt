-- ===== src/Core/Instruments/Known.antt =====
-- What `getInstrument` finds after a file was loaded.
use text.Mathlib.TextLemmas.{append-nil}
use text.Mathlib.Text.{◌==◌}
use sample.Base.{
  ℕ, Bool, true, false, String, List, [], ◌∷◌, Option, none, some, ◌≡◌, refl, sym, ap, ◌∙◌, All,
  if◌then◌else◌, str_eq, str_eq_iff, Bool-cases, inl, inr,
}
use sample.Base.Dict
use sample.Base.Int.{pos}
use sample.Core.Instruments.{
  Instruments, Instrument, instrument_of, no_instrument, Failure, pieces, split, load_lines, load,
  get_instrument,
}
use sample.Core.Instruments.Rows.{Row, text_of, Proper, enter, last_id, load_front}

-- The instrument that the last row for a symbol makes.
abbrev pub instrument_or : Instrument → String → Option ℕ → Instrument
instrument_or known symbol none = known
instrument_or known symbol (some id) = instrument_of symbol (pos id)

abbrev pub known_as : String → Instruments → Instrument
known_as symbol m = (get_instrument symbol m).0

abbrev found : Option Instrument → Instrument
found (some i) = i
found none = no_instrument

abbrev entered : String → Instruments → Option Instrument → Instrument × Instruments
entered symbol m o = elim o [
  | some held ↦ (held, m)
  | none ↦ (no_instrument, Dict.insert symbol no_instrument m)
]

held_or :
    (symbol : String) (m : Instruments) (o : Option Instrument) → (entered symbol m o).0 ≡ found o
held_or symbol m (some i) = refl
held_or symbol m none = refl

known_as-lookup :
    (symbol : String) (m : Instruments) → known_as symbol m ≡ found (Dict.lookup symbol m)
unfolding get_instrument Dict.get_or_insert
known_as-lookup symbol m = held_or symbol m (Dict.lookup symbol m)

named :
    (r : Row) (symbol : String) (known : Instrument)
    → (if str_eq r.symbol symbol then instrument_of r.symbol (pos r.id) else known)
      ≡ instrument_or known symbol (if str_eq r.symbol symbol then some r.id else none)
named r symbol known = elim (Bool-cases (str_eq r.symbol symbol)) [
  | inl same ↦
      rw same
        (ap (λ (s : String). instrument_of s (pos r.id)) ((str_eq_iff r.symbol symbol).0 same))
  | inr differs ↦ rw differs refl
]

known_as-insert :
    (symbol : String) (r : Row) (m : Instruments)
    → known_as symbol (Dict.insert r.symbol (instrument_of r.symbol (pos r.id)) m)
      ≡ instrument_or
          (known_as symbol m)
          symbol
          (if str_eq r.symbol symbol then some r.id else none)
known_as-insert symbol r m =
    known_as-lookup symbol (Dict.insert r.symbol (instrument_of r.symbol (pos r.id)) m)
    ∙ ap found (Dict.lookup-insert r.symbol symbol (instrument_of r.symbol (pos r.id)) m)
    ∙ chosen (str_eq r.symbol symbol) (instrument_of r.symbol (pos r.id)) (Dict.lookup symbol m)
    ∙ ap
        (λ (i : Instrument).
          if str_eq r.symbol symbol then instrument_of r.symbol (pos r.id) else i)
        (sym (known_as-lookup symbol m))
    ∙ named r symbol (known_as symbol m)
  where
    chosen :
        (b : Bool) (i : Instrument) (o : Option Instrument)
        → found (if b then some i else o) ≡ (if b then i else found o)
    chosen true i o = refl
    chosen false i o = refl

known_as-enter :
    (symbol : String) (rows : List Row) (m : Instruments)
    → known_as symbol (enter rows m)
      ≡ instrument_or (known_as symbol m) symbol (last_id symbol rows)
known_as-enter symbol [] m = refl
known_as-enter symbol (r ∷ rows) m =
    known_as-enter symbol rows (Dict.insert r.symbol (instrument_of r.symbol (pos r.id)) m)
    ∙ ap (λ (i : Instrument). instrument_or i symbol (last_id symbol rows))
        (known_as-insert symbol r m)
    ∙ later (last_id symbol rows) (if str_eq r.symbol symbol then some r.id else none)
  where
    later :
        (o p : Option ℕ)
        → instrument_or (instrument_or (known_as symbol m) symbol p) symbol o
          ≡ instrument_or (known_as symbol m) symbol (elim o [ some l ↦ some l | none ↦ p ])
    later (some l) p = refl
    later none p = refl

-- `load` of a file of rows "id,symbol", each with an id that is an `int` and a symbol that is not
-- empty and has no comma and no newline, ends without a failure, and then `getInstrument` returns
-- for each symbol the id in the last row for it, and what it returned before where there is no
-- row.
pub load_known :
    (rows : List Row) (m : Instruments)
    → All Proper rows
    → let (loaded, failure) = load (some (text_of rows)) m in
      (failure ≡ none)
      × ((symbol : String)
          → (get_instrument symbol loaded).0
            ≡ instrument_or (get_instrument symbol m).0 symbol (last_id symbol rows))
unfolding load_lines split pieces
load_known rows m p =
    let all =
      ap (λ (t : String). load (some t) m) (sym (append-nil (text_of rows)))
      ∙ load_front rows "" m p in
    (
      ap (λ (r : Instruments × Option Failure). r.1) all,
      λ symbol.
          ap (λ (r : Instruments × Option Failure). known_as symbol r.0) all
          ∙ known_as-enter symbol rows m,
    )
