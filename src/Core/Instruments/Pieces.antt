-- ===== src/Core/Instruments/Pieces.antt =====
-- Splitting a text, against putting its items together.
use Prim.Native.Char.{Char, code}
use text.Mathlib.TextLemmas.{append-nil, append_assoc, nil-append, cons-append}
use mathlib.Core.Path.{subst}
use sample.Base.{
  ℕ, Bool, true, not, ◌&&◌, ◌==◌, String, List, [], ◌∷◌, ◌++◌, ◌<>◌, ◌≡◌, ◌≢◌, refl, sym, ap, ◌∙◌,
  arith, All, if◌then◌else◌,
}
use sample.Core.Instruments.{single, is_nothing, pieces, split}

-- A text without a character.
abbrev pub Free : ℕ → String → Type 0
Free delim String.[] = Unit {0}
Free delim (String.◌∷◌ c text) = (code c ≢ delim) × Free delim text

pub Free-append : (d : ℕ) (a b : String) → Free d a → Free d b → Free d (a <> b)
Free-append d String.[] b fa fb = subst (Free d) (sym (nil-append b)) fb
Free-append d (String.◌∷◌ c a) b (differs, fa) fb =
    subst (Free d) (sym (cons-append c a b)) (differs, Free-append d a b fa fb)

-- A test for a text without a character.
abbrev is_free : ℕ → String → Bool
is_free delim String.[] = true
is_free delim (String.◌∷◌ c text) = not (code c == delim) && is_free delim text

pub is_free-Free : (delim : ℕ) (text : String) → is_free delim text ≡ true → Free delim text
is_free-Free delim String.[] e = tt
is_free-Free delim (String.◌∷◌ c text) e =
    (λ same. ground (arith, same), is_free-Free delim text (ground arith))

-- Each item with the delimiter behind it.
abbrev pub terminated : Char → List String → String
terminated d [] = ""
terminated d (item ∷ items) = item <> single d <> terminated d items

single-append : (c : Char) (text : String) → single c <> text ≡ String.◌∷◌ c text
single-append c text = rw (cons-append, nil-append) refl

pieces_other :
    (delim : ℕ) (item : String) (c : Char) (text : String)
    → code c ≢ delim
    → pieces delim item (String.◌∷◌ c text) ≡ pieces delim (item <> single c) text
unfolding pieces
pieces_other delim item c text differs = ground arith

pub pieces-Free :
    (delim : ℕ) (item a rest : String)
    → Free delim a
    → pieces delim item (a <> rest) ≡ pieces delim (item <> a) rest
unfolding pieces
pieces-Free delim item String.[] rest free = rw (nil-append, append-nil) refl
pieces-Free delim item (String.◌∷◌ c a) rest (differs, free) =
    ap (pieces delim item) (cons-append c a rest)
    ∙ pieces_other delim item c (a <> rest) differs
    ∙ pieces-Free delim (item <> single c) a rest free
    ∙ ap (λ (t : String). pieces delim t rest)
        (append_assoc item (single c) a ∙ ap (λ (t : String). item <> t) (single-append c a))

pieces_delim :
    (d : Char) (item rest : String)
    → pieces (code d) item (single d <> rest) ≡ item ∷ pieces (code d) "" rest
unfolding pieces
pieces_delim d item rest = ap (pieces (code d) item) (single-append d rest) ∙ ground arith

pieces_item :
    (d : Char) (item rest : String)
    → Free (code d) item
    → pieces (code d) "" (item <> single d <> rest) ≡ item ∷ pieces (code d) "" rest
pieces_item d item rest free =
    pieces-Free (code d) "" item (single d <> rest) free
    ∙ ap (λ (t : String). pieces (code d) t (single d <> rest)) (nil-append item)
    ∙ pieces_delim d item rest

-- What is left when the delimiters are used up.
abbrev pub last_item : String → List String
last_item last = if is_nothing last then [] else last ∷ []

pieces_last : (delim : ℕ) (last : String) → Free delim last → pieces delim "" last ≡ last_item last
unfolding pieces
pieces_last delim last free =
    ap (pieces delim "") (sym (append-nil last))
    ∙ pieces-Free delim "" last "" free
    ∙ ap last_item (nil-append last)

regroup : (a b c d : String) → (a <> b <> c) <> d ≡ a <> b <> (c <> d)
regroup a b c d = append_assoc a (b <> c) d ∙ ap (λ (t : String). a <> t) (append_assoc b c d)

-- Items that are terminated are split off, whatever follows.
pub split_items :
    (d : Char) (items : List String) (rest : String)
    → All (Free (code d)) items
    → split (terminated d items <> rest) (code d) ≡ items ++ split rest (code d)
unfolding split
split_items d [] rest free = ap (pieces (code d) "") (nil-append rest)
split_items d (item ∷ items) rest (free, all) =
    ap (pieces (code d) "") (regroup item (single d) (terminated d items) rest)
    ∙ pieces_item d item (terminated d items <> rest) free
    ∙ ap (λ (l : List String). item ∷ l) (split_items d items rest all)

-- `split` takes apart items that hold no delimiter, each with a delimiter behind it, and a last
-- item without one, which it leaves out if it is empty.
pub split-terminated :
    (d : Char) (items : List String) (last : String)
    → All (Free (code d)) items
    → Free (code d) last
    → split (terminated d items <> last) (code d) ≡ items ++ last_item last
unfolding split
split-terminated d items last free last_free =
    split_items d items last free
    ∙ ap (λ (l : List String). items ++ l) (pieces_last (code d) last last_free)
