-- ===== src/Core/Instruments/Numbers.antt =====
-- `std::stoi` on what `std::to_string` writes.
use Prim.Native.Char.{Char, code}
use text.Mathlib.TextLemmas.{nil-append, cons-append}
use sample.Base.{
  ℕ, zero, suc, ◌+◌, ◌-◌, ◌*◌, ◌/◌, ◌%◌, ◌≤◌, ◌<◌, true, false, String, ◌<>◌, char_at, ◌≡◌, refl,
  sym, ap, ◌∙◌, arith, ◌==◌, ==_iff, below_lem,
}
use mathlib.Core.Path.{subst}
use native.Mathlib.Decide.{dec_lt}
use sample.Base.Int.{pos}
use sample.Base.Decimal.{digit, digits, to_string}
use sample.Core.Instruments.{read_digits, begins_with_digit, ok, signed_number, stoi}
use sample.Core.Instruments.Pieces.{Free}

abbrev digit_char : ℕ → Char
digit_char n = char_at "0123456789" n

digit_code : (n : ℕ) → n < 10 → code (digit_char n) ≡ b'0' + n
digit_code n h =
    (==_iff (code (digit_char n)) (b'0' + n)).0
      (below_lem 10 (λ k. code (digit_char k) == b'0' + k) n refl h)

digit-append : (n : ℕ) (rest : String) → digit n <> rest ≡ String.◌∷◌ (digit_char n) rest
unfolding digit
digit-append n rest = rw (cons-append, nil-append) refl

read_digits_char :
    (acc n : ℕ) (c : Char) (rest : String)
    → n < 10
    → code c ≡ b'0' + n
    → read_digits acc (String.◌∷◌ c rest) ≡ read_digits (acc * 10 + n) rest
unfolding read_digits
read_digits_char acc n c rest h e =
    ground (arith, ap (λ (k : ℕ). read_digits (acc * 10 + k) rest) (offset (code c) n e))
  where
    offset : (k n : ℕ) → k ≡ b'0' + n → k - b'0' ≡ n
    offset k n e = omega arith

read_digits-digit :
    (acc n : ℕ) (rest : String)
    → n < 10
    → read_digits acc (digit n <> rest) ≡ read_digits (acc * 10 + n) rest
read_digits-digit acc n rest h =
    ap (read_digits acc) (digit-append n rest)
    ∙ read_digits_char acc n (digit_char n) rest h (digit_code n h)

digits_small : (fuel n : ℕ) (done : String) → n < 10 → digits (suc fuel) n done ≡ digit n <> done
unfolding digits
digits_small fuel n done h = ground arith

digits_large :
    (fuel n : ℕ) (done : String)
    → 10 ≤ n
    → digits (suc fuel) n done ≡ digits fuel (n / 10) (digit (n % 10) <> done)
unfolding digits
digits_large fuel n done h = ground arith

-- Reading the digits of `n` leaves `n` as the value before what follows them.
read_digits-digits :
    (fuel n : ℕ) (done : String)
    → n < fuel
    → read_digits 0 (digits fuel n done) ≡ read_digits n done
read_digits-digits zero n done h = absurd (omega arith)
read_digits-digits (suc fuel) n done h = elim (dec_lt n 10) [
  | yes small ↦
      ap (read_digits 0) (digits_small fuel n done small)
      ∙ read_digits-digit 0 n done small
      ∙ ap (λ (k : ℕ). read_digits k done) (omega arith)
  | no large ↦
      ap (read_digits 0) (digits_large fuel n done (omega arith))
      ∙ read_digits-digits fuel (n / 10) (digit (n % 10) <> done) (omega arith)
      ∙ read_digits-digit (n / 10) (n % 10) done (omega arith)
      ∙ ap (λ (k : ℕ). read_digits k done) (omega arith)
]

begins-digit : (n : ℕ) (rest : String) → n < 10 → begins_with_digit (digit n <> rest) ≡ true
begins-digit n rest h = ap begins_with_digit (digit-append n rest) ∙ ground (arith, digit_code n h)

begins-digits :
    (fuel n : ℕ) (done : String) → n < fuel → begins_with_digit (digits fuel n done) ≡ true
begins-digits zero n done h = absurd (omega arith)
begins-digits (suc fuel) n done h = elim (dec_lt n 10) [
  | yes small ↦ ap begins_with_digit (digits_small fuel n done small) ∙ begins-digit n done small
  | no large ↦
      ap begins_with_digit (digits_large fuel n done (omega arith))
      ∙ begins-digits fuel (n / 10) (digit (n % 10) <> done) (omega arith)
]

-- A text that begins with a digit has no spaces or sign to skip.
stoi_begins : (text : String) → begins_with_digit text ≡ true → stoi text ≡ signed_number false text
unfolding stoi
stoi_begins String.[] h = cc
stoi_begins (String.◌∷◌ c text) h = ground arith

signed_number_lem :
    (text : String) (n : ℕ)
    → begins_with_digit text ≡ true
    → read_digits 0 text ≡ n
    → n ≤ 2147483647
    → signed_number false text ≡ ok (pos n)
unfolding signed_number
signed_number_lem text n b r h = ground arith

pub stoi-to_string : (n : ℕ) → n ≤ 2147483647 → stoi (to_string n) ≡ ok (pos n)
unfolding to_string read_digits
stoi-to_string n h =
    let begins = begins-digits (suc n) n "" (omega arith) in
    stoi_begins (to_string n) begins
    ∙ signed_number_lem (to_string n) n begins
        (read_digits-digits (suc n) n "" (omega arith) ∙ ended n) h
  where
    ended : (n : ℕ) → read_digits n "" ≡ n
    ended n = refl

Free-digit :
    (delim n : ℕ) (rest : String)
    → delim < b'0'
    → n < 10
    → Free delim rest
    → Free delim (digit n <> rest)
Free-digit delim n rest low h free =
    subst (Free delim) (sym (digit-append n rest)) (λ e. omega (arith, digit_code n h), free)

Free-digits :
    (fuel delim n : ℕ) (done : String)
    → delim < b'0'
    → Free delim done
    → Free delim (digits fuel n done)
unfolding digits
Free-digits zero delim n done low free = free
Free-digits (suc fuel) delim n done low free = elim (dec_lt n 10) [
  | yes small ↦
      subst (Free delim) (sym (digits_small fuel n done small))
        (Free-digit delim n done low small free)
  | no large ↦ subst (Free delim) (sym (digits_large fuel n done (omega arith))) (
      Free-digits fuel delim (n / 10) (digit (n % 10) <> done) low
        (Free-digit delim (n % 10) done low (omega arith) free))
]

-- The decimal text of a number has digits alone.
pub to_string-Free : (delim n : ℕ) → delim < b'0' → Free delim (to_string n)
unfolding to_string
to_string-Free delim n low = Free-digits (suc n) delim n "" low tt
