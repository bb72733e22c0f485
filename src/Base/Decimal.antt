-- ===== src/Base/Decimal.antt =====
-- `std::to_string` of an integer that is not negative, and `std::string::replace` of a "#".
use mathlib.Core.Path.{◌≡◌, refl}
use Prim.Native.Nat.{ℕ, zero, suc, ◌/◌, ◌%◌}
use Prim.Native.Char.{code}
use Prim.Native.String.{String}
use sample.Base.Tests.{ltb, ◌==◌, if◌then◌else◌}
use sample.Base.Texts.{◌<>◌, char_at}

unfoldable pub digit : ℕ → String
digit n = String.◌∷◌ (char_at "0123456789" n) String.[]

-- The digits of `n` in front of `done`. Each round divides by ten, so `n + 1` rounds are enough.
unfoldable pub digits : (fuel n : ℕ) → String → String
unfolding digit
digits zero n done = done
digits (suc fuel) n done =
    let more = digits fuel (n / 10) (digit (n % 10) <> done) in
    if ltb n 10 then digit n <> done else more

unfoldable pub to_string : ℕ → String
unfolding digits
to_string n = digits (suc n) n ""

-- `text.replace(text.find("#"), 1, by)`, on a text that has a "#".
unfoldable pub replace_hash : String → String → String
replace_hash String.[] by = ""
replace_hash (String.◌∷◌ c text) by =
    let rest = replace_hash text by in if code c == b'#' then by <> text else String.◌∷◌ c rest

to_string_runs : to_string 1001 ≡ "1001"
unfolding to_string
to_string_runs = refl

replace_hash_runs : replace_hash "a#b#" "12" ≡ "a12b#"
unfolding replace_hash
replace_hash_runs = refl
