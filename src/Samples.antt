-- ===== src/Samples.antt =====
-- Concrete libraries, on which the examples run: JSON values, integers in place of floating-point
-- numbers, a digest of 32 equal bytes.
use sample.Base.{
  ℕ, zero, suc, ◌<◌, Bool, true, false, String, List, [], ◌∷◌, Option, none, some, ◌≡◌, refl, ap,
  length, All, if◌then◌else◌, str_eq, ◌<>◌, ◌>>=◌, arith, is_some,
}
use sample.Base.Decimal.{to_string}
use sample.Base.Int.{ℤ, pos, negsuc, neg_ℕ, div_ℤ, pos_part}
use sample.External.{
  Rapidjson, Doubles, Libraries, WriterCall, start_object, end_object, start_array, end_array, key,
  string, uint64, double,
}

-- A list of items is an array, a list of fields an object.
pub data Json : Type 0 where
  text : String → Json
  number : ℤ → Json
  end : Json
  item : Json → Json → Json
  field : String → Json → Json → Json

abbrev pub get_field : String → Json → Option Json
get_field name (field n v rest) = if str_eq n name then some v else get_field name rest
get_field name _ = none

abbrev pub has_field : Json → String → Option Bool
has_field (field n v rest) name = if str_eq n name then some true else has_field rest name
has_field end name = some false
has_field _ name = none

abbrev pub get_item : Json → ℕ → Option Json
get_item (item v rest) zero = some v
get_item (item v rest) (suc i) = get_item rest i
get_item _ _ = none

abbrev pub count_items : Json → Option ℕ
count_items (item v rest) = count_items rest >>= λ n. some (suc n)
count_items end = some 0
count_items _ = none

abbrev pub text_in : Json → Option String
text_in (text s) = some s
text_in _ = none

abbrev pub number_in : Json → Option ℤ
number_in (number z) = some z
number_in _ = none

abbrev pub natural_in : Json → Option ℕ
natural_in (number (pos n)) = some n
natural_in _ = none

-- A reader of JSON that knows one text.
abbrev pub json_of : String → Json → Rapidjson
json_of known doc = record {
  Value = Json;
  parse = λ msg. if str_eq msg known then doc else end;
  has_member = has_field;
  member = λ v name. get_field name v;
  size = count_items;
  element = get_item;
  get_string = text_in;
  get_int64 = number_in;
  get_uint64 = natural_in;
}

abbrev pub negate : ℤ → ℤ
negate (pos n) = neg_ℕ n
negate (negsuc n) = pos (suc n)

abbrev pub integers : Doubles
integers = record {
  Double = ℤ;
  of_int = λ z. z;
  neg = negate;
  div = λ a b. div_ℤ a (pos_part b);
  mul = λ a b. a;
  to_long = λ z. z;
}

abbrev pub rendered : List (WriterCall ℤ) → String
rendered [] = ""
rendered (start_object ∷ calls) = "{" <> rendered calls
rendered (end_object ∷ calls) = "}" <> rendered calls
rendered (start_array ∷ calls) = "[" <> rendered calls
rendered (end_array ∷ calls) = "]" <> rendered calls
rendered (key k ∷ calls) = k <> ":" <> rendered calls
rendered (string s ∷ calls) = s <> "," <> rendered calls
rendered (uint64 n ∷ calls) = to_string n <> "," <> rendered calls
rendered (double z ∷ calls) = to_string (pos_part z) <> "," <> rendered calls

abbrev pub repeated : ℕ → List ℕ
repeated zero = []
repeated (suc n) = 171 ∷ repeated n

pub length-repeated : (n : ℕ) → length (repeated n) ≡ n
length-repeated zero = refl
length-repeated (suc n) = ap suc (length-repeated n)

pub repeated_bytes : (n : ℕ) → All (λ b. b < 256) (repeated n)
repeated_bytes zero = tt
repeated_bytes (suc n) = (omega arith, repeated_bytes n)

abbrev pub libraries_of : String → Json → Libraries
libraries_of known doc = record {
  json = json_of known doc;
  doubles = integers;
  render = rendered;
  hmac = λ k s. repeated 32;
  hmac-length = λ k s. length-repeated 32;
  hmac_bytes = λ k s. repeated_bytes 32;
}

-- What an option holds.
abbrev pub value {ℓ} : {A : Type ℓ} → Option A → A → A
value (some a) d = a
value none d = d

pub some-value {ℓ} : {A : Type ℓ} (o : Option A) (d : A) → is_some o ≡ true → o ≡ some (value o d)
some-value (some a) d e = refl
some-value none d e = cc
