-- ===== src/External.antt =====
-- Code that the repository calls and does not hold, as parameters of the model.
use sample.Base.{ℕ, Bool, String, Option, List, length, All, ◌≡◌, ◌<◌}
use sample.Base.Int.{ℤ}

-- `rapidjson::Document` and `rapidjson::Value`. `none` is a failed assertion: a value of another
-- kind, a member that is missing, an index out of range.
pub record Rapidjson : Type 1 where
  pub Value : Type 0
  pub parse : String → Value
  pub has_member : Value → String → Option Bool
  pub member : Value → String → Option Value
  pub size : Value → Option ℕ
  pub element : Value → ℕ → Option Value
  pub get_string : Value → Option String
  pub get_int64 : Value → Option ℤ
  pub get_uint64 : Value → Option ℕ

-- The floating-point operations of the program, on the type `double`.
pub record Doubles : Type 1 where
  pub Double : Type 0
  pub of_int : ℤ → Double
  pub neg : Double → Double
  pub div : Double → Double → Double
  pub mul : Double → Double → Double
  -- The conversion to `long`, which truncates.
  pub to_long : Double → ℤ

-- A call of `rapidjson::Writer`.
pub data WriterCall (F : Type 0) : Type 0 where
  start_object end_object start_array end_array : WriterCall F
  key : String → WriterCall F
  string : String → WriterCall F
  uint64 : ℕ → WriterCall F
  double : F → WriterCall F

-- What the trade service calls. `render` is the text that a `Writer` leaves in its buffer. `hmac` is
-- `HMAC` with `EVP_sha256()`: a digest of 32 bytes.
pub record Libraries : Type 1 where
  pub json : Rapidjson
  pub doubles : Doubles
  pub render : List (WriterCall doubles.Double) → String
  pub hmac : (key text : String) → List ℕ
  pub hmac-length : (key text : String) → length (hmac key text) ≡ 32
  pub hmac_bytes : (key text : String) → All (λ b. b < 256) (hmac key text)
