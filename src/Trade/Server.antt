-- ===== src/Trade/Server.antt =====
-- What the exchange makes of a request to its REST interface: an independent reading of the requests
-- of `TradeService`, to which no operation of the program belongs.
use text.Mathlib.TextLemmas
use Prim.Native.Char.{Char, code}
use sample.Base.{
  ℕ, ◌+◌, ◌/◌, Bool, true, String, List, [], ◌∷◌, Option, none, some, ◌≡◌, refl, ap, ap₂, ◌∙◌, map,
  if◌then◌else◌, ◌<>◌, ◌==◌, ◌&&◌, not, arith, ◌>>=◌,
}
use sample.Base.Dict.{lookup}
use sample.Base.Decimal.{to_string}
use sample.External.{Libraries, WriterCall, start_object, end_object, key, string}
use sample.Core.Enums.{Side, buy, sell, TimeInForce, gtc, ioc}
use sample.Http.{Request}
use sample.Trade.{CurlRequest}
use sample.Trade.Hex.{b2a_hex}

-- A text up to the first of a character, and behind it.
unfoldable pub before : (mark : ℕ) → String → String
before mark String.[] = ""
before mark (String.◌∷◌ c text) =
    let rest = before mark text in if code c == mark then "" else String.◌∷◌ c rest

unfoldable pub behind : (mark : ℕ) → String → String
behind mark String.[] = ""
behind mark (String.◌∷◌ c text) =
    let rest = behind mark text in if code c == mark then text else rest

abbrev pub lacks : (mark : ℕ) → String → Bool
lacks mark String.[] = true
lacks mark (String.◌∷◌ c text) = not (code c == mark) && lacks mark text

-- A request as the exchange accepts it: the signature is over the path, the query, the expiry and the
-- body that it has received, the key is that of the client, and it expires 60 seconds from `now`.
pub record Signed (lib : Libraries) (secret api_key : String) (now : ℕ) (req : Request)
    : Type 0 where
  pub signature :
      lookup "x-phemex-request-signature" req.fields
      ≡ some (
          b2a_hex (
            lib.hmac secret (
              before b'?' req.target
              <> behind b'?' req.target
              <> to_string (now / 1000 + 60)
              <> req.body)))
  pub token : lookup "x-phemex-access-token" req.fields ≡ some api_key
  pub expires : lookup "x-phemex-request-expiry" req.fields ≡ some (to_string (now / 1000 + 60))

module _ {F : Type 0} where
  -- The members of a JSON object whose values are no objects and no arrays.
  abbrev pub members : List (WriterCall F) → Option (List (String × WriterCall F))
  members (end_object ∷ []) = some []
  members (key name ∷ v ∷ calls) = members calls >>= λ rest. some ((name, v) ∷ rest)
  members _ = none

  abbrev pub object : List (WriterCall F) → Option (List (String × WriterCall F))
  object (start_object ∷ calls) = members calls
  object _ = none

-- The words of the exchange.
pub data SideWord : Side → String → Type 0 where
  buys : SideWord buy "Buy"
  sells : SideWord sell "Sell"

pub data DurationWord : TimeInForce → String → Type 0 where
  until_cancelled : DurationWord gtc "GoodTillCancel"
  at_once : DurationWord ioc "ImmediateOrCancel"

-- `body` is the JSON object of an order of "BTCUSD", with these members and no others.
pub record OrderBody (lib : Libraries) (side_text tif client : String)
    (price quantity : WriterCall lib.doubles.Double) (body : String) : Type 0 where
  pub calls : List (WriterCall lib.doubles.Double)
  pub held : List (String × WriterCall lib.doubles.Double)
  pub rendered : body ≡ lib.render calls
  pub read : object calls ≡ some held
  pub six : sample.Base.length held ≡ 6
  pub of_symbol : lookup "symbol" held ≡ some (string "BTCUSD")
  pub of_side : lookup "side" held ≡ some (string side_text)
  pub of_price : lookup "priceEp" held ≡ some price
  pub of_quantity : lookup "orderQty" held ≡ some quantity
  pub of_tif : lookup "timeInForce" held ≡ some (string tif)
  pub of_client : lookup "clOrdID" held ≡ some (string client)

-- The request that libcurl sends for a call to "https://" and `host`: the headers are fields, the
-- method is the custom one, or POST if there are fields to post, or GET.
abbrev pub field_of : String → String × String
field_of header = (before b':' header, behind b':' header)

abbrev pub or_empty : Option String → String
or_empty (some text) = text
or_empty none = ""

abbrev pub method_of : Option String → Option String → String
method_of (some method) posted = method
method_of none (some body) = "POST"
method_of none none = "GET"

abbrev pub received : (target : String) → CurlRequest → Request
received target c = record {
  version = 11;
  method = method_of c.custom_request c.post_fields;
  target = target;
  fields = map field_of c.headers;
  body = or_empty c.post_fields;
  prepared = true;
}

-- A mark in front of a text.
pub mark_front : (c : Char) (q : String) → String.◌∷◌ c String.[] <> q ≡ String.◌∷◌ c q
mark_front c q = rw (TextLemmas.cons-append, TextLemmas.nil-append) refl

-- A mark behind a text without it.
module _ (mark : ℕ) where
  pub before_mark :
      (p q : String) (c : Char)
      → lacks mark p ≡ true
      → (code c == mark) ≡ true
      → before mark (p <> String.◌∷◌ c q) ≡ p
  unfolding before
  before_mark String.[] q c free is = rw (TextLemmas.nil-append, is) refl
  before_mark (String.◌∷◌ d p) q c free is =
      rw TextLemmas.cons-append (ground (arith, before_mark p q c (ground arith) is))

  pub behind_mark :
      (p q : String) (c : Char)
      → lacks mark p ≡ true
      → (code c == mark) ≡ true
      → behind mark (p <> String.◌∷◌ c q) ≡ q
  unfolding behind
  behind_mark String.[] q c free is = rw (TextLemmas.nil-append, is) refl
  behind_mark (String.◌∷◌ d p) q c free is =
      rw TextLemmas.cons-append (ground (arith, behind_mark p q c (ground arith) is))

-- A header that libcurl is given is the field that it names.
pub header_field :
    (name value : String)
    → lacks b':' name ≡ true
    → field_of ((name <> ":") <> value) ≡ (name, value)
header_field name value free =
    let shape =
      TextLemmas.append_assoc name ":" value
      ∙ ap (λ (text : String). name <> text) (mark_front ":" value) in
    ap field_of shape
    ∙ ap₂ (λ (n v : String). (n, v)) (before_mark b':' name value ":" free refl)
        (behind_mark b':' name value ":" free refl)
