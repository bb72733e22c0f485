-- ===== src/Trade/Orders.antt =====
-- `PlaceOrder` and `CancelOrder`: the requests that go over the HTTP session.
use sample.Base.{ℕ, ◌+◌, ◌/◌, true, false, String, List, [], ◌∷◌, if◌then◌else◌, ◌<>◌, str_eq}
use sample.Base.Decimal.{to_string}
use sample.Base.Int.{pos, to_uint64}
use sample.External.{Libraries, WriterCall, start_object, end_object, key, string, uint64}
use sample.Core.Enums.{Side, buy, sell, TimeInForce, ioc, gtc, OrderType, limit_post_only}
use sample.Core.Records.{TradeOrder}
use sample.Http.{Request}
use sample.Trade.{Trade, Effect, http_send}
use sample.Trade.Hex.{hmac_sha256}

-- `req.set(name, value)` replaces a field of that name, or adds one at the end.
unfoldable pub set_field : String → String → List (String × String) → List (String × String)
set_field name value [] = (name, value) ∷ []
set_field name value ((n, v) ∷ fields) =
    if str_eq n name then (name, value) ∷ fields else (n, v) ∷ set_field name value fields

-- `BOOST_BEAST_VERSION_STRING` is a name of the version of Boost: its text plays no role.
abbrev pub new_request : (method target host beast_version : String) → Request
new_request method target host beast_version = record {
  version = 11;
  method = method;
  target = target;
  fields = ("Host", host) ∷ ("User-Agent", beast_version) ∷ [];
  body = "";
  prepared = false;
}

-- `order.side == Side::BUY ? "Buy" : "Sell"`
unfoldable pub side_word : Side → String
side_word buy = "Buy"
side_word sell = "Sell"

-- The nested conditional for `tif` in `PlaceOrder`.
unfoldable pub tif_word : OrderType → TimeInForce → String
tif_word limit_post_only tif = "PostOnly"
tif_word _ gtc = "GoodTillCancel"
tif_word _ ioc = "ImmediateOrCancel"

-- `std::to_string(currentTimeInMilli() / 1000 + 60)`
unfoldable pub expiry_at : ℕ → String
expiry_at now = to_string (now / 1000 + 60)

-- The fields that sign a request.
unfoldable pub sign_request :
    Libraries → (secret api_key sig_str expiry : String) → Request → Request
sign_request lib secret api_key sig_str expiry req = record req {
  fields = set_field "x-phemex-request-expiry" expiry (
      set_field "x-phemex-access-token" api_key
        (set_field "x-phemex-request-signature" (hmac_sha256 lib secret sig_str) req.fields));
}

module _ (lib : Libraries) where
  open lib use {doubles, render}
  open doubles use {Double, mul, to_long, of_int}

  -- The JSON object of `PlaceOrder`.
  unfoldable pub order_calls : TradeOrder Double → List (WriterCall Double)
  order_calls order =
      start_object
      ∷ key "symbol"
      ∷ string "BTCUSD"
      ∷ key "side"
      ∷ string (side_word order.side)
      ∷ key "priceEp"
      ∷ uint64 (to_uint64 (to_long (mul order.price (of_int (pos 10000)))))
      ∷ key "orderQty"
      ∷ uint64 (to_uint64 (to_long order.quantity))
      ∷ key "timeInForce"
      ∷ string (tif_word order.order_type order.time_in_force)
      ∷ key "clOrdID"
      ∷ string order.client_order_id
      ∷ end_object
      ∷ []

  module _ {L : Type 0} where
    unfoldable pub place_request :
        (beast_version : String) (now : ℕ) → TradeOrder Double → Trade L → Request
    place_request beast_version now order t =
        let poststr = render (order_calls order) in
        let expiry = expiry_at now in
        let req = new_request "POST" "/orders" t.host beast_version in
        let typed : Request = record req {
          fields = set_field "Content-Type" "application/json" req.fields;
        } in
        let signed =
          sign_request lib t.secret_key t.api_key ("/orders" <> expiry <> poststr) expiry typed in
        record signed { body = poststr; prepared = true }

    unfoldable pub place_order :
        (beast_version : String) (now : ℕ) → TradeOrder Double → Trade L → Effect L Double
    place_order beast_version now order t = http_send (place_request beast_version now order t) t

    unfoldable pub cancel_request :
        (beast_version : String) (now : ℕ) → TradeOrder Double → Trade L → Request
    cancel_request beast_version now order t =
        let param = "symbol=" <> order.symbol <> "&orderID=" <> order.exchange_order_id in
        let method : String = "/orders/cancel" in
        let expiry = expiry_at now in
        let req = new_request "DELETE" (method <> "?" <> param) t.host beast_version in
        let typed : Request = record req {
          fields = set_field "Content-Type" "application/json" req.fields;
        } in
        let signed =
          sign_request lib t.secret_key t.api_key (method <> param <> expiry) expiry typed in
        record signed { prepared = true }

    unfoldable pub cancel_order :
        (beast_version : String) (now : ℕ) → TradeOrder Double → Trade L → Effect L Double
    cancel_order beast_version now order t = http_send (cancel_request beast_version now order t) t
