-- ===== src/Trade/Rest.antt =====
-- The requests of `TradeService` that go through libcurl: `GetOpenOrder`, `CancelAll` and the older
-- `aPlaceOrder`. What libcurl receives is only logged.
use sample.Base.{ℕ, not, String, List, [], ◌∷◌, none, some, if◌then◌else◌, ◌<>◌, str_eq, ◌||◌}
use sample.External.{Libraries, WriterCall, start_object, end_object, key, string, double}
use sample.Core.Enums.{TimeInForce, gtc, ioc}
use sample.Core.Records.{TradeOrder}
use sample.Trade.{Trade, CurlRequest, curl_perform, Effect}
use sample.Trade.Hex.{hmac_sha256}
use sample.Trade.Orders.{expiry_at, side_word}

-- The options of `curl_api_with_header` that depend on its arguments; `curl_easy_reset` has cleared
-- those of the call before. `custom_request` and `post_fields` are `none` where they are not set.
unfoldable pub curl_request :
    (url : String) → List String → (post_data action : String) → CurlRequest
curl_request url headers post_data action = record {
  url = url;
  headers = headers;
  custom_request = (if str_eq action "PUT" || str_eq action "DELETE" then some action else none);
  post_fields =
      (if not (str_eq post_data "")
          || str_eq action "POST"
          || str_eq action "PUT"
          || str_eq action "DELETE"
        then some post_data
        else none);
}

-- The headers of a signed call.
abbrev pub signed_headers : Libraries → (secret api_key sig_str expiry : String) → List String
signed_headers lib secret api_key sig_str expiry =
    ("x-phemex-request-signature:" <> hmac_sha256 lib secret sig_str)
    ∷ ("x-phemex-access-token:" <> api_key)
    ∷ ("x-phemex-request-expiry:" <> expiry)
    ∷ "Content-Type: application/json"
    ∷ "Accept: */*"
    ∷ []

module _ {L F : Type 0} where
  -- `curl_api_with_header`: nothing happens without a handle.
  unfoldable pub curl_api_with_header :
      (url : String) → List String → (post_data action : String) → Trade L → Effect L F
  unfolding curl_request
  curl_api_with_header url headers post_data action t =
      if t.has_curl
      then (t, curl_perform (curl_request url headers post_data action) ∷ [])
      else (t, [])

-- The word for the time in force in `aPlaceOrder`.
unfoldable pub a_tif_word : TimeInForce → String
a_tif_word gtc = "GoodTillCancel"
a_tif_word ioc = "ImmediateOrCancel"

module _ (lib : Libraries) where
  open lib use {doubles, render}
  open doubles use {Double}

  -- The JSON object of `aPlaceOrder`.
  unfoldable pub a_order_calls : TradeOrder Double → List (WriterCall Double)
  a_order_calls order =
      start_object
      ∷ key "symbol"
      ∷ string "BTCUSD"
      ∷ key "side"
      ∷ string (side_word order.side)
      ∷ key "priceEp"
      ∷ double order.price
      ∷ key "orderQty"
      ∷ double order.quantity
      ∷ key "timeInForce"
      ∷ string (a_tif_word order.time_in_force)
      ∷ key "clOrdID"
      ∷ string order.client_order_id
      ∷ end_object
      ∷ []

  module _ {L : Type 0} where
    unfoldable pub a_place_order : (now : ℕ) → TradeOrder Double → Trade L → Effect L Double
    unfolding curl_api_with_header
    a_place_order now order t =
        let poststr = render (a_order_calls order) in
        let expiry = expiry_at now in
        curl_api_with_header ("https://" <> t.host <> "/orders")
          (signed_headers lib t.secret_key t.api_key ("/orders" <> expiry <> poststr) expiry)
          poststr "POST" t

    -- `GetOpenOrder` also returns a list, which it never fills.
    unfoldable pub get_open_order : (now : ℕ) → Trade L → Effect L Double × List (TradeOrder Double)
    unfolding curl_api_with_header
    get_open_order now t =
        let expiry = expiry_at now in
        (
          curl_api_with_header ("https://" <> t.host <> "/orders/activeList?symbol=BTCUSD")
              (signed_headers lib t.secret_key t.api_key
                ("/orders/activeListsymbol=BTCUSD" <> expiry) expiry)
              "" "GET" t,
          [],
        )

    unfoldable pub cancel_all : (now : ℕ) → Trade L → Effect L Double
    unfolding curl_api_with_header
    cancel_all now t =
        let expiry = expiry_at now in
        curl_api_with_header ("https://" <> t.host <> "/orders/all?symbol=BTCUSD")
          (signed_headers lib t.secret_key t.api_key ("/orders/allsymbol=BTCUSD" <> expiry) expiry)
          "" "DELETE" t
