-- ===== src/Trade/Calls.antt =====
-- The calls of libcurl that `TradeService` makes, and what of an order its requests leave out.
use sample.Base.{
  ℕ, Bool, true, false, String, List, [], ◌∷◌, ◌≡◌, refl, none, some, if◌then◌else◌, ◌<>◌, str_eq,
  ◌∙◌, ap, inl, inr, Bool-cases,
}
use text.Mathlib.TextLemmas
use sample.Base.{◌+◌, ◌/◌, map}
use sample.Base.Dict.{lookup}
use sample.Base.Decimal.{to_string}
use sample.Core.Enums.{TimeInForce, gtc, ioc}
use sample.External.{Libraries, double}
use sample.Trade.Hex.{b2a_hex, hmac_sha256}
use sample.Trade.Server.{
  before, behind, Signed, SideWord, DurationWord, until_cancelled, at_once, OrderBody, field_of,
  or_empty, received, header_field,
}
use sample.Trade.Signing.{side_word-SideWord}
use sample.Core.Enums.{OrderType}
use sample.Core.Records.{TradeOrder}
use sample.Trade.{Trade, CurlRequest, curl_perform, Effect}
use sample.Trade.Orders.{side_word, expiry_at, place_order, place_request, order_calls}
use sample.Trade.Rest.{
  a_tif_word, curl_request, curl_api_with_header, signed_headers, a_order_calls, a_place_order,
  get_open_order, cancel_all,
}

-- The order with another symbol.
abbrev pub with_symbol : {F : Type 0} → String → TradeOrder F → TradeOrder F
with_symbol symbol order = record order { symbol = symbol }

abbrev pub with_type : {F : Type 0} → OrderType → TradeOrder F → TradeOrder F
with_type type order = record order { order_type = type }

post_request :
    (url : String) (headers : List String) (body : String)
    → curl_request url headers body "POST"
      ≡ record { url = url; headers = headers; custom_request = none; post_fields = some body }
unfolding curl_request
post_request url headers body = elim (Bool-cases (str_eq body "")) [
  | inl e ↦ rw e refl
  | inr e ↦ rw e refl
]

picked : {A : Type 0} (b : Bool) (x y : A) → b ≡ true → (if b then x else y) ≡ x
picked true x y e = refl
picked false x y e = cc

with_handle :
    {L F : Type 0} (url : String) (headers : List String) (body action : String) (t : Trade L)
    → t.has_curl ≡ true
    → curl_api_with_header {F = F} url headers body action t
      ≡ (t, curl_perform (curl_request url headers body action) ∷ [])
unfolding curl_api_with_header
with_handle url headers body action t ready = picked t.has_curl _ _ ready

-- What the exchange reads of the headers.
signed_fields :
    (lib : Libraries) (secret api_key text expiry : String)
    → map field_of (signed_headers lib secret api_key text expiry)
      ≡ ("x-phemex-request-signature", b2a_hex (lib.hmac secret text))
        ∷ ("x-phemex-access-token", api_key)
        ∷ ("x-phemex-request-expiry", expiry)
        ∷ ("Content-Type", " application/json")
        ∷ ("Accept", " */*")
        ∷ []
unfolding hmac_sha256 before behind
signed_fields lib secret api_key text expiry =
    rw
      (
        header_field "x-phemex-request-signature" (b2a_hex (lib.hmac secret text)) refl,
        header_field "x-phemex-access-token" api_key refl,
        header_field "x-phemex-request-expiry" expiry refl,
      )
      refl

a_tif_word-DurationWord : (tif : TimeInForce) → DurationWord tif (a_tif_word tif)
unfolding a_tif_word
a_tif_word-DurationWord gtc = until_cancelled
a_tif_word-DurationWord ioc = at_once

module _ (lib : Libraries) (now : ℕ) {L : Type 0} where
  -- One request by libcurl and nothing else: its target, its method, and that the exchange accepts
  -- its signature.
  pub record Performs (t : Trade L) (e : Effect L lib.doubles.Double) (path query method : String)
      : Type 0 where
    pub call : CurlRequest
    pub target : String
    pub once : e ≡ (t, curl_perform call ∷ [])
    pub url : call.url ≡ "https://" <> t.host <> target
    pub signed : Signed lib t.secret_key t.api_key now (received target call)
    pub of_path : before b'?' target ≡ path
    pub of_query : behind b'?' target ≡ query
    pub of_method : (received target call).method ≡ method

  received-Signed :
      (t : Trade L) (target text : String) (c : CurlRequest)
      → c.headers ≡ signed_headers lib t.secret_key t.api_key text (to_string (now / 1000 + 60))
      → text
        ≡ before b'?' target
          <> behind b'?' target
          <> to_string (now / 1000 + 60)
          <> or_empty c.post_fields
      → Signed lib t.secret_key t.api_key now (received target c)
  unfolding lookup
  received-Signed t target text c headed covers =
      let read =
        ap (map field_of) headed
        ∙ signed_fields lib t.secret_key t.api_key text (to_string (now / 1000 + 60)) in
      record {
        signature =
            ap (lookup "x-phemex-request-signature") read
            ∙ ap (λ (x : String). some (b2a_hex (lib.hmac t.secret_key x))) covers;
        token = ap (lookup "x-phemex-access-token") read;
        expires = ap (lookup "x-phemex-request-expiry") read;
      }

  -- With a libcurl handle, `aPlaceOrder`, `GetOpenOrder` and `CancelAll` each perform one request
  -- and change nothing of the service: a POST to "/orders" whose body is a JSON object of six
  -- members with the order's price and quantity as they are, a GET without a body, and a DELETE
  -- with an empty one, each to its path and query on the service's host; each carries the key, an
  -- expiry 60 seconds from now, and a signature over the path, the query, that expiry and the body
  -- that the exchange receives. The list that `GetOpenOrder` returns is empty.
  pub curl_calls :
      (order : TradeOrder lib.doubles.Double) (t : Trade L)
      → t.has_curl ≡ true
      → (place : Performs t (a_place_order lib now order t) "/orders" "" "POST")
        × (side_text : String) × (tif : String) × SideWord order.side side_text
        × DurationWord order.time_in_force tif
        × OrderBody lib side_text tif order.client_order_id
            (double order.price)
            (double order.quantity)
            (or_empty place.call.post_fields)
        × (ask : Performs t (get_open_order lib now t).0 "/orders/activeList" "symbol=BTCUSD" "GET")
        × (ask.call.post_fields ≡ none)
        × ((get_open_order lib now t).1 ≡ [])
        × (cancel : Performs t (cancel_all lib now t) "/orders/all" "symbol=BTCUSD" "DELETE")
        × (or_empty cancel.call.post_fields ≡ "")
  unfolding a_place_order get_open_order cancel_all curl_request a_order_calls expiry_at before
      behind lookup
  curl_calls order t ready =
      let expiry = to_string (now / 1000 + 60) in
      let headers = λ (text : String). signed_headers lib t.secret_key t.api_key text expiry in
      let body = lib.render (a_order_calls lib order) in
      let place_call : CurlRequest = record {
        url = "https://" <> t.host <> "/orders";
        headers = headers ("/orders" <> expiry <> body);
        custom_request = none;
        post_fields = some body;
      } in
      let ask_call : CurlRequest = record {
        url = "https://" <> t.host <> "/orders/activeList?symbol=BTCUSD";
        headers = headers ("/orders/activeListsymbol=BTCUSD" <> expiry);
        custom_request = none;
        post_fields = none;
      } in
      let cancel_call : CurlRequest = record {
        url = "https://" <> t.host <> "/orders/all?symbol=BTCUSD";
        headers = headers ("/orders/allsymbol=BTCUSD" <> expiry);
        custom_request = some "DELETE";
        post_fields = some "";
      } in
      (
        record {
          call = place_call;
          target = "/orders";
          once =
              with_handle _ _ body "POST" t ready
              ∙ ap (λ (r : CurlRequest). (t, curl_perform r ∷ [])) (post_request _ _ _);
          url = refl;
          signed = received-Signed t "/orders" _ place_call refl (rw TextLemmas.nil-append refl);
          of_path = refl;
          of_query = refl;
          of_method = refl;
        },
        side_word order.side,
        a_tif_word order.time_in_force,
        side_word-SideWord order.side,
        a_tif_word-DurationWord order.time_in_force,
        record {
          calls = a_order_calls lib order;
          held = _;
          rendered = refl;
          read = refl;
          six = refl;
          of_symbol = refl;
          of_side = refl;
          of_price = refl;
          of_quantity = refl;
          of_tif = refl;
          of_client = refl;
        },
        record {
          call = ask_call;
          target = "/orders/activeList?symbol=BTCUSD";
          once = with_handle _ _ "" "GET" t ready;
          url = refl;
          signed = received-Signed t "/orders/activeList?symbol=BTCUSD" _ ask_call refl (
              rw TextLemmas.append-nil
                (TextLemmas.append_assoc "/orders/activeList" "symbol=BTCUSD" expiry));
          of_path = refl;
          of_query = refl;
          of_method = refl;
        },
        refl,
        refl,
        record {
          call = cancel_call;
          target = "/orders/all?symbol=BTCUSD";
          once = with_handle _ _ "" "DELETE" t ready;
          url = refl;
          signed = received-Signed t "/orders/all?symbol=BTCUSD" _ cancel_call refl (
              rw TextLemmas.append-nil
                (TextLemmas.append_assoc "/orders/all" "symbol=BTCUSD" expiry));
          of_path = refl;
          of_query = refl;
          of_method = refl;
        },
        refl,
      )

  -- `PlaceOrder` does the same for two orders that differ in their symbol alone, and `aPlaceOrder`
  -- for two that differ in symbol and type alone.
  pub left_out :
      (beast_version symbol : String) (type : OrderType) (order : TradeOrder lib.doubles.Double)
      (t : Trade L)
      → (place_order lib beast_version now (with_symbol symbol order) t
          ≡ place_order lib beast_version now order t)
        × (a_place_order lib now (with_symbol symbol (with_type type order)) t
            ≡ a_place_order lib now order t)
  unfolding place_order place_request order_calls a_place_order a_order_calls
  left_out beast_version symbol type order t = (refl, refl)
