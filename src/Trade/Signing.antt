-- ===== src/Trade/Signing.antt =====
-- What the requests for orders carry, as the exchange reads them.
use text.Mathlib.TextLemmas
use sample.Base.{ℕ, String, ◌∷ʳ◌, ◌≡◌, ◌≢◌, refl, ap, ◌∙◌, ◌<>◌}
use sample.Base.Dict.{lookup}
use sample.Base.Int.{pos, to_uint64}
use sample.External.{Libraries, uint64}
use sample.Core.Enums.{
  Side, buy, sell, OrderType, limit, market, limit_post_only, TimeInForce, gtc, ioc,
}
use sample.Core.Records.{TradeOrder}
use sample.Http.{Request}
use sample.Trade.{Trade, http_send}
use sample.Trade.Hex.{hmac_sha256}
use sample.Trade.Sending.{http_queue}
use sample.Trade.Server.{
  before, behind, before_mark, behind_mark, mark_front, Signed, SideWord, buys, sells, DurationWord,
  until_cancelled, at_once, OrderBody,
}
use sample.Trade.Orders.{
  expiry_at, set_field, sign_request, side_word, tif_word, order_calls, place_request, place_order,
  cancel_request, cancel_order,
}

pub side_word-SideWord : (side : Side) → SideWord side (side_word side)
unfolding side_word
side_word-SideWord buy = buys
side_word-SideWord sell = sells

-- The word for how long an order stands: a post-only order has a word of its own.
pub data TifWord : OrderType → TimeInForce → String → Type 0 where
  post_only : {tif : TimeInForce} → TifWord limit_post_only tif "PostOnly"
  plain :
      {type : OrderType} {tif : TimeInForce} {text : String}
      → type ≢ limit_post_only
      → DurationWord tif text
      → TifWord type tif text

tif_word-TifWord : (type : OrderType) (tif : TimeInForce) → TifWord type tif (tif_word type tif)
unfolding tif_word
tif_word-TifWord limit_post_only tif = post_only
tif_word-TifWord limit gtc = plain (λ e. cc) until_cancelled
tif_word-TifWord limit ioc = plain (λ e. cc) at_once
tif_word-TifWord market gtc = plain (λ e. cc) until_cancelled
tif_word-TifWord market ioc = plain (λ e. cc) at_once

module _ (lib : Libraries) (beast_version : String) (now : ℕ) {L : Type 0} where
  -- `PlaceOrder` puts one request at the end of the HTTP session's queue: a POST to "/orders"
  -- whose body is a JSON object of six members, the symbol "BTCUSD", the order's side and time in
  -- force in the words of the exchange, its price times 10000, its quantity and its client id; the
  -- request carries the key, an expiry 60 seconds from now, and a signature over the path, the
  -- query, that expiry and the body that the exchange receives.
  pub place_order-Signed :
      (order : TradeOrder lib.doubles.Double) (t : Trade L)
      → (req : Request) × (side_text : String) × (tif : String) × ((place_order lib beast_version
            now order t).0.http_session.request_queue
          ≡ t.http_session.request_queue ∷ʳ req)
        × Signed lib t.secret_key t.api_key now req
        × (req.method ≡ "POST")
        × (req.target ≡ "/orders")
        × SideWord order.side side_text
        × TifWord order.order_type order.time_in_force tif
        × OrderBody lib side_text tif order.client_order_id
            (uint64 (
              to_uint64 (
                lib.doubles.to_long
                  (lib.doubles.mul order.price (lib.doubles.of_int (pos 10000))))))
            (uint64 (to_uint64 (lib.doubles.to_long order.quantity)))
            req.body
  unfolding place_request place_order sign_request set_field lookup expiry_at http_send order_calls
      before behind hmac_sha256
  place_order-Signed order t =
      let req = place_request lib beast_version now order t in
      (
        req,
        side_word order.side,
        tif_word order.order_type order.time_in_force,
        http_queue req t.http_session,
        record { signature = rw TextLemmas.nil-append refl; token = refl; expires = refl },
        refl,
        refl,
        side_word-SideWord order.side,
        tif_word-TifWord order.order_type order.time_in_force,
        record {
          calls = order_calls lib order;
          held = _;
          rendered = refl;
          read = refl;
          six = refl;
          of_symbol = refl;
          of_side = refl;
          of_price = refl;
          of_quantity = refl;
          of_tif = refl;
          of_client = refl;
        },
      )

  -- `CancelOrder` puts one request at the end of the HTTP session's queue: a DELETE without a body
  -- whose path is "/orders/cancel" and whose query is the order's symbol and exchange id; the
  -- request carries the key, an expiry 60 seconds from now, and a signature over the path, the
  -- query, that expiry and the body that the exchange receives.
  pub cancel_order-Signed :
      (order : TradeOrder lib.doubles.Double) (t : Trade L)
      → (req : Request) × ((cancel_order lib beast_version now order t).0.http_session.request_queue
          ≡ t.http_session.request_queue ∷ʳ req)
        × Signed lib t.secret_key t.api_key now req
        × (req.method ≡ "DELETE")
        × (before b'?' req.target ≡ "/orders/cancel")
        × (behind b'?' req.target
            ≡ "symbol=" <> order.symbol <> "&orderID=" <> order.exchange_order_id)
        × (req.body ≡ "")
  unfolding cancel_request cancel_order sign_request set_field lookup expiry_at http_send
      hmac_sha256
  cancel_order-Signed order t =
      let req = cancel_request lib beast_version now order t in
      let query = "symbol=" <> order.symbol <> "&orderID=" <> order.exchange_order_id in
      let shape = ap (λ (text : String). "/orders/cancel" <> text) (mark_front "?" query) in
      let path = ap (before b'?') shape ∙ before_mark b'?' "/orders/cancel" query "?" refl refl in
      let rest = ap (behind b'?') shape ∙ behind_mark b'?' "/orders/cancel" query "?" refl refl in
      (
        req,
        http_queue req t.http_session,
        record {
          signature = rw (path, rest, TextLemmas.append-nil) refl;
          token = refl;
          expires = refl;
        },
        refl,
        path,
        rest,
        refl,
      )
