-- ===== src/Examples/Orders.antt =====
-- An order and its cancellation, on a service that has just connected.
use sample.Base.{ℕ, true, false, String, [], ◌∷◌, none, some, ◌≡◌, refl, ◌<>◌, ◌↔◌, ◌⊎◌, arith}
use sample.Base.Int.{ℤ, pos}
use sample.External.{Libraries}
use sample.Samples.{end, libraries_of}
use sample.Core.Enums.{sell, gtc, limit, OrderStatus, ExecType}
use sample.Core.Records.{TradeOrder}
use sample.Ws
use sample.Http
use sample.Trade.{Trade}
use sample.Trade.Orders.{place_order, cancel_order, side_word}
use sample.Trade.Server.{Signed}
use sample.Trade.Signing.{place_order-Signed, cancel_order-Signed}
use sample.Trade.Hex.{b2a_hex}
use sample.Trade.Hex.RoundTrip.{bytes_of, bytes_of-b2a_hex}
use sample.Trade.Words.{to_side, to_order_status, to_exec_type}
use sample.Trade.Vocabulary.{to_side-side_word, cancelled_words}
use sample.Trade.Rest.{a_place_order, get_open_order, cancel_all}
use sample.Trade.Calls.{Performs, curl_calls}
use sample.Base.{◌∷ʳ◌}
use sample.Base.Int.{to_uint64}
use sample.External.{uint64, double}
use sample.Http.{Request}
use sample.Trade.Signing.{TifWord}
use sample.Trade.Server.{before, behind, SideWord, DurationWord, OrderBody, or_empty}

abbrev lib : Libraries
lib = libraries_of "" end

abbrev pub service : Trade ℕ
service = record {
  host = "api.phemex.com";
  api_key = "key";
  secret_key = "secret";
  ws_host = "phemex.com";
  config = [];
  listeners = 1 ∷ 2 ∷ [];
  ws_session = Ws.new_session;
  http_session = Http.new_session;
  need_reconnect = true;
  http_need_reconnect = false;
  last_heartbeat_time = 0;
  has_curl = true;
  id = 1001;
  auth_id = some 1001;
}

abbrev order : TradeOrder ℤ
order = record {
  client_order_id = "c1";
  exchange_order_id = "x1";
  price = pos 9500;
  quantity = pos 10;
  side = sell;
  symbol = "BTCUSD";
  instrument_id = pos 1;
  order_status = OrderStatus.new;
  order_type = limit;
  cumulate_quantity = pos 0;
  average_price = pos 0;
  create_time = pos 0;
  ack_time = pos 0;
  last_update_time = pos 0;
  time_in_force = gtc;
}

place_order-Signed_example :
    (req : Request) × (side_text : String) × (tif : String) × ((place_order lib "beast" 5000 order
        service).0.http_session.request_queue
      ≡ service.http_session.request_queue ∷ʳ req)
    × Signed lib "secret" "key" 5000 req
    × (req.method ≡ "POST")
    × (req.target ≡ "/orders")
    × SideWord sell side_text
    × TifWord limit gtc tif
    × OrderBody lib side_text tif "c1"
        (uint64 (to_uint64 (pos 9500)))
        (uint64 (to_uint64 (pos 10)))
        req.body
place_order-Signed_example = place_order-Signed lib "beast" 5000 order service

cancel_order-Signed_example :
    (req : Request) × ((cancel_order lib "beast" 5000 order service).0.http_session.request_queue
      ≡ service.http_session.request_queue ∷ʳ req)
    × Signed lib "secret" "key" 5000 req
    × (req.method ≡ "DELETE")
    × (before b'?' req.target ≡ "/orders/cancel")
    × (behind b'?' req.target ≡ "symbol=" <> "BTCUSD" <> "&orderID=" <> "x1")
    × (req.body ≡ "")
cancel_order-Signed_example = cancel_order-Signed lib "beast" 5000 order service

bytes_of-b2a_hex_example : bytes_of (b2a_hex (7 ∷ 255 ∷ [])) ≡ some (7 ∷ 255 ∷ [])
bytes_of-b2a_hex_example = bytes_of-b2a_hex (7 ∷ 255 ∷ []) (omega arith, (omega arith, tt))

to_side-side_word_example : to_side (side_word sell) ≡ sell
to_side-side_word_example = to_side-side_word sell

abbrev expired : String
expired = "Expired"

cancelled_words_example :
    ((to_order_status expired ≡ OrderStatus.cancelled)
      ↔ ((expired ≡ "Canceled") ⊎ (expired ≡ "EXPIRED")))
    × ((to_exec_type expired ≡ ExecType.cancelled)
        ↔ ((expired ≡ "Canceled") ⊎ (expired ≡ "Expired")))
cancelled_words_example = cancelled_words expired

curl_calls_example :
    (place : Performs lib 5000 service (a_place_order lib 5000 order service) "/orders" "" "POST")
    × (side_text : String) × (tif : String) × SideWord sell side_text
    × DurationWord gtc tif
    × OrderBody lib side_text tif "c1"
        (double (pos 9500))
        (double (pos 10))
        (or_empty place.call.post_fields)
    × (ask : Performs lib 5000 service
        (get_open_order lib 5000 service).0
        "/orders/activeList"
        "symbol=BTCUSD"
        "GET")
    × (ask.call.post_fields ≡ none)
    × ((get_open_order lib 5000 service).1 ≡ [])
    × (cancel : Performs lib 5000 service
        (cancel_all lib 5000 service)
        "/orders/all"
        "symbol=BTCUSD"
        "DELETE")
    × (or_empty cancel.call.post_fields ≡ "")
curl_calls_example = curl_calls lib 5000 order service refl
