-- ===== src/Trade/Link.antt =====
-- The connections of `TradeService`: `Connect`, `RunOnce`, the reconnections, the heartbeat, and the
-- callbacks of both sessions that tell of connections and errors.
use sample.Base.{
  ℕ, suc, ◌+◌, ◌/◌, Bool, true, false, String, List, [], ◌∷◌, ◌++◌, some, map, if◌then◌else◌, ◌<>◌,
  ltb,
}
use sample.Base.Dict
use sample.Base.Decimal.{to_string, replace_hash}
use sample.Asio.{ErrorCode}
use sample.External.{
  Libraries, WriterCall, start_object, end_object, start_array, end_array, key, string, uint64,
}
use sample.Ws
use sample.Http
use sample.Trade.{this, Trade, ws_action, http_action, Effect, ◌|>◌, ws_send, http_send}
use sample.Trade.Orders.{new_request}
use sample.Trade.Hex.{hmac_sha256}

-- What the surroundings answer in one call: the clock, where the program reads it and where
-- `sendAuth` does; the two calls of OpenSSL in `HttpSession::connect`; `curl_easy_init`.
pub record Env : Type 0 where
  pub now : ℕ
  pub auth_now : ℕ
  pub named : Bool
  pub ssl_error : ErrorCode
  pub curl_ready : Bool
  pub beast_version : String

abbrev pub ws_path : String
ws_path = "/ws"

-- `heartBeat` and `aopSub`
abbrev pub heart_beat : String
heart_beat = "{\"id\":#, \"method\":\"server.ping\", \"params\":[]}"

abbrev pub aop_sub : String
aop_sub = "{\"method\":\"aop.subscribe\", \"params\":[],\"id\":#}"

module _ {L F : Type 0} where
  -- `sendSubscribe`: `++id_`, then the message with the new id.
  unfoldable pub send_subscribe : Trade L → Effect L F
  send_subscribe t =
      let t' : Trade L = record t { id = suc t.id } in
      ws_send (replace_hash aop_sub (to_string t'.id)) t'

  -- `send_heartbeat`: a ping with `id_++`, then a request for the order book.
  unfoldable pub send_heartbeat : Env → Trade L → Effect L F
  send_heartbeat env t =
      ws_send (replace_hash heart_beat (to_string t.id)) (record t { id = suc t.id })
      |> http_send (new_request "GET" "/md/orderbook?symbol=BTCUSD" t.host env.beast_version)

  -- A new websocket session that has the service as its listener, and connects.
  unfoldable pub open_ws : Trade L → Effect L F
  open_ws t =
      let (s, actions) = Ws.connect t.ws_host ws_path (Ws.add_listener this t.ws_session) in
      (record t { ws_session = s }, map ws_action actions)

  unfoldable pub open_http : Env → Trade L → Effect L F
  open_http env t =
      let (s, actions) =
        Http.connect t.host env.named env.ssl_error (Http.add_listener this t.http_session) in
      (record t { http_session = s }, map http_action actions)

  unfoldable pub http_reconnect : Env → Trade L → Effect L F
  unfolding open_http
  http_reconnect env t = open_http env (record t { http_session = Http.new_session }) |> λ u.
      (record u { http_need_reconnect = false }, [])

module _ {L : Type 0} where
  -- `RegisterListener`
  unfoldable pub register_listener : L → Trade L → Trade L
  register_listener l t = record t { listeners = t.listeners ++ l ∷ [] }

  -- The callbacks of the sessions that only set flags.
  unfoldable pub on_http_close : Trade L → Trade L
  on_http_close t = record t { http_need_reconnect = true }

  unfoldable pub on_http_error : ErrorCode → Trade L → Trade L
  on_http_error ec t = record t { http_need_reconnect = true }

  unfoldable pub on_error : ErrorCode → Trade L → Trade L
  on_error ec t = record t { need_reconnect = true }

  -- `onHttpConnect`, `onConnect` and `onClose` change nothing.
  unfoldable pub on_http_connect : Trade L → Trade L
  on_http_connect t = t

  unfoldable pub on_connect : Trade L → Trade L
  on_connect t = t

  unfoldable pub on_close : Trade L → Trade L
  on_close t = t

module _ (lib : Libraries) where
  open lib use {doubles, render}
  open doubles use {Double}

  -- The JSON object of `sendAuth`.
  unfoldable pub auth_calls : (api_key signature : String) (nonce id : ℕ) → List (WriterCall Double)
  auth_calls api_key signature nonce id =
      start_object
      ∷ key "method"
      ∷ string "user.auth"
      ∷ key "params"
      ∷ start_array
      ∷ string "API"
      ∷ string api_key
      ∷ string signature
      ∷ uint64 nonce
      ∷ end_array
      ∷ key "id"
      ∷ uint64 id
      ∷ end_object
      ∷ []

  module _ {L : Type 0} where
    -- `sendAuth`: `++id_`, and that id becomes `auth_id_`.
    unfoldable pub send_auth : Env → Trade L → Effect L Double
    send_auth env t =
        let nonce = env.auth_now / 1000 + 60 in
        let signature = hmac_sha256 lib t.secret_key (t.api_key <> to_string nonce) in
        let id = suc t.id in
        ws_send (render (auth_calls t.api_key signature nonce id))
          (record t { id = id; auth_id = some id })

    unfoldable pub reconnect : Env → Trade L → Effect L Double
    unfolding open_ws
    reconnect env t = open_ws (record t { ws_session = Ws.new_session }) |> send_auth env |> λ u.
        (record u { need_reconnect = false }, [])

    -- `GetParameter`: `mConfig[name]` enters a missing name with an empty text.
    unfoldable pub read_config : Trade L → Trade L
    read_config t =
        let (api_key, c1) = Dict.get_or_insert "apikey" "" t.config in
        let (secret_key, c2) = Dict.get_or_insert "secretkey" "" c1 in
        let (host, c3) = Dict.get_or_insert "host" "" c2 in
        let (ws_host, c4) = Dict.get_or_insert "wshost" "" c3 in
        record t {
          api_key = api_key;
          secret_key = secret_key;
          host = host;
          ws_host = ws_host;
          config = c4;
        }

    -- `Connect`
    unfoldable pub connect : Env → Trade L → Effect L Double
    unfolding open_ws open_http
    connect env t = open_ws (read_config t) |> send_auth env |> open_http env |> λ u.
        (record u { has_curl = env.curl_ready }, [])

    -- A heartbeat, and its time.
    abbrev pub beat_now : Env → Trade L → Effect L Double
    beat_now env t = send_heartbeat env t |> λ u. (record u { last_heartbeat_time = env.now }, [])

    -- `current_time > last_heartbeat_time_ + 29000`
    unfoldable pub beat : Env → Trade L → Effect L Double
    beat env t = if ltb (t.last_heartbeat_time + 29000) env.now then beat_now env t else (t, [])

    -- `RunOnce`. `poll` is `ioc.poll_one()`, which runs at most one handler of a session.
    unfoldable pub run_once : (poll : Trade L → Effect L Double) → Env → Trade L → Effect L Double
    run_once poll env t =
        poll t
        |> (λ u. if u.need_reconnect then reconnect env u else (u, []))
        |> (λ u. if u.http_need_reconnect then http_reconnect env u else (u, []))
        |> beat env
