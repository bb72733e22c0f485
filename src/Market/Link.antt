-- ===== src/Market/Link.antt =====
-- The connection of `MarketDataService`: `Connect`, `RunOnce`, the subscription and the heartbeat.
use sample.Base.{ℕ, suc, ◌+◌, true, String, List, [], ◌∷◌, ◌++◌, map, if◌then◌else◌, ltb}
use sample.Base.Dict
use sample.Base.Decimal.{to_string, replace_hash}
use sample.Base.Int.{pos}
use sample.Asio.{ErrorCode}
use sample.Ws
use sample.Market.{Market, Output}

-- The listener that the session has: the service itself.
pub data Self : Type 0 where
  this : Self

-- The service with its socket.
pub record Service (L : Type 0) : Type 0 where
  pub market : Market L
  pub ws_session : Ws.Session Self

pub data Deed (L F : Type 0) : Type 0 where
  ws_action : Ws.Action Self → Deed L F
  tells : Output L F → Deed L F

abbrev pub Effect : Type 0 → Type 0 → Type 0
Effect L F = Service L × List (Deed L F)

-- `bookSub`, `tradeSub` and `heartBeat`
abbrev pub book_sub : String
book_sub = "{\"id\":#, \"method\":\"orderbook.subscribe\", \"params\":[\"BTCUSD\"]}"

abbrev pub trade_sub : String
trade_sub = "{\"id\":#, \"method\":\"trade.subscribe\", \"params\":[\"BTCUSD\"]}"

abbrev pub heart_beat : String
heart_beat = "{\"id\":#, \"method\":\"server.ping\", \"params\":[]}"

module _ {L F : Type 0} where
  infixl 3 ◌|>◌
  abbrev pub ◌|>◌ : Effect L F → (Service L → Effect L F) → Effect L F
  (s, out) |> f = let (s', more) = f s in (s', out ++ more)

  unfoldable pub ws_send : String → Service L → Effect L F
  ws_send text s =
      let (w, actions) = Ws.send text s.ws_session in
      (record s { ws_session = w }, map ws_action actions)

  -- `Connect`. The three assignments to `symbolToId` are in the program's order.
  unfoldable pub connect : Service L → Effect L F
  connect s =
      let m = s.market in
      let ids =
        Dict.insert "BTCUSD" (pos 1)
          (Dict.insert "BTC_USDT" (pos 1) (Dict.insert "BTCUSD" (pos 1) m.symbol_to_id)) in
      let (w, actions) =
        Ws.connect "phemex.com" "/ws" (Ws.add_listener this (Ws.new_session {L = Self})) in
      (record { market = record m { symbol_to_id = ids }; ws_session = w }, map ws_action actions)

  -- `sendSubscription`; `now` is the clock, which gives the first id.
  unfoldable pub send_subscription : (now : ℕ) → Service L → Effect L F
  send_subscription now s =
      ws_send (replace_hash book_sub (to_string now)) s
      |> ws_send (replace_hash trade_sub (to_string (suc now)))

  unfoldable pub on_connect : (now : ℕ) → Service L → Effect L F
  unfolding send_subscription
  on_connect now s = send_subscription now s

  unfoldable pub send_heartbeat : Service L → Effect L F
  send_heartbeat s =
      let m = s.market in
      ws_send (replace_hash heart_beat (to_string m.id))
        (record s { market = record m { id = suc m.id } })

  abbrev pub beat_now : (now : ℕ) → Service L → Effect L F
  beat_now now s = send_heartbeat s |> λ u.
      (record u { market = record u.market { last_heartbeat_time = now } }, [])

  -- `RunOnce`. `poll` is `ioc.poll_one()`, which runs at most one handler of the session.
  unfoldable pub run_once : (poll : Service L → Effect L F) → (now : ℕ) → Service L → Effect L F
  run_once poll now s = poll s |> λ u.
      if ltb (u.market.last_heartbeat_time + 29000) now then beat_now now u else (u, [])

module _ {L : Type 0} where
  unfoldable pub on_error : ErrorCode → Service L → Service L
  on_error ec s = record s { market = record s.market { need_reconnect = true } }

  -- `onClose` does nothing.
  unfoldable pub on_close : Service L → Service L
  on_close s = s

  unfoldable pub register_listener : L → Service L → Service L
  register_listener l s = record s {
    market = record s.market { listeners = s.market.listeners ++ l ∷ [] };
  }
