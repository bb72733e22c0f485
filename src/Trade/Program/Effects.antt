-- ===== src/Trade/Program/Effects.antt =====
-- Every operation of `TradeService` but a reconnection only sends on its sessions.
use sample.Base.{
  ℕ, suc, ◌+◌, String, List, [], ◌∷◌, ◌++◌, Option, refl, ltb, Returns, Returns-some, Returns-then,
}
use sample.Base.Decimal.{to_string, replace_hash}
use sample.External.{Libraries}
use sample.Core.Records.{TradeOrder}
use sample.Ws
use sample.Http
use sample.Trade.{Trade, Effect, ◌|>◌, ws_send, http_send}
use sample.Trade.Orders.{new_request, place_order, place_request, cancel_order, cancel_request}
use sample.Trade.Link.{
  Env, on_http_close, on_http_error, on_http_connect, on_error, on_connect, on_close, heart_beat,
  send_heartbeat, beat, beat_now,
}
use sample.Trade.Program.{ws_called, http_called, all_called}
use sample.Trade.Program.Speeches.{nothing, ws_send-Says, http_send-Says, Says-then}
use sample.Trade.Program.Spoken.{Spoken, only_tells, Spoken-if}
use sample.Trade.Program.Messages.{on_message-Spoken, on_http_message-Spoken}

module _ (lib : Libraries) {L : Type 0} where
  beat_now-Spoken : (env : Env) (t : Trade L) → Spoken t (beat_now lib env t)
  unfolding send_heartbeat ws_send http_send
  beat_now-Spoken env t =
      let u : Trade L = record t { id = suc t.id } in
      let text = replace_hash heart_beat (to_string t.id) in
      let request = new_request "GET" "/md/orderbook?symbol=BTCUSD" t.host env.beast_version in
      let a = ws_send-Says {F = lib.doubles.Double} text u in
      let e = ws_send {F = lib.doubles.Double} text u in
      let b = http_send-Says {F = lib.doubles.Double} request e.0 in
      let c = Says-then u e (http_send request) (text ∷ []) [] [] (request ∷ []) a b in
      let mid = e |> http_send request in
      let d =
        Says-then u mid (λ x. (record x { last_heartbeat_time = env.now }, [])) (text ∷ []) []
          (request ∷ []) [] c
          (nothing mid.0 _ refl refl (record { host = refl; ws_host = refl }) [] refl refl) in
      (
        text ∷ [],
        request ∷ [],
        record { ws = d.ws; http = d.http; settled = record { host = refl; ws_host = refl } },
      )

  pub beat-Spoken : (env : Env) (t : Trade L) → Spoken t (beat lib env t)
  unfolding beat
  beat-Spoken env t =
      Spoken-if (ltb (t.last_heartbeat_time + 29000) env.now) (beat_now-Spoken env t)
        (only_tells t [] (refl, refl))

  pub place_order-Spoken :
      (beast_version : String) (now : ℕ) (order : TradeOrder lib.doubles.Double) (t : Trade L)
      → Spoken t (place_order lib beast_version now order t)
  unfolding place_order
  place_order-Spoken beast_version now order t =
      (_, _, http_send-Says (place_request lib beast_version now order t) t)

  pub cancel_order-Spoken :
      (beast_version : String) (now : ℕ) (order : TradeOrder lib.doubles.Double) (t : Trade L)
      → Spoken t (cancel_order lib beast_version now order t)
  unfolding cancel_order
  cancel_order-Spoken beast_version now order t =
      (_, _, http_send-Says (cancel_request lib beast_version now order t) t)

  pub ws_called-Spoken :
      (c : Ws.Runtime.Calls.Call) (t : Trade L) → Returns (Spoken t) (ws_called lib c t)
  unfolding ws_called on_connect on_close on_error
  ws_called-Spoken Ws.Runtime.Calls.connects t = Returns-some (only_tells t [] (refl, refl))
  ws_called-Spoken Ws.Runtime.Calls.closes t = Returns-some (only_tells t [] (refl, refl))
  ws_called-Spoken (Ws.Runtime.Calls.fails ec) t =
      Returns-some
        ([], [], nothing t _ refl refl (record { host = refl; ws_host = refl }) [] refl refl)
  ws_called-Spoken (Ws.Runtime.Calls.says text) t = on_message-Spoken lib.json lib.doubles text t

  pub http_called-Spoken :
      (c : Http.Runtime.Speech.Call) (t : Trade L) → Returns (Spoken t) (http_called lib c t)
  unfolding http_called on_http_connect on_http_close on_http_error
  http_called-Spoken Http.Runtime.Speech.connects t = Returns-some (only_tells t [] (refl, refl))
  http_called-Spoken Http.Runtime.Speech.closes t =
      Returns-some
        ([], [], nothing t _ refl refl (record { host = refl; ws_host = refl }) [] refl refl)
  http_called-Spoken (Http.Runtime.Speech.fails ec) t =
      Returns-some
        ([], [], nothing t _ refl refl (record { host = refl; ws_host = refl }) [] refl refl)
  http_called-Spoken (Http.Runtime.Speech.says text) t =
      on_http_message-Spoken lib.json lib.doubles text t

  pub all_called-Spoken :
      {C : Type 0} (called : C → Trade L → Option (Effect L lib.doubles.Double))
      → ((c : C) (t : Trade L) → Returns (Spoken t) (called c t))
      → (cs : List C) (t : Trade L) → Returns (Spoken t) (all_called lib called cs t)
  unfolding all_called
  all_called-Spoken called each [] t = Returns-some (only_tells t [] (refl, refl))
  all_called-Spoken called each (c ∷ more) t = Returns-then (called c t) (each c t) λ e (ms, rs, a).
      Returns-then (all_called lib called more e.0) (all_called-Spoken called each more e.0)
        λ f (ns, qs, b). Returns-some (ms ++ ns, rs ++ qs, Says-then t e (λ _. f) ms ns rs qs a b)
