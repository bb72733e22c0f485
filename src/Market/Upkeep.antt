-- ===== src/Market/Upkeep.antt =====
-- What `Connect`, `RunOnce` and the subscription of `MarketDataService` leave behind.
use sample.Base.{
  ℕ, suc, ◌+◌, ◌≤◌, Bool-cases, inl, inr, String, List, [], ◌∷◌, ◌++◌, ◌∷ʳ◌, ◌≡◌, refl, ap, ◌∙◌,
  if◌then◌else◌, ltb, arith, append_assoc,
}
use sample.Base.Decimal.{to_string, replace_hash}
use sample.Base.Int.{pos}
use sample.Ws
use sample.Wire.{Wire, pump}
use sample.Ws.Runtime.{Run, Reach, start, wire_of}
use sample.Ws.Runtime.Handlers.{check_send-pump}
use sample.Base.Dict
use sample.Base.{some}
use sample.Market.Link.{
  Self, this, Service, ws_action, Effect, book_sub, trade_sub, heart_beat, ws_send, connect,
  send_subscription, send_heartbeat, run_once,
}

pump_queue : {M : Type 0} (w : Wire M) → (pump w).queue ≡ w.queue
unfolding pump
pump_queue w = ground arith

module _ {L : Type 0} where
  -- `send` puts the message at the end of the queue, whether or not it begins a write.
  send_queue :
      (text : String) (w : Ws.Session L) → (Ws.send text w).0.write_queue ≡ w.write_queue ∷ʳ text
  unfolding Ws.send
  send_queue text w =
      let added : Ws.Session L = record w { write_queue = w.write_queue ∷ʳ text } in
      ap (λ (v : Wire String). v.queue) (check_send-pump added [] [] [])
      ∙ pump_queue (wire_of added [] [] [])

module _ {L : Type 0} where
  -- `sendSubscription` puts two messages at the end of the queue of the session, the subscription
  -- to the books with the time as its id and that to the trades with the next id; whatever state
  -- the session is in, none is lost and nothing else of the service changes.
  send_subscription_queue :
      (F : Type 0) (now : ℕ) (s : Service L)
      → let u = (send_subscription {F = F} now s).0 in
        (u.ws_session.write_queue
          ≡ s.ws_session.write_queue
            ++ replace_hash book_sub (to_string now)
              ∷ replace_hash trade_sub (to_string (suc now))
              ∷ [])
        × (u.market ≡ s.market)
  unfolding send_subscription ws_send
  send_subscription_queue F now s = (
    send_queue _ _
        ∙ ap (λ (q : List String). q ∷ʳ replace_hash trade_sub (to_string (suc now)))
            (send_queue _ _)
        ∙ append_assoc s.ws_session.write_queue (replace_hash book_sub (to_string now) ∷ []) _,
    refl,
  )

module _ {L F : Type 0} where
  -- `Connect` of the market data service begins a run of a websocket session to "phemex.com" with
  -- an empty queue, of which only the resolution of the host has begun, and "BTCUSD" has the
  -- instrument id 1.
  pub market_connect-Reach :
      (s : Service L)
      → let (u, out) : Effect L F = connect s in
        (r : Run Self) × Reach this "phemex.com" "/ws" r
        × (r.session ≡ u.ws_session)
        × (u.ws_session.write_queue ≡ [])
        × (out ≡ ws_action (Ws.resolve "phemex.com" "443") ∷ [])
        × (Dict.lookup "BTCUSD" u.market.symbol_to_id ≡ some (pos 1))
  unfolding connect Ws.connect Ws.add_listener Ws.new_session
  market_connect-Reach s =
      (_, start, refl, refl, refl, Dict.lookup-insert "BTCUSD" "BTCUSD" (pos 1) _)

  -- `RunOnce` of the market data service, whatever the polled handler did, queues one heartbeat
  -- with the current id and notes the time exactly if the last heartbeat is more than 29 seconds
  -- old; it leaves the flag that asks for a reconnection as the handler has left it.
  pub market_run_once_lem :
      (poll : Service L → Effect L F) (now : ℕ) (s : Service L)
      → let v = (poll s).0 in
        let due = ltb (v.market.last_heartbeat_time + 29000) now in
        let u = (run_once poll now s).0 in
        (u.ws_session.write_queue ≡ (
          if due
          then v.ws_session.write_queue ∷ʳ replace_hash heart_beat (to_string v.market.id)
          else v.ws_session.write_queue))
        × (u.market.last_heartbeat_time ≡ (if due then now else v.market.last_heartbeat_time))
        × (now ≤ u.market.last_heartbeat_time + 29000)
        × (u.market.need_reconnect ≡ v.market.need_reconnect)
  unfolding run_once send_heartbeat ws_send
  market_run_once_lem poll now s =
      let v = (poll s).0 in
      elim (Bool-cases (ltb (v.market.last_heartbeat_time + 29000) now)) [
        | inl e ↦ rw e (send_queue _ _, refl, omega arith, refl)
        | inr e ↦ rw e (refl, refl, ground arith, refl)
      ]
