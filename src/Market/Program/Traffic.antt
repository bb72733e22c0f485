-- ===== src/Market/Program/Traffic.antt =====
-- What `MarketDataService` says on the wire, against a protocol, and which books it keeps.
use mathlib.Core.Path.{subst}
use sample.Base.{String, List, ◌++◌, ◌≡◌}
use sample.External.{Rapidjson, Doubles}
use sample.Asio.{is_connected}
use sample.Ws
use sample.Ws.Runtime.Delivery.{delivery}
use sample.Market.Link.{this}
use sample.Market.Program.{Program, Reach}
use sample.Market.Program.Protocol.{Traffic}
use sample.Market.Program.Runs.{run, Reach-Inv}

module _ (J : Rapidjson) (D : Doubles) {L : Type 0} where
  -- In every state of the market data service at work, its session with the outstanding operations
  -- is a state of a run of a websocket session to phemex.com, in which the messages given to
  -- `send` are those written followed by those in the queue.
  pub implements_run :
      {p : Program L}
      → Reach J D p
      → (sent : List String) × Ws.Runtime.Reach this "phemex.com" "/ws" (run p sent)
        × (sent ≡ p.written ++ p.service.ws_session.write_queue)
  implements_run h = let v = Reach-Inv J D h in (v.sent, v.reached, (delivery v.reached).0)

  -- In every state of the market data service at work, whichever operations of its session
  -- complete, with whichever results, and whenever `RunOnce` is called: the messages written and
  -- those in the queue are, in this order, what the protocol allows, heartbeats with the ids 1, 2
  -- and so on up to the current one, and the two subscriptions, one behind the other and with ids
  -- one apart, once if the session is connected and not at all before.
  pub keeps_protocol :
      {p : Program L}
      → Reach J D p
      → Traffic
          (is_connected p.service.ws_session.state)
          p.service.market.id
          (p.written ++ p.service.ws_session.write_queue)
  keeps_protocol {p} h =
      let v = Reach-Inv J D h in
      subst
        (λ (sent : List String).
          Traffic (is_connected p.service.ws_session.state) p.service.market.id sent)
        (delivery v.reached).0 v.traffic
