-- ===== src/Market/Program/Failure.antt =====
-- `MarketDataService` after a step of its session to the connection has failed.
use sample.Base.{ℕ, false, List, [], ◌∷◌, ◌++◌, some, ◌≡◌}
use sample.External.{Rapidjson, Doubles}
use sample.Asio.{is_connected}
use sample.Ws
use sample.Ws.Runtime.{Op, Result}
use sample.Ws.Runtime.Phases.{setups}
use sample.Ws.Runtime.Alive.{good}
use sample.Ws.Runtime.Lost.{lost}
use sample.Market.Link.{Effect, run_once}
use sample.Market.Program.{Program, does, poll, completed, Reach, Steps}
use sample.Market.Program.Runs.{Reach-Inv, polled}
use sample.Market.Program.Silence.{Steps-Inv}

module _ (J : Rapidjson) (D : Doubles) {L : Type 0} where
  -- In a state of the market data service at work, let an outstanding operation towards the
  -- connection fail, or OpenSSL refuse the name of the host behind it: after that, whatever calls
  -- of `RunOnce` and `RegisterListener` follow and whatever operations complete, the session of
  -- the service is not connected.
  pub never_connects :
      {p q : Program L} (before : List Op) (op : Op) (rest : List Op) (c : Result) (at now : ℕ)
      (e : Effect L D.Double)
      → Reach J D p
      → p.outstanding ≡ before ++ op ∷ rest
      → setups (op ∷ []) ≡ 1
      → good op c ≡ false
      → poll J D at op c p.service ≡ some e
      → Steps J D (does (completed J D p before op rest c) (run_once (λ _. e) now p.service)) q
      → is_connected q.service.ws_session.state ≡ false
  never_connects before op rest c at now e h is one bad done path =
      let v = Reach-Inv J D h in
      let u =
        Steps-Inv J D (polled J D _ before op rest c at now e v is done Ws.Runtime.stays) path in
      lost before op rest c v.reached is one bad u.steps
