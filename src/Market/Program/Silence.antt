-- ===== src/Market/Program/Silence.antt =====
-- `MarketDataService` after a write of its session has failed.
use sample.Base.{ℕ, true, String, List, ◌∷◌, ◌++◌, some, ◌≡◌}
use sample.External.{Rapidjson, Doubles}
use sample.Asio.{sending, failed}
use sample.Ws
use sample.Ws.Runtime.{Op, writing, Result}
use sample.Market.Link.{Self, Effect, run_once}
use sample.Market.Program.{Program, does, poll, completed, Reach}
use sample.Ws.Runtime.Stall.{stalls}
use sample.Market.Program.{Steps, stays, goes_on}
use sample.Market.Program.Runs.{Inv, Step-Inv, Reach-Inv, polled}

module _ (J : Rapidjson) (D : Doubles) {L : Type 0} where
  pub Steps-Inv :
      {from : Ws.Runtime.Run Self} {p q : Program L}
      → Inv J D from p
      → Steps J D p q
      → Inv J D from q
  Steps-Inv v stays = v
  Steps-Inv v (goes_on path step) = Step-Inv J D (Steps-Inv v path) step

  -- In a state of the market data service at work in which a write is outstanding, let that write
  -- fail: after it, whatever calls of `RunOnce` and `RegisterListener` follow and whatever
  -- operations complete, nothing more is written, and the session stays in the state `sending`.
  pub silenced :
      {p q : Program L} (before : List Op) (m : String) (rest : List Op) (c : Result) (at now : ℕ)
      (e : Effect L D.Double)
      → Reach J D p
      → p.outstanding ≡ before ++ writing m ∷ rest
      → failed c.code ≡ true
      → poll J D at (writing m) c p.service ≡ some e
      → Steps J D
          (does (completed J D p before (writing m) rest c) (run_once (λ _. e) now p.service))
          q
      → (q.written ≡ p.written) × (q.service.ws_session.sending_state ≡ sending)
  silenced before m rest c at now e h is bad done path =
      let v = Reach-Inv J D h in
      let u =
        Steps-Inv (polled J D _ before (writing m) rest c at now e v is done Ws.Runtime.stays)
          path in
      stalls before m rest c v.reached is bad u.steps
