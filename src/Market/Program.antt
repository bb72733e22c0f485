-- ===== src/Market/Program.antt =====
-- `MarketDataService` at work: `Connect` once, then calls of `RunOnce`, in each of which at most one
-- handler of the session runs. A handler calls the service back, the service sends, and so begins
-- further operations. Which operation completes next, and how, is the surroundings' choice.
pub mod Speeches
pub mod Calls
pub mod Protocol
pub mod Runs
pub mod Traffic
pub mod Silence
pub mod Failure
use sample.Base.{◌>>=◌, ℕ, String, List, [], ◌∷◌, ◌++◌, map, Option, some, ◌≡◌}
use sample.External.{Rapidjson, Doubles}
use sample.Ws
use sample.Ws.Runtime.{Op, Result, all_started, handle, now_written}
use sample.Ws.Runtime.Calls.{Call, connects, closes, says, fails, calls}
use sample.Market.Feed.{on_message}
use sample.Market.Link.{
  Service, Deed, ws_action, tells, Effect, connect, on_connect, on_close, on_error, run_once,
  register_listener,
}
use sample.Exchange.{new_market}

-- The service, the operations that its session has outstanding, and the messages whose write
-- succeeded.
pub record Program (L : Type 0) : Type 0 where
  pub service : Service L
  pub outstanding : List Op
  pub written : List String

-- The operations that a list of deeds begins.
abbrev pub begins : {L F : Type 0} → List (Deed L F) → List Op
begins [] = []
begins (ws_action a ∷ deeds) = Ws.Runtime.started a ++ begins deeds
begins (tells _ ∷ deeds) = begins deeds

abbrev pub does : {L F : Type 0} → Program L → Effect L F → Program L
does p (s, deeds) = record p { service = s; outstanding = p.outstanding ++ begins deeds }

module _ (J : Rapidjson) (D : Doubles) {L : Type 0} where
  -- What the service does when its session calls it; `now` is the clock in `onConnect`. `none` is an
  -- assertion of rapidjson that fails, or undefined behaviour.
  unfoldable pub called : (now : ℕ) → Call → Service L → Option (Effect L D.Double)
  called now connects s = some (on_connect now s)
  called now closes s = some (on_close s, [])
  called now (fails ec) s = some (on_error ec s, [])
  called now (says text) s = do
    (m, out) ← on_message J D text s.market
    some (record s { market = m }, map tells out)

  unfoldable pub all_called : (now : ℕ) → List Call → Service L → Option (Effect L D.Double)
  unfolding called
  all_called now [] s = some (s, [])
  all_called now (c ∷ more) s = do
    (t, deeds) ← called now c s
    (u, others) ← all_called now more t
    some (u, deeds ++ others)

  -- The handler of an operation on the session of the service, and the calls that it makes.
  unfoldable pub poll : (now : ℕ) → Op → Result → Service L → Option (Effect L D.Double)
  unfolding all_called
  poll now op c s =
      let (w, actions) = handle op c s.ws_session in
      all_called now (calls actions) (record s { ws_session = w })

  abbrev pub completed : Program L → List Op → Op → List Op → Result → Program L
  completed p before op rest c = record p {
    outstanding = (before ++ rest) ++ all_started (handle op c p.service.ws_session).1;
    written = now_written op c p.written;
  }

  pub data Step (p : Program L) : Program L → Type 0 where
    -- `RunOnce`, when an operation has completed. The clock is read in `onConnect`, and later in
    -- `RunOnce`.
    polls :
        (before : List Op) (op : Op) (rest : List Op) (c : Result) (at now : ℕ)
        (e : Effect L D.Double)
        → p.outstanding ≡ before ++ op ∷ rest
        → poll at op c p.service ≡ some e
        → Step p (does (completed p before op rest c) (run_once (λ _. e) now p.service))
    -- `RunOnce`, when none has.
    passes : (now : ℕ) → Step p (does p (run_once {F = D.Double} (λ s. (s, [])) now p.service))
    -- `RegisterListener`
    registers : (l : L) → Step p (record p { service = register_listener l p.service })

  -- `Connect` on a new service.
  abbrev pub begun : Program L
  begun =
      does
        (record {
          service = record { market = new_market; ws_session = Ws.new_session };
          outstanding = [];
          written = [];
        })
        (connect {F = D.Double} (record { market = new_market; ws_session = Ws.new_session }))

  pub data Reach : Program L → Type 0 where
    start : Reach begun
    later : {p q : Program L} → Reach p → Step p q → Reach q

  -- Some calls of `RunOnce` and `RegisterListener`.
  pub data Steps (p : Program L) : Program L → Type 0 where
    stays : Steps p p
    goes_on : {q r : Program L} → Steps p q → Step q r → Steps p r
