-- ===== src/Trade/Program/Steps.antt =====
-- The steps of `TradeService` at work. Which operation of which session completes next, and how, is
-- the surroundings' choice; the caller places orders at any time.
use sample.Base.{false, ℕ, String, List, [], ◌∷◌, ◌++◌, some, ◌≡◌}
use sample.External.{Libraries}
use sample.Core.Records.{TradeOrder}
use sample.Ws
use sample.Http
use sample.Trade.{Effect}
use sample.Trade.Orders.{place_order, cancel_order}
use sample.Trade.Link.{Env, connect, register_listener}
use sample.Exchange.{new_trade}
use sample.Trade.Program.{
  Program, WsLine, HttpLine, does, ws_called, http_called, all_called, after_poll, ends,
}

-- A line after the handler of an operation.
abbrev pub ws_handled :
    WsLine → List Ws.Runtime.Op → Ws.Runtime.Op → List Ws.Runtime.Op → Ws.Runtime.Result → WsLine
ws_handled o before op rest c =
    let (s, actions) = Ws.Runtime.handle op c o.session in
    record {
      session = s;
      outstanding = (before ++ rest) ++ Ws.Runtime.all_started actions;
      written = Ws.Runtime.now_written op c o.written;
    }

abbrev pub http_handled :
    HttpLine
    → List Http.Runtime.Op
    → Http.Runtime.Op
    → List Http.Runtime.Op
    → Http.Runtime.Result
    → HttpLine
http_handled o before op rest c =
    let (s, actions) = Http.Runtime.handle op c o.session in
    record {
      session = s;
      outstanding = (before ++ rest) ++ Http.Runtime.all_started actions;
      written = Http.Runtime.now_written op c o.written;
    }

-- The calls of the handler.
abbrev pub ws_calls : WsLine → Ws.Runtime.Op → Ws.Runtime.Result → List Ws.Runtime.Calls.Call
ws_calls o op c = Ws.Runtime.Calls.calls (Ws.Runtime.handle op c o.session).1

abbrev pub http_calls :
    HttpLine → Http.Runtime.Op → Http.Runtime.Result → List Http.Runtime.Speech.Call
http_calls o op c = Http.Runtime.Speech.calls (Http.Runtime.handle op c o.session).1

module _ {L : Type 0} where
  -- The current sessions.
  abbrev pub ws_line : Program L → WsLine
  ws_line p = record {
    session = p.service.ws_session;
    outstanding = p.ws_outstanding;
    written = p.ws_written;
  }

  abbrev pub http_line : Program L → HttpLine
  http_line p = record {
    session = p.service.http_session;
    outstanding = p.http_outstanding;
    written = p.http_written;
  }

  abbrev pub with_ws : WsLine → Program L → Program L
  with_ws o p = record p {
    service = record p.service { ws_session = o.session };
    ws_outstanding = o.outstanding;
    ws_written = o.written;
  }

  abbrev pub with_http : HttpLine → Program L → Program L
  with_http o p = record p {
    service = record p.service { http_session = o.session };
    http_outstanding = o.outstanding;
    http_written = o.written;
  }

module _ (lib : Libraries) {L : Type 0} where
  pub data Step (p : Program L) : Program L → Type 0 where
    -- `RunOnce`, when an operation of the current websocket session has completed.
    polls_ws :
        (before : List Ws.Runtime.Op) (op : Ws.Runtime.Op) (rest : List Ws.Runtime.Op)
        (c : Ws.Runtime.Result) (others : ℕ) (env : Env) (e : Effect L lib.doubles.Double)
        → p.stopped ≡ false
        → p.ws_outstanding ≡ before ++ op ∷ rest
        → all_called lib
            (ws_called lib)
            (ws_calls (ws_line p) op c)
            (with_ws (ws_handled (ws_line p) before op rest c) p).service
          ≡ some e
        → Step p (
            after_poll lib env
              (ends others (does (with_ws (ws_handled (ws_line p) before op rest c) p) e)))
    -- The same, of the current HTTP session.
    polls_http :
        (before : List Http.Runtime.Op) (op : Http.Runtime.Op) (rest : List Http.Runtime.Op)
        (c : Http.Runtime.Result) (others : ℕ) (env : Env) (e : Effect L lib.doubles.Double)
        → p.stopped ≡ false
        → p.http_outstanding ≡ before ++ op ∷ rest
        → all_called lib
            (http_called lib)
            (http_calls (http_line p) op c)
            (with_http (http_handled (http_line p) before op rest c) p).service
          ≡ some e
        → Step p (
            after_poll lib env
              (ends others (does (with_http (http_handled (http_line p) before op rest c) p) e)))
    -- The same, of a session that was replaced.
    polls_old_ws :
        (newer : List WsLine) (o : WsLine) (older : List WsLine) (before : List Ws.Runtime.Op)
        (op : Ws.Runtime.Op) (rest : List Ws.Runtime.Op) (c : Ws.Runtime.Result) (others : ℕ)
        (env : Env) (e : Effect L lib.doubles.Double)
        → p.stopped ≡ false
        → p.old_ws ≡ newer ++ o ∷ older
        → o.outstanding ≡ before ++ op ∷ rest
        → all_called lib (ws_called lib) (ws_calls o op c) p.service ≡ some e
        → Step p (
            after_poll lib env (
              ends others
                (does (record p { old_ws = newer ++ ws_handled o before op rest c ∷ older }) e)))
    polls_old_http :
        (newer : List HttpLine) (o : HttpLine) (older : List HttpLine)
        (before : List Http.Runtime.Op) (op : Http.Runtime.Op) (rest : List Http.Runtime.Op)
        (c : Http.Runtime.Result) (others : ℕ) (env : Env) (e : Effect L lib.doubles.Double)
        → p.stopped ≡ false
        → p.old_http ≡ newer ++ o ∷ older
        → o.outstanding ≡ before ++ op ∷ rest
        → all_called lib (http_called lib) (http_calls o op c) p.service ≡ some e
        → Step p (
            after_poll lib env (
              ends others (
                does (record p { old_http = newer ++ http_handled o before op rest c ∷ older }) e)))
    -- `RunOnce`, when none has completed.
    passes : (others : ℕ) (env : Env) → Step p (after_poll lib env (ends others p))
    places :
        (beast_version : String) (now : ℕ) (order : TradeOrder lib.doubles.Double)
        → Step p (does p (place_order lib beast_version now order p.service))
    cancels :
        (beast_version : String) (now : ℕ) (order : TradeOrder lib.doubles.Double)
        → Step p (does p (cancel_order lib beast_version now order p.service))
    registers : (l : L) → Step p (record p { service = register_listener l p.service })

  -- `Connect` on a new service with a configuration.
  abbrev pub begun : List (String × String) → Env → Program L
  begun config env =
      does
        (record {
          service = record new_trade { config = config };
          ws_outstanding = [];
          ws_written = [];
          http_outstanding = [];
          http_written = [];
          old_ws = [];
          old_http = [];
          stopped = false;
        })
        (connect lib env (record new_trade { config = config }))

  pub data Reach : Program L → Type 0 where
    start : (config : List (String × String)) (env : Env) → Reach (begun config env)
    later : {p q : Program L} → Reach p → Step p q → Reach q

  -- Some steps.
  pub data Steps (p : Program L) : Program L → Type 0 where
    stays : Steps p p
    goes_on : {q r : Program L} → Steps p q → Step q r → Steps p r
