-- ===== src/Trade/Program/Invariant.antt =====
-- What holds of `TradeService` at work in every state.
use mathlib.Core.Path.{subst}
use sample.Base.{
  ℕ, All-replace, All-at, String, List, [], ◌∷◌, ◌++◌, map, ◌≡◌, refl, sym, ap, ◌∙◌, All,
  append-nil,
}
use sample.External.{Libraries}
use sample.Ws
use sample.Http
use sample.Trade.{Trade, this, http_action, ws_send}
use sample.Trade.Orders.{place_order, cancel_order}
use sample.Trade.Link.{register_listener, Env, open_ws, open_http, connect, read_config, send_auth}
use sample.Trade.Upkeep.{auth_text}
use sample.Trade.Program.{
  ends, Program, WsLine, HttpLine, does, ws_begins, http_begins, ws_called, http_called,
}
use sample.Trade.Program.Steps.{
  Step, polls_ws, polls_http, polls_old_ws, polls_old_http, passes, places, cancels, registers,
  Reach, start, later, ws_line, http_line, with_ws, with_http, ws_handled, http_handled, ws_calls,
  http_calls, begun,
}
use sample.Trade.Program.Speeches.{http_begins-http, ws_begins-http}
use sample.Exchange.{new_trade}
use sample.Trade.Program.Effects.{
  place_order-Spoken, cancel_order-Spoken, ws_called-Spoken, http_called-Spoken, all_called-Spoken,
}
use sample.Trade.Program.Runs.{
  WsReached, HttpReached, Inv, does-Inv, after_poll-Inv, ws_there, http_there,
}

module _ {lib : Libraries} where
  -- A handler of a session is a step of its run.
  ws_handled-WsReached :
      {h : String} (o : WsLine) (before : List Ws.Runtime.Op) (op : Ws.Runtime.Op)
      (rest : List Ws.Runtime.Op) (c : Ws.Runtime.Result)
      → WsReached lib h o
      → o.outstanding ≡ before ++ op ∷ rest
      → WsReached lib h (ws_handled o before op rest c)
  ws_handled-WsReached o before op rest c v e = record {
    auth = v.auth;
    authenticates = v.authenticates;
    others = v.others;
    reached = Ws.Runtime.later v.reached (Ws.Runtime.completes before op rest c e);
  }

  http_handled-HttpReached :
      {h : String} (o : HttpLine) (before : List Http.Runtime.Op) (op : Http.Runtime.Op)
      (rest : List Http.Runtime.Op) (c : Http.Runtime.Result)
      → HttpReached lib h o
      → o.outstanding ≡ before ++ op ∷ rest
      → HttpReached lib h (http_handled o before op rest c)
  http_handled-HttpReached o before op rest c v e = record {
    sent = v.sent;
    reached = Http.Runtime.later v.reached (Http.Runtime.completes before op rest c e);
  }

module _ (lib : Libraries) {L : Type 0} {host ws_host : String} where
  -- Whether the context stops is nothing to the sessions.
  ends-Inv :
      (others : ℕ) (p : Program L) → Inv lib host ws_host p → Inv lib host ws_host (ends others p)
  unfolding ends
  ends-Inv others p v = record {
    same_host = v.same_host;
    same_ws_host = v.same_ws_host;
    ws = record {
      auth = v.ws.auth;
      authenticates = v.ws.authenticates;
      others = v.ws.others;
      reached = v.ws.reached;
    };
    http = record { sent = v.http.sent; reached = v.http.reached };
    old_ws = v.old_ws;
    old_http = v.old_http;
  }

  Step-Inv : {p q : Program L} → Inv lib host ws_host p → Step lib p q → Inv lib host ws_host q
  unfolding register_listener
  Step-Inv {p} v (polls_ws before op rest c others env e on is done) =
      let o = ws_handled (ws_line p) before op rest c in
      let q = with_ws o p in
      let w : Inv lib host ws_host q = record {
        same_host = v.same_host;
        same_ws_host = v.same_ws_host;
        ws = ws_handled-WsReached (ws_line p) before op rest c v.ws is;
        http = record { sent = v.http.sent; reached = v.http.reached };
        old_ws = v.old_ws;
        old_http = v.old_http;
      } in
      after_poll-Inv lib env (ends others (does q e)) (
        ends-Inv others (does q e) (
          does-Inv lib q e w (
            (all_called-Spoken lib (ws_called lib) (ws_called-Spoken lib)
                (ws_calls (ws_line p) op c) q.service).result
              e done)))
  Step-Inv {p} v (polls_http before op rest c others env e on is done) =
      let o = http_handled (http_line p) before op rest c in
      let q = with_http o p in
      let w : Inv lib host ws_host q = record {
        same_host = v.same_host;
        same_ws_host = v.same_ws_host;
        ws = record {
          auth = v.ws.auth;
          authenticates = v.ws.authenticates;
          others = v.ws.others;
          reached = v.ws.reached;
        };
        http = http_handled-HttpReached (http_line p) before op rest c v.http is;
        old_ws = v.old_ws;
        old_http = v.old_http;
      } in
      after_poll-Inv lib env (ends others (does q e)) (
        ends-Inv others (does q e) (
          does-Inv lib q e w (
            (all_called-Spoken lib (http_called lib) (http_called-Spoken lib)
                (http_calls (http_line p) op c) q.service).result
              e done)))
  Step-Inv {p} v (polls_old_ws newer o older before op rest c others env e on there is done) =
      let old = subst (All (WsReached lib ws_host)) there v.old_ws in
      let q = record p { old_ws = newer ++ ws_handled o before op rest c ∷ older } in
      let w : Inv lib host ws_host q = record {
        same_host = v.same_host;
        same_ws_host = v.same_ws_host;
        ws = v.ws;
        http = v.http;
        old_ws =
            All-replace (WsReached lib ws_host) newer o (ws_handled o before op rest c) older old (
              ws_handled-WsReached o before op rest c
                (All-at (WsReached lib ws_host) newer o older old) is);
        old_http = v.old_http;
      } in
      after_poll-Inv lib env (ends others (does q e)) (
        ends-Inv others (does q e) (
          does-Inv lib q e w (
            (all_called-Spoken lib (ws_called lib) (ws_called-Spoken lib) (ws_calls o op c)
                p.service).result
              e done)))
  Step-Inv {p} v (polls_old_http newer o older before op rest c others env e on there is done) =
      let old = subst (All (HttpReached lib host)) there v.old_http in
      let q = record p { old_http = newer ++ http_handled o before op rest c ∷ older } in
      let w : Inv lib host ws_host q = record {
        same_host = v.same_host;
        same_ws_host = v.same_ws_host;
        ws = v.ws;
        http = v.http;
        old_ws = v.old_ws;
        old_http =
            All-replace (HttpReached lib host) newer o (http_handled o before op rest c) older old (
              http_handled-HttpReached o before op rest c
                (All-at (HttpReached lib host) newer o older old) is);
      } in
      after_poll-Inv lib env (ends others (does q e)) (
        ends-Inv others (does q e) (
          does-Inv lib q e w (
            (all_called-Spoken lib (http_called lib) (http_called-Spoken lib) (http_calls o op c)
                p.service).result
              e done)))
  Step-Inv {p} v (passes others env) = after_poll-Inv lib env (ends others p) (ends-Inv others p v)
  Step-Inv {p} v (places beast_version now order) =
      does-Inv lib p (place_order lib beast_version now order p.service) v
        (place_order-Spoken lib beast_version now order p.service)
  Step-Inv {p} v (cancels beast_version now order) =
      does-Inv lib p (cancel_order lib beast_version now order p.service) v
        (cancel_order-Spoken lib beast_version now order p.service)
  Step-Inv {p} v (registers l) = record {
    same_host = v.same_host;
    same_ws_host = v.same_ws_host;
    ws = v.ws;
    http = v.http;
    old_ws = v.old_ws;
    old_http = v.old_http;
  }

-- `Connect` on a new service.
module _ (lib : Libraries) {L : Type 0} (config : List (String × String)) (env : Env) where
  abbrev configured : Trade L
  configured = read_config lib (record new_trade { config = config })

  begun-Inv : Inv lib configured.host configured.ws_host (begun lib {L = L} config env)
  unfolding connect open_ws open_http send_auth ws_send Ws.send Ws.check_send Ws.connect
      Ws.add_listener Ws.new_session new_trade read_config
  begun-Inv =
      let t : Trade L = configured in
      let http =
        Http.connect t.host env.named env.ssl_error (Http.add_listener this Http.new_session) in
      record {
        same_host = refl;
        same_ws_host = refl;
        ws = record {
          auth = auth_text lib env t;
          authenticates = (t.api_key, t.secret_key, _, _, refl);
          others = [];
          reached =
              subst
                (λ (ops : List Ws.Runtime.Op). Ws.Runtime.Reach this t.ws_host "/ws" (
                  Ws.Runtime.Speech.run_of (begun lib {L = L} config env).service.ws_session
                    (Ws.Runtime.resolving ∷ ops) (auth_text lib env t ∷ []) []))
                (sym (
                  ap ws_begins (append-nil (map http_action http.1))
                  ∙ ws_begins-http L lib.doubles.Double http.1))
                (Ws.Runtime.later Ws.Runtime.start (Ws.Runtime.submits (auth_text lib env t)));
        };
        http = record {
          sent = [];
          reached =
              subst
                (λ (ops : List Http.Runtime.Op).
                  Http.Runtime.Reach this t.host (Http.Runtime.Speech.run_of http.0 ops [] []))
                (sym (
                  ap http_begins (append-nil (map http_action http.1))
                  ∙ http_begins-http L lib.doubles.Double http.1))
                (Http.Runtime.start env.named env.ssl_error);
        };
        old_ws = tt;
        old_http = tt;
      }

module _ {lib : Libraries} {L : Type 0} where
  -- The hosts of the sessions are those that the service has.
  own_hosts :
      {host ws_host : String} {p : Program L}
      → Inv lib host ws_host p
      → Inv lib p.service.host p.service.ws_host p
  own_hosts {p = p} v = record {
    same_host = refl;
    same_ws_host = refl;
    ws = ws_there (sym v.same_ws_host) v.ws;
    http = http_there (sym v.same_host) v.http;
    old_ws = subst (λ (h : String). All (WsReached lib h) p.old_ws) (sym v.same_ws_host) v.old_ws;
    old_http =
        subst (λ (h : String). All (HttpReached lib h) p.old_http) (sym v.same_host) v.old_http;
  }

  Reach-Inv : {p : Program L} → Reach lib p → Inv lib p.service.host p.service.ws_host p
  Reach-Inv (start config env) = own_hosts (begun-Inv lib {L = L} config env)
  Reach-Inv (later r s) = own_hosts (Step-Inv lib (Reach-Inv r) s)

  -- In every state of the trade service at work, whichever operations of its sessions complete,
  -- those of replaced sessions too, and whatever orders are placed in between: the current
  -- websocket session and each one that was replaced is a state of a run of a session to the
  -- configured websocket host in which the first message given to `send` is an authentication with
  -- a signature over its key and expiry, and the current HTTP session and each one that was
  -- replaced is a state of a run of an HTTP session to the configured host.
  pub sessions_run :
      {p : Program L}
      → Reach lib p
      → WsReached lib p.service.ws_host (ws_line p)
        × HttpReached lib p.service.host (http_line p)
        × All (WsReached lib p.service.ws_host) p.old_ws
        × All (HttpReached lib p.service.host) p.old_http
  sessions_run r = let v = Reach-Inv r in (v.ws, v.http, v.old_ws, v.old_http)
