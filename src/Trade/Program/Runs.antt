-- ===== src/Trade/Program/Runs.antt =====
-- The sessions of `TradeService` at work, the current and the replaced ones, as runs of sessions.
use mathlib.Core.Path.{subst}
use sample.Base.{
  ℕ, ◌<>◌, Bool, true, false, String, List, [], ◌∷◌, ◌++◌, map, ◌≡◌, refl, sym, ap, ◌∙◌, All,
  append-nil, if◌then◌else◌,
}
use sample.Base.Decimal.{to_string}
use sample.External.{Libraries}
use sample.Ws
use sample.Http
use sample.Trade.{Trade, this, Self, Effect, http_action, ws_send}
use sample.Trade.Hex.{hmac_sha256}
use sample.Trade.Link.{
  Env, reconnect, http_reconnect, open_ws, open_http, send_auth, auth_calls, beat,
}
use sample.Trade.Upkeep.{auth_text}
use sample.Trade.Program.{
  Program, WsLine, HttpLine, does, replaces_ws, replaces_http, ws_begins, http_begins, after_ws,
  after_http, after_poll,
}
use sample.Trade.Program.Steps.{ws_line, http_line}
use sample.Trade.Program.Speeches.{http_begins-http}
use sample.Trade.Program.Spoken.{Spoken}
use sample.Trade.Program.Effects.{beat-Spoken}

module _ (lib : Libraries) where
  -- A text of `sendAuth`, whatever the keys, the clock and the id.
  abbrev pub Authenticates : String → Type 0
  Authenticates text =
      (api_key secret_key : String) × (nonce id : ℕ) × (text
        ≡ lib.render (
            auth_calls lib api_key (hmac_sha256 lib secret_key (api_key <> to_string nonce)) nonce
              id))

  -- The line is in a state of a run of a websocket session to `host`, in which the first message
  -- that was given to `send` is an authentication.
  pub record WsReached (host : String) (o : WsLine) : Type 0 where
    pub auth : String
    pub authenticates : Authenticates auth
    pub others : List String
    pub reached :
        Ws.Runtime.Reach this host "/ws"
          (Ws.Runtime.Speech.run_of o.session o.outstanding (auth ∷ others) o.written)

  pub record HttpReached (host : String) (o : HttpLine) : Type 0 where
    pub sent : List Http.Request
    pub reached :
        Http.Runtime.Reach this host
          (Http.Runtime.Speech.run_of o.session o.outstanding sent o.written)

  pub record Inv {L : Type 0} (host ws_host : String) (p : Program L) : Type 0 where
    pub same_host : p.service.host ≡ host
    pub same_ws_host : p.service.ws_host ≡ ws_host
    pub ws : WsReached ws_host (ws_line p)
    pub http : HttpReached host (http_line p)
    pub old_ws : All (WsReached ws_host) p.old_ws
    pub old_http : All (HttpReached host) p.old_http

pub ws_there :
    {lib : Libraries} {h k : String} {o : WsLine} → h ≡ k → WsReached lib h o → WsReached lib k o
ws_there {lib} {o = o} e v = subst (λ (x : String). WsReached lib x o) e v

pub http_there :
    {lib : Libraries} {h k : String} {o : HttpLine}
    → h ≡ k
    → HttpReached lib h o
    → HttpReached lib k o
http_there {lib} {o = o} e v = subst (λ (x : String). HttpReached lib x o) e v

module _ (lib : Libraries) {L : Type 0} where
  -- The session that a reconnection begins.
  reconnect-WsReached :
      (env : Env) (t : Trade L)
      → let (u, out) = reconnect lib env t in
        WsReached lib t.ws_host
          (record { session = u.ws_session; outstanding = ws_begins out; written = [] })
  unfolding reconnect open_ws send_auth ws_send Ws.send Ws.check_send Ws.connect Ws.add_listener
      Ws.new_session
  reconnect-WsReached env t = record {
    auth = auth_text lib env t;
    authenticates = (t.api_key, t.secret_key, _, _, refl);
    others = [];
    reached = Ws.Runtime.later Ws.Runtime.start (Ws.Runtime.submits (auth_text lib env t));
  }

  reconnect_rest :
      (env : Env) (t : Trade L)
      → let u = (reconnect lib env t).0 in
        (u.http_session ≡ t.http_session) × (u.host ≡ t.host) × (u.ws_host ≡ t.ws_host)
  unfolding reconnect open_ws send_auth ws_send
  reconnect_rest env t = (refl, refl, refl)

  http_reconnect-HttpReached :
      (env : Env) (t : Trade L)
      → let (u, out) = http_reconnect {F = lib.doubles.Double} env t in
        HttpReached lib t.host
          (record { session = u.http_session; outstanding = http_begins out; written = [] })
  unfolding http_reconnect open_http
  http_reconnect-HttpReached env t =
      let begun =
        Http.connect t.host env.named env.ssl_error (Http.add_listener this Http.new_session) in
      record {
        sent = [];
        reached =
            subst
              (λ (ops : List Http.Runtime.Op).
                Http.Runtime.Reach this t.host (Http.Runtime.Speech.run_of begun.0 ops [] []))
              (sym (
                ap http_begins (append-nil (map http_action begun.1))
                ∙ http_begins-http L lib.doubles.Double begun.1))
              (Http.Runtime.start env.named env.ssl_error);
      }

  pub http_reconnect_rest :
      (env : Env) (t : Trade L)
      → let u = (http_reconnect {F = lib.doubles.Double} env t).0 in
        (u.ws_session ≡ t.ws_session) × (u.host ≡ t.host) × (u.ws_host ≡ t.ws_host)
  unfolding http_reconnect open_http
  http_reconnect_rest env t = (refl, refl, refl)

module _ (lib : Libraries) {L : Type 0} {host ws_host : String} where
  -- An effect that only sends.
  pub does-Inv :
      (p : Program L) (e : Effect L lib.doubles.Double)
      → Inv lib host ws_host p
      → Spoken p.service e
      → Inv lib host ws_host (does p e)
  does-Inv p e v (ms, rs, said) = record {
    same_host = said.settled.host ∙ v.same_host;
    same_ws_host = said.settled.ws_host ∙ v.same_ws_host;
    ws = record {
      auth = v.ws.auth;
      authenticates = v.ws.authenticates;
      others = v.ws.others ++ ms;
      reached =
          Ws.Runtime.Speech.Reach-Steps v.ws.reached
            (said.ws.steps p.ws_outstanding (v.ws.auth ∷ v.ws.others) p.ws_written);
    };
    http = record {
      sent = v.http.sent ++ rs;
      reached =
          said.http.goes this host p.http_outstanding v.http.sent p.http_written v.http.reached;
    };
    old_ws = v.old_ws;
    old_http = v.old_http;
  }

  after_ws-Inv :
      (env : Env) (p : Program L)
      → Inv lib host ws_host p
      → Inv lib host ws_host (after_ws lib env p)
  unfolding after_ws
  after_ws-Inv env p v = by_test p.service.need_reconnect
    where
      by_test :
          (b : Bool)
          → Inv lib host ws_host (if b then replaces_ws p (reconnect lib env p.service) else p)
      by_test true =
          let (http, h, w) = reconnect_rest lib env p.service in
          record {
            same_host = h ∙ v.same_host;
            same_ws_host = w ∙ v.same_ws_host;
            ws = ws_there v.same_ws_host (reconnect-WsReached lib env p.service);
            http =
                subst
                  (λ (x : Http.Session Self). HttpReached lib host (record {
                    session = x;
                    outstanding = p.http_outstanding;
                    written = p.http_written;
                  }))
                  (sym http) v.http;
            old_ws = (v.ws, v.old_ws);
            old_http = v.old_http;
          }
      by_test false = v

  after_http-Inv :
      (env : Env) (p : Program L)
      → Inv lib host ws_host p
      → Inv lib host ws_host (after_http lib env p)
  unfolding after_http
  after_http-Inv env p v = by_test p.service.http_need_reconnect
    where
      by_test :
          (b : Bool)
          → Inv lib host ws_host (
              if b
              then replaces_http p (http_reconnect {F = lib.doubles.Double} env p.service)
              else p)
      by_test true =
          let (ws, h, w) = http_reconnect_rest lib env p.service in
          record {
            same_host = h ∙ v.same_host;
            same_ws_host = w ∙ v.same_ws_host;
            ws =
                subst
                  (λ (x : Ws.Session Self). WsReached lib ws_host (record {
                    session = x;
                    outstanding = p.ws_outstanding;
                    written = p.ws_written;
                  }))
                  (sym ws) v.ws;
            http = http_there v.same_host (http_reconnect-HttpReached lib env p.service);
            old_ws = v.old_ws;
            old_http = (v.http, v.old_http);
          }
      by_test false = v

  pub after_poll-Inv :
      (env : Env) (p : Program L)
      → Inv lib host ws_host p
      → Inv lib host ws_host (after_poll lib env p)
  unfolding after_poll
  after_poll-Inv env p v =
      let q = after_http lib env (after_ws lib env p) in
      does-Inv q (beat lib env q.service)
        (after_http-Inv env (after_ws lib env p) (after_ws-Inv env p v))
        (beat-Spoken lib env q.service)
