-- ===== src/Trade/Program/Replaced.antt =====
-- A session that `TradeService` has replaced, and what an error of it brings about.
use mathlib.Core.Path.{subst}
use sample.Base.{
  All-at, true, false, String, List, [], ◌∷◌, ◌++◌, ◌≡◌, refl, ap, ◌∙◌, All, append-nil,
}
use sample.External.{Libraries}
use sample.Asio.{failed, is_connected}
use sample.Ws
use sample.Ws.Runtime.Calls.{news, calls-handle}
use sample.Ws.Runtime.Phases.{Reach-listeners}
use sample.Trade.{Trade, this, Self, Effect, ws_send}
use sample.Trade.Link.{Env, reconnect, open_ws, send_auth, on_error}
use sample.Trade.Program.{
  ends, Program, WsLine, does, replaces_ws, ws_called, all_called, after_ws, after_http, after_poll,
}
use sample.Trade.Program.Steps.{Step, polls_old_ws, Reach, ws_line, ws_handled}
use sample.Trade.Program.Runs.{WsReached}
use sample.Trade.Program.Invariant.{sessions_run}
use sample.Trade.Program.Quiet.{beat_state, after_http_rest}
use sample.Trade.Program.Stopped.{running}

-- A failed operation is told as an error, and nothing else is.
news-failed :
    (op : Ws.Runtime.Op) (c : Ws.Runtime.Result) (text : String)
    → failed c.code ≡ true
    → news op c text ≡ Ws.Runtime.Calls.fails c.code ∷ []
news-failed Ws.Runtime.resolving c text e = rw e refl
news-failed Ws.Runtime.connecting c text e = rw e refl
news-failed Ws.Runtime.ssl_shaking c text e = rw e refl
news-failed Ws.Runtime.ws_shaking c text e = rw e refl
news-failed Ws.Runtime.reading c text e = rw e refl
news-failed (Ws.Runtime.writing m) c text e = rw e refl

module _ (lib : Libraries) {L : Type 0} where
  -- A session that has just begun is not connected.
  reconnect_state :
      (env : Env) (t : Trade L) → is_connected (reconnect lib env t).0.ws_session.state ≡ false
  unfolding reconnect open_ws send_auth ws_send Ws.send Ws.check_send Ws.connect Ws.add_listener
      Ws.new_session
  reconnect_state env t = refl

  replaced :
      (env : Env) (p : Program L)
      → p.service.need_reconnect ≡ true
      → let q = after_poll lib env p in
        (q.old_ws ≡ ws_line p ∷ p.old_ws) × (is_connected q.service.ws_session.state ≡ false)
  unfolding after_poll after_ws
  replaced env p e =
      let q = after_ws lib env p in
      let (session, old) = after_http_rest lib env q in
      let made : q ≡ replaces_ws p (reconnect lib env p.service) = rw e refl in
      (
        old ∙ ap (λ (x : Program L). x.old_ws) made,
        ap is_connected (beat_state lib env (after_http lib env q).service)
            ∙ ap (λ (x : Ws.Session Self). is_connected x.state) session
            ∙ ap (λ (x : Program L). is_connected x.service.ws_session.state) made
            ∙ reconnect_state env p.service,
      )

  -- In a state of the trade service at work, let an operation of a websocket session that was
  -- replaced fail: there is a step, `RunOnce` in any surroundings, after which the session that
  -- was current, in whatever state it is, is among the replaced ones with its outstanding
  -- operations, and the new one is not connected.
  pub late_error :
      {p : Program L} (newer : List WsLine) (o : WsLine) (older : List WsLine)
      (before : List Ws.Runtime.Op) (op : Ws.Runtime.Op) (rest : List Ws.Runtime.Op)
      (c : Ws.Runtime.Result) (env : Env)
      → Reach lib p
      → p.old_ws ≡ newer ++ o ∷ older
      → o.outstanding ≡ before ++ op ∷ rest
      → failed c.code ≡ true
      → (q : Program L) × Step lib p q
        × (q.old_ws ≡ ws_line p ∷ newer ++ ws_handled o before op rest c ∷ older)
        × (is_connected q.service.ws_session.state ≡ false)
  unfolding all_called ws_called on_error ends
  late_error {p} newer o older before op rest c env h there is bad =
      let t = p.service in
      let v = subst (All (WsReached lib t.ws_host)) there (sessions_run h).2 in
      let said =
        calls-handle op c o.session this
          (Reach-listeners (All-at (WsReached lib t.ws_host) newer o older v).reached)
        ∙ news-failed op c o.session.rd_buffer bad in
      let e : Effect L lib.doubles.Double = (on_error c.code t, []) in
      let p' = record p { old_ws = newer ++ ws_handled o before op rest c ∷ older } in
      let (old, state) = replaced env (ends 0 (does p' e)) refl in
      (
        _,
        polls_old_ws newer o older before op rest c 0 env e
            (running lib newer o older before op rest h there is) there is
            (ap (λ (calls : List Ws.Runtime.Calls.Call). all_called lib (ws_called lib) calls t)
              said),
        old
            ∙ ap (λ (ops : List Ws.Runtime.Op). with_ops ops ∷ p'.old_ws)
                (append-nil p.ws_outstanding),
        state,
      )
    where
      with_ops : List Ws.Runtime.Op → WsLine
      with_ops ops = record {
        session = p.service.ws_session;
        outstanding = ops;
        written = p.ws_written;
      }
