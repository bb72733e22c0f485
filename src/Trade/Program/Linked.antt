-- ===== src/Trade/Program/Linked.antt =====
-- `TradeService` at work is on its way to a connection, or connected and reading.
use mathlib.Core.Path.{subst}
use sample.Base.{
  ℕ, suc, ◌+◌, Bool, true, false, String, List, [], ◌∷◌, ◌++◌, some, some-inj, ◌≡◌, refl, sym, ap,
  ◌∙◌, arith, append-nil, map, if◌then◌else◌, Bool-cases, inl, inr,
}
use sample.External.{Libraries}
use sample.Ws
use sample.Http
use sample.Ws.Runtime.Calls.{Call, fails, calls-handle}
use sample.Ws.Runtime.Phases.{setups, arrived, setups-append, Reach-listeners}
use sample.Ws.Runtime.Alive.{Busy, Busy-handle, reads, reads-append, good, news-bad}
use sample.Exchange.{new_trade}
use sample.Asio.{ErrorCode}
use sample.Trade.Program.Speeches.{ws_begins-http}
use sample.Trade.{http_action, Trade, this, Effect, ws_send}
use sample.Trade.Orders.{place_order, cancel_order}
use sample.Trade.Link.{
  Env, register_listener, reconnect, http_reconnect, open_ws, open_http, read_config, send_auth,
  connect, beat, on_error,
}
use sample.Trade.Program.{
  ends, Program, does, replaces_ws, replaces_http, ws_begins, ws_called, http_called, all_called,
  after_ws, after_http, after_poll,
}
use sample.Trade.Program.Steps.{
  Step, polls_ws, polls_http, polls_old_ws, polls_old_http, passes, places, cancels, registers,
  Reach, start, later, ws_line, with_ws, with_http, ws_handled, http_line, http_handled, ws_calls,
  http_calls, begun,
}
use sample.Trade.Program.Spoken.{Spoken}
use sample.Trade.Program.Effects.{
  beat-Spoken, place_order-Spoken, cancel_order-Spoken, ws_called-Spoken, http_called-Spoken,
  all_called-Spoken,
}
use sample.Trade.Program.Runs.{http_reconnect_rest}
use sample.Trade.Program.Invariant.{sessions_run}

module _ {L : Type 0} where
  abbrev Linked : Program L → Type 0
  Linked p = Busy p.service.ws_session p.ws_outstanding

module _ (lib : Libraries) {L : Type 0} where
  does-Linked :
      (p : Program L) (e : Effect L lib.doubles.Double)
      → Spoken p.service e
      → Linked p
      → Linked (does p e)
  does-Linked p e (ms, rs, said) (one, reading) =
      let state = ap arrived said.ws.state in
      (
        omega
            (arith, one, state, setups-append p.ws_outstanding (ws_begins e.1), said.ws.no_setups),
        omega (
          arith,
          reading,
          state,
          reads-append p.ws_outstanding (ws_begins e.1),
          said.ws.no_reads,
        ),
      )

  after_ws-Linked :
      (env : Env) (p : Program L)
      → (p.service.need_reconnect ≡ false → Linked p)
      → Linked (after_ws lib env p)
  unfolding after_ws reconnect open_ws send_auth ws_send Ws.send Ws.check_send Ws.connect
      Ws.add_listener Ws.new_session
  after_ws-Linked env p h = by_test p.service.need_reconnect h
    where
      by_test :
          (b : Bool)
          → (b ≡ false → Linked p)
          → Linked (if b then replaces_ws p (reconnect lib env p.service) else p)
      by_test true h = (refl, refl)
      by_test false h = h refl

  after_http-Linked : (env : Env) (p : Program L) → Linked p → Linked (after_http lib env p)
  unfolding after_http
  after_http-Linked env p v = by_test p.service.http_need_reconnect
    where
      by_test :
          (b : Bool)
          → Linked (
              if b
              then replaces_http p (http_reconnect {F = lib.doubles.Double} env p.service)
              else p)
      by_test true =
          subst (λ (s : Ws.Session _). Busy s p.ws_outstanding)
            (sym (http_reconnect_rest lib env p.service).0) v
      by_test false = v

  after_poll-Linked :
      (env : Env) (p : Program L)
      → (p.service.need_reconnect ≡ false → Linked p)
      → Linked (after_poll lib env p)
  unfolding after_poll
  after_poll-Linked env p h =
      let q = after_http lib env (after_ws lib env p) in
      does-Linked q (beat lib env q.service) (beat-Spoken lib env q.service)
        (after_http-Linked env (after_ws lib env p) (after_ws-Linked env p h))

  -- After the call of an error a reconnection is pending.
  flagged :
      (ec : ErrorCode) (t : Trade L) (e : Effect L lib.doubles.Double)
      → all_called lib (ws_called lib) (fails ec ∷ []) t ≡ some e
      → e.0.need_reconnect ≡ true
  unfolding all_called ws_called on_error
  flagged ec t e done =
      sym (ap (λ (x : Effect L lib.doubles.Double). x.0.need_reconnect) (some-inj done))

  -- A poll of the current session.
  polls_ws-Linked :
      (p : Program L) (before : List Ws.Runtime.Op) (op : Ws.Runtime.Op) (rest : List Ws.Runtime.Op)
      (c : Ws.Runtime.Result) (others : ℕ) (env : Env) (e : Effect L lib.doubles.Double)
      → Reach lib p
      → Linked p
      → p.ws_outstanding ≡ before ++ op ∷ rest
      → all_called lib
          (ws_called lib)
          (ws_calls (ws_line p) op c)
          (with_ws (ws_handled (ws_line p) before op rest c) p).service
        ≡ some e
      → Linked (
          after_poll lib env
            (ends others (does (with_ws (ws_handled (ws_line p) before op rest c) p) e)))
  unfolding ends
  polls_ws-Linked p before op rest c others env e h v is done =
      let s = p.service.ws_session in
      let q = with_ws (ws_handled (ws_line p) before op rest c) p in
      let said = calls-handle op c s this (Reach-listeners (sessions_run h).0.reached) in
      after_poll-Linked env (ends others (does q e)) λ quiet. elim (Bool-cases (good op c)) [
        | inl ok ↦
            does-Linked q e
              ((all_called-Spoken lib (ws_called lib) (ws_called-Spoken lib)
                  (ws_calls (ws_line p) op c) q.service).result
                e done)
              (Busy-handle before op rest p.ws_outstanding c s is ok v)
        | inr bad ↦
            let (ec, news) = news-bad op c s.rd_buffer bad in
            let flag = flagged ec q.service e (
              subst (λ (calls : List Call). all_called lib (ws_called lib) calls q.service ≡ some e)
                (said ∙ news) done) in
            cc
      ]

  Step-Linked : {p q : Program L} → Reach lib p → Linked p → Step lib p q → Linked q
  unfolding register_listener ends
  Step-Linked {p} h v (polls_ws before op rest c others env e on is done) =
      polls_ws-Linked p before op rest c others env e h v is done
  Step-Linked {p} h v (polls_http before op rest c others env e on is done) =
      let q = with_http (http_handled (http_line p) before op rest c) p in
      after_poll-Linked env (ends others (does q e)) λ _.
        does-Linked q e
          ((all_called-Spoken lib (http_called lib) (http_called-Spoken lib)
              (http_calls (http_line p) op c) q.service).result
            e done)
          v
  Step-Linked {p} h v (polls_old_ws newer o older before op rest c others env e on there is done) =
      let q = record p { old_ws = newer ++ ws_handled o before op rest c ∷ older } in
      after_poll-Linked env (ends others (does q e)) λ _.
        does-Linked q e
          ((all_called-Spoken lib (ws_called lib) (ws_called-Spoken lib) (ws_calls o op c)
              p.service).result
            e done)
          v
  Step-Linked {p} h v
        (polls_old_http newer o older before op rest c others env e on there is done) =
      let q = record p { old_http = newer ++ http_handled o before op rest c ∷ older } in
      after_poll-Linked env (ends others (does q e)) λ _.
        does-Linked q e
          ((all_called-Spoken lib (http_called lib) (http_called-Spoken lib) (http_calls o op c)
              p.service).result
            e done)
          v
  Step-Linked {p} h v (passes others env) = after_poll-Linked env (ends others p) λ _. v
  Step-Linked {p} h v (places beast_version now order) =
      does-Linked p (place_order lib beast_version now order p.service)
        (place_order-Spoken lib beast_version now order p.service) v
  Step-Linked {p} h v (cancels beast_version now order) =
      does-Linked p (cancel_order lib beast_version now order p.service)
        (cancel_order-Spoken lib beast_version now order p.service) v
  Step-Linked {p} h v (registers l) = v

module _ (lib : Libraries) (L : Type 0) where
  -- `Connect` on a new service.
  begun-Linked :
      (config : List (String × String)) (env : Env) → Linked (begun lib {L = L} config env)
  unfolding connect open_ws open_http send_auth ws_send Ws.send Ws.check_send Ws.connect
      Ws.add_listener Ws.new_session new_trade read_config
  begun-Linked config env =
      let t : Trade L = read_config lib (record new_trade { config = config }) in
      let http =
        Http.connect t.host env.named env.ssl_error (Http.add_listener this Http.new_session) in
      let none =
        ap ws_begins (append-nil (map http_action http.1))
        ∙ ws_begins-http L lib.doubles.Double http.1 in
      (ap (λ (ops : List Ws.Runtime.Op). suc (setups ops) + 0) none, ap reads none)

module _ (lib : Libraries) {L : Type 0} where
  Reach-Linked : {p : Program L} → Reach lib p → Linked p
  Reach-Linked (start config env) = begun-Linked lib L config env
  Reach-Linked (later h step) = Step-Linked lib h (Reach-Linked h) step

  -- In every state of the trade service at work, whichever operations have failed: either exactly
  -- one operation towards a connection of the current websocket session is outstanding and no
  -- read, or the session is connected, no such operation is outstanding and exactly one read is.
  pub keeps_linked :
      {p : Program L}
      → Reach lib p
      → let s = p.service.ws_session in
        (setups p.ws_outstanding + arrived s.state ≡ 1) × (reads p.ws_outstanding ≡ arrived s.state)
  keeps_linked = Reach-Linked
