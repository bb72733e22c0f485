-- ===== src/Trade/Program/Quiet.antt =====
-- What `RunOnce` of `TradeService` leaves behind its poll.
use sample.Base.{Bool, true, false, [], is_empty, ◌+◌, ◌≡◌, refl, ◌∙◌, if◌then◌else◌, ltb}
use sample.External.{Libraries}
use sample.Ws
use sample.Ws.Runtime.Calls.{state-send}
use sample.Trade.{Trade, ws_send, http_send}
use sample.Trade.Upkeep.{beat_lem}
use sample.Trade.Link.{Env, reconnect, http_reconnect, open_http, send_heartbeat, beat, beat_now}
use sample.Trade.Program.{
  Program, replaces_ws, replaces_http, ws_idle, after_ws, after_http, after_poll,
}
use sample.Trade.Program.Runs.{http_reconnect_rest}

module _ (lib : Libraries) {L : Type 0} where
  pub beat_state :
      (env : Env) (t : Trade L) → (beat lib env t).0.ws_session.state ≡ t.ws_session.state
  unfolding beat send_heartbeat ws_send Ws.send sample.Trade.http_send
  beat_state env t = by_test (ltb (t.last_heartbeat_time + 29000) env.now)
    where
      by_test :
          (b : Bool)
          → (if b then beat_now lib env t else (t, [])).0.ws_session.state ≡ t.ws_session.state
      by_test true = state-send _ t.ws_session
      by_test false = refl

  pub after_http_rest :
      (env : Env) (p : Program L)
      → let q = after_http lib env p in
        (q.service.ws_session ≡ p.service.ws_session) × (q.old_ws ≡ p.old_ws)
  unfolding after_http
  after_http_rest env p = by_test p.service.http_need_reconnect
    where
      by_test :
          (b : Bool)
          → let q : Program L =
              if b
              then replaces_http p (http_reconnect {F = lib.doubles.Double} env p.service)
              else p in
            (q.service.ws_session ≡ p.service.ws_session) × (q.old_ws ≡ p.old_ws)
      by_test true = ((http_reconnect_rest lib env p.service).0, refl)
      by_test false = (refl, refl)

  -- What is left behind the poll of `RunOnce`: no reconnection is pending.
  after_ws-quiet : (env : Env) (p : Program L) → (after_ws lib env p).service.need_reconnect ≡ false
  unfolding after_ws reconnect
  after_ws-quiet env p = by_test p.service.need_reconnect refl
    where
      by_test :
          (b : Bool)
          → p.service.need_reconnect ≡ b
          → (if b then replaces_ws p (reconnect lib env p.service) else p).service.need_reconnect
            ≡ false
      by_test true e = refl
      by_test false e = e

  after_http-quiet :
      (env : Env) (p : Program L)
      → let q = after_http lib env p in
        (q.service.need_reconnect ≡ p.service.need_reconnect)
        × (q.service.http_need_reconnect ≡ false)
        × (q.stopped ≡ p.stopped)
  unfolding after_http http_reconnect open_http
  after_http-quiet env p = by_test p.service.http_need_reconnect refl
    where
      by_test :
          (b : Bool)
          → p.service.http_need_reconnect ≡ b
          → let q : Program L =
              if b
              then replaces_http p (http_reconnect {F = lib.doubles.Double} env p.service)
              else p in
            (q.service.need_reconnect ≡ p.service.need_reconnect)
            × (q.service.http_need_reconnect ≡ false)
            × (q.stopped ≡ p.stopped)
      by_test true e = (refl, refl, refl)
      by_test false e = (refl, e, refl)

  pub after_ws_old :
      (env : Env) (p : Program L)
      → let q = after_ws lib env p in
        (q.stopped ≡ p.stopped)
        × (ws_idle p.old_ws ≡ true
            → (p.service.need_reconnect ≡ true → is_empty p.ws_outstanding ≡ true)
            → ws_idle q.old_ws ≡ true)
  unfolding after_ws
  after_ws_old env p = by_test p.service.need_reconnect refl
    where
      by_test :
          (b : Bool)
          → p.service.need_reconnect ≡ b
          → let q : Program L = if b then replaces_ws p (reconnect lib env p.service) else p in
            (q.stopped ≡ p.stopped)
            × (ws_idle p.old_ws ≡ true
                → (p.service.need_reconnect ≡ true → is_empty p.ws_outstanding ≡ true)
                → ws_idle q.old_ws ≡ true)
      by_test true e = (refl, λ old none. rw (none e, old) refl)
      by_test false e = (refl, λ old none. old)

  pub after_poll-quiet :
      (env : Env) (p : Program L)
      → let q = after_poll lib env p in
        (q.service.need_reconnect ≡ false)
        × (q.service.http_need_reconnect ≡ false)
        × (q.stopped ≡ p.stopped)
  unfolding after_poll
  after_poll-quiet env p =
      let a = after_ws lib env p in
      let q = after_http lib env a in
      let (c1, c2, _, _, _, _) = beat_lem lib env q.service in
      let (b1, b2, b3) = after_http-quiet env a in
      (c2 ∙ b1 ∙ after_ws-quiet env p, c1 ∙ b2, b3 ∙ (after_ws_old env p).0)
