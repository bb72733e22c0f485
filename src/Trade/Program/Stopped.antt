-- ===== src/Trade/Program/Stopped.antt =====
-- The `io_context` of `TradeService`, which is never restarted once it has stopped.
use sample.Base.{
  ℕ, Bool, true, false, List, [], ◌∷◌, ◌++◌, is_empty, ◌&&◌, ◌||◌, ◌==◌, ◌≡◌, refl, sym, ap, ◌∙◌,
  arith, Bool-cases, inl, inr,
}
use sample.External.{Libraries}
use sample.Ws
use sample.Trade.{http_send}
use sample.Trade.Orders.{place_order, cancel_order}
use sample.Trade.Link.{Env, register_listener}
use sample.Trade.Program.{Program, WsLine, ws_idle, idle, ends, after_ws, after_http, after_poll}
use sample.Trade.Program.Quiet.{beat_state, after_http_rest, after_ws_old, after_poll-quiet}
use sample.Trade.Program.Steps.{
  Step, polls_ws, polls_http, polls_old_ws, polls_old_http, passes, places, cancels, registers,
  Reach, start, later, Steps, stays, goes_on,
}

off : (b : Bool) → b ≡ false → b ≡ true → ⊥
off b e e' = cc

-- A list of idle sessions has no outstanding operation.
ws_idle-at :
    (newer : List WsLine) (o : WsLine) (older : List WsLine)
    → ws_idle (newer ++ o ∷ older) ≡ true
    → is_empty o.outstanding ≡ true
ws_idle-at [] o older e = ground arith
ws_idle-at (n ∷ newer) o older e = ws_idle-at newer o older (ground arith)

filled :
    (before : List Ws.Runtime.Op) (op : Ws.Runtime.Op) (rest : List Ws.Runtime.Op)
    → is_empty (before ++ op ∷ rest) ≡ false
filled [] op rest = refl
filled (b ∷ before) op rest = refl

module _ (lib : Libraries) {L : Type 0} where
  -- In a stopped context no replaced session has an operation outstanding, and no reconnection is
  -- pending.
  abbrev Resting : Program L → Type 0
  Resting p =
      p.stopped ≡ true
      → (ws_idle p.old_ws ≡ true)
        × (p.service.need_reconnect ≡ false)
        × (p.service.http_need_reconnect ≡ false)

  ends-rests :
      (others : ℕ) (p : Program L)
      → Resting p
      → let q = ends others p in
        q.stopped ≡ true
        → (ws_idle q.old_ws ≡ true)
          × (q.service.need_reconnect ≡ true → is_empty q.ws_outstanding ≡ true)
  unfolding ends
  ends-rests others p h now = elim (Bool-cases p.stopped) [
    | inl was ↦
        let (old, none, _) = h was in (old, λ flag. absurd (off p.service.need_reconnect none flag))
    | inr was ↦
        let none : (others == 0) && idle p ≡ true = ground arith in
        (ground arith, λ flag. ground arith)
  ]

  after_poll-Resting :
      (env : Env) (others : ℕ) (p : Program L)
      → Resting p
      → Resting (after_poll lib env (ends others p))
  unfolding after_poll
  after_poll-Resting env others p h stopped =
      let a = ends others p in
      let q = after_poll-quiet lib env a in
      let (old, none) = ends-rests others p h (sym q.2 ∙ stopped) in
      (
        ap ws_idle (after_http_rest lib env (after_ws lib env a)).1
            ∙ (after_ws_old lib env a).1 old none,
        q.0,
        q.1,
      )

  Step-Resting : {p q : Program L} → Resting p → Step lib p q → Resting q
  unfolding register_listener place_order cancel_order http_send
  Step-Resting {p} h (polls_ws before op rest c others env e runs is done) =
      after_poll-Resting env others _ λ stopped. absurd (off p.stopped runs stopped)
  Step-Resting {p} h (polls_http before op rest c others env e runs is done) =
      after_poll-Resting env others _ λ stopped. absurd (off p.stopped runs stopped)
  Step-Resting {p} h (polls_old_ws newer o older before op rest c others env e runs there is done) =
      after_poll-Resting env others _ λ stopped. absurd (off p.stopped runs stopped)
  Step-Resting {p} h
        (polls_old_http newer o older before op rest c others env e runs there is done) =
      after_poll-Resting env others _ λ stopped. absurd (off p.stopped runs stopped)
  Step-Resting {p} h (passes others env) = after_poll-Resting env others p h
  Step-Resting {p} h (places beast_version now order) = h
  Step-Resting {p} h (cancels beast_version now order) = h
  Step-Resting {p} h (registers l) = h

  Reach-Resting : {p : Program L} → Reach lib p → Resting p
  Reach-Resting (start config env) = λ stopped. absurd (off false refl stopped)
  Reach-Resting (later h step) = Step-Resting (Reach-Resting h) step

  -- A context in which an operation of a replaced session is outstanding is not stopped.
  pub running :
      {p : Program L} (newer : List WsLine) (o : WsLine) (older : List WsLine)
      (before : List Ws.Runtime.Op) (op : Ws.Runtime.Op) (rest : List Ws.Runtime.Op)
      → Reach lib p
      → p.old_ws ≡ newer ++ o ∷ older
      → o.outstanding ≡ before ++ op ∷ rest
      → p.stopped ≡ false
  running {p} newer o older before op rest h there is = elim (Bool-cases p.stopped) [
    | inl stopped ↦
        let none =
          ws_idle-at newer o older (sym (ap ws_idle there) ∙ (Reach-Resting h stopped).0) in
        absurd (off (is_empty o.outstanding) (ap is_empty is ∙ filled before op rest) none)
    | inr runs ↦ runs
  ]

  abbrev Still : Program L → Program L → Type 0
  Still p q =
      (q.stopped ≡ true)
      × (q.ws_written ≡ p.ws_written)
      × (q.http_written ≡ p.http_written)
      × (q.service.ws_session.state ≡ p.service.ws_session.state)

  after_poll-Still :
      (env : Env) (others : ℕ) (p : Program L)
      → Resting p
      → p.stopped ≡ true
      → Still p (after_poll lib env (ends others p))
  unfolding after_poll after_ws after_http ends
  after_poll-Still env others p h stopped =
      let (_, quiet, http_quiet) = h stopped in
      let a = ends others p in
      let kept : after_http lib env (after_ws lib env a) ≡ a = rw (quiet, http_quiet) refl in
      (
        ap (λ (x : Program L). x.stopped) kept
            ∙ ap (λ (b : Bool). b || (others == 0) && idle p) stopped,
        ap (λ (x : Program L). x.ws_written) kept,
        ap (λ (x : Program L). x.http_written) kept,
        beat_state lib env (after_http lib env (after_ws lib env a)).service
            ∙ ap (λ (x : Program L). x.service.ws_session.state) kept,
      )

  Step-Still : {p q : Program L} → Resting p → p.stopped ≡ true → Step lib p q → Still p q
  unfolding register_listener place_order cancel_order http_send
  Step-Still {p} h stopped (polls_ws before op rest c others env e runs is done) =
      absurd (off p.stopped runs stopped)
  Step-Still {p} h stopped (polls_http before op rest c others env e runs is done) =
      absurd (off p.stopped runs stopped)
  Step-Still {p} h stopped
        (polls_old_ws newer o older before op rest c others env e runs there is done) =
      absurd (off p.stopped runs stopped)
  Step-Still {p} h stopped
        (polls_old_http newer o older before op rest c others env e runs there is done) =
      absurd (off p.stopped runs stopped)
  Step-Still {p} h stopped (passes others env) = after_poll-Still env others p h stopped
  Step-Still {p} h stopped (places beast_version now order) = (stopped, refl, refl, refl)
  Step-Still {p} h stopped (cancels beast_version now order) = (stopped, refl, refl, refl)
  Step-Still {p} h stopped (registers l) = (stopped, refl, refl, refl)

  Steps-Reach : {p q : Program L} → Reach lib p → Steps lib p q → Reach lib q
  Steps-Reach h stays = h
  Steps-Reach h (goes_on path step) = later (Steps-Reach h path) step

  -- In a state of the trade service at work in which the `io_context` is stopped, whatever calls
  -- of `RunOnce` and `RegisterListener` follow and whatever orders are placed: it stays stopped,
  -- no message and no request is written, and the state of the current websocket session does not
  -- change.
  pub stays_stopped :
      {p q : Program L}
      → Reach lib p
      → p.stopped ≡ true
      → Steps lib p q
      → (q.stopped ≡ true)
        × (q.ws_written ≡ p.ws_written)
        × (q.http_written ≡ p.http_written)
        × (q.service.ws_session.state ≡ p.service.ws_session.state)
  stays_stopped h stopped stays = (stopped, refl, refl, refl)
  stays_stopped h stopped (goes_on path step) =
      let (s, w, r, c) = stays_stopped h stopped path in
      let (s', w', r', c') = Step-Still (Reach-Resting (Steps-Reach h path)) s step in
      (s', w' ∙ w, r' ∙ r, c' ∙ c)
