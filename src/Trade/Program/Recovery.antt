-- ===== src/Trade/Program/Recovery.antt =====
-- How `TradeService` at work gets to a connection.
use sample.Base.{
  true, false, is_empty, String, List, [], ◌∷◌, ◌++◌, some, ◌≡◌, refl, ap, ◌∙◌, arith, append-nil,
}
use sample.External.{Libraries}
use sample.Asio.{State, handshaking, connected, is_connected}
use sample.Ws
use sample.Ws.Runtime.{
  Op, resolving, connecting, ssl_shaking, ws_shaking, reading, writing, all_started, handle,
}
use sample.Ws.Runtime.Calls.{Call, news, calls-handle}
use sample.Ws.Runtime.Phases.{setups, arrived, Reach-listeners, state-on_handshake}
use sample.Trade.{Self, Trade, this, Effect}
use sample.Trade.Link.{on_connect}
use sample.Trade.Program.{Program, does, ends, ws_called, all_called, after_poll}
use sample.Trade.Program.Steps.{
  Step, Steps, stays, goes_on, polls_ws, passes, Reach, later, ws_line, with_ws, ws_handled,
}
use sample.Trade.Program.Invariant.{sessions_run}
use sample.Trade.Program.Linked.{keeps_linked}
use sample.Trade.Program.Calm.{fine, calm, after_poll-same}
use sample.Trade.Program.Quiet.{after_poll-quiet}
use sample.Ws.Runtime.Alive.{find_setup, Busy, Busy-handle, good}

busy : (s : Ws.Session Self) (ops : List Op) → Busy s ops → is_empty ops ≡ false
busy s [] (one, listens) = absurd (omega (arith, one, listens))
busy s (op ∷ ops) v = refl

module _ (lib : Libraries) {L : Type 0} where
  -- A context with an operation of the current websocket session goes on running.
  goes_on_running :
      (p : Program L)
      → p.stopped ≡ false
      → is_empty p.ws_outstanding ≡ false
      → (ends 0 p).stopped ≡ false
  unfolding ends
  goes_on_running p runs filled = rw (runs, filled) refl

  -- The next operation towards a connection succeeds.
  advance :
      (p : Program L) (before : List Op) (op : Op) (rest : List Op)
      → Reach lib p
      → p.service.need_reconnect ≡ false
      → p.stopped ≡ false
      → good op fine ≡ true
      → p.ws_outstanding ≡ before ++ op ∷ rest
      → ((t : Trade L)
          → all_called lib (ws_called lib) (news op fine p.service.ws_session.rd_buffer) t
            ≡ some (t, []))
      → let o = ws_handled (ws_line p) before op rest fine in
        (q : Program L) × Step lib p q
        × (q.service.need_reconnect ≡ false)
        × (q.stopped ≡ false)
        × (q.service.ws_session ≡ o.session)
        × (q.ws_outstanding ≡ o.outstanding)
  unfolding ends
  advance p before op rest h quiet runs ok is calmly =
      let o = ws_handled (ws_line p) before op rest fine in
      let t = (with_ws o p).service in
      let e : Effect L lib.doubles.Double = (t, []) in
      let q = does (with_ws o p) e in
      let said =
        calls-handle op fine p.service.ws_session this
          (Reach-listeners (sessions_run h).0.reached) in
      let (session, ops) = after_poll-same lib (ends 0 q) quiet in
      let (still, _, same) = after_poll-quiet lib calm (ends 0 q) in
      let linked =
        Busy-handle before op rest p.ws_outstanding fine p.service.ws_session is ok
          (keeps_linked lib h) in
      (
        after_poll lib calm (ends 0 q),
        polls_ws before op rest fine 0 calm e runs is
            (ap (λ (cs : List Call). all_called lib (ws_called lib) cs t) said ∙ calmly t),
        still,
        same
            ∙ goes_on_running q runs
                (ap is_empty (append-nil o.outstanding) ∙ busy o.session o.outstanding linked),
        session,
        ops ∙ append-nil o.outstanding,
      )

  first : {p q r : Program L} → Step lib p q → Steps lib q r → Steps lib p r
  first step stays = goes_on stays step
  first step (goes_on path last) = goes_on (first step path) last

  abbrev Connects : Program L → Type 0
  Connects p = (q : Program L) × Steps lib p q × (is_connected q.service.ws_session.state ≡ true)

module _ (lib : Libraries) (L : Type 0) where
  -- From any state in which the operation is the next one.
  abbrev Onward : Op → Type 0
  Onward op =
      (p : Program L) (before rest : List Op)
      → Reach lib p
      → p.service.need_reconnect ≡ false
      → p.stopped ≡ false
      → p.ws_outstanding ≡ before ++ op ∷ rest
      → Connects lib p

  from_shaking : Onward ws_shaking
  unfolding all_called ws_called on_connect
  from_shaking p before rest h quiet runs is =
      let (q, step, _, _, session, _) =
        advance lib p before ws_shaking rest h quiet runs refl is (λ t. refl) in
      (
        q,
        goes_on stays step,
        ap (λ (s : Ws.Session Self). is_connected s.state) session
            ∙ ap is_connected (state-on_handshake fine p.service.ws_session),
      )

  -- An operation whose handler begins the next one.
  onward :
      (op next : Op)
      → ((s : Ws.Session Self) → all_started (handle op fine s).1 ≡ next ∷ [])
      → ((text : String) → news op fine text ≡ [])
      → good op fine ≡ true
      → Onward next
      → Onward op
  unfolding all_called
  onward op next begins none ok further p before rest h quiet runs is =
      let (q, step, quiet', runs', _, ops) =
        advance lib p before op rest h quiet runs ok is
          (λ t. rw (none p.service.ws_session.rd_buffer) refl) in
      let (r, path, there) =
        further q (before ++ rest) [] (later h step) quiet' runs'
          (ops ∙ ap (λ (xs : List Op). (before ++ rest) ++ xs) (begins p.service.ws_session)) in
      (r, first lib step path, there)

  from_ssl : Onward ssl_shaking
  unfolding Ws.on_ssl_handshake
  from_ssl = onward ssl_shaking ws_shaking (λ s. refl) (λ text. refl) refl from_shaking

  from_connecting : Onward connecting
  unfolding Ws.on_connected
  from_connecting = onward connecting ssl_shaking (λ s. refl) (λ text. refl) refl from_ssl

  from_resolving : Onward resolving
  unfolding Ws.on_resolve
  from_resolving = onward resolving connecting (λ s. refl) (λ text. refl) refl from_connecting

  from_quiet :
      (p : Program L)
      → Reach lib p
      → p.service.need_reconnect ≡ false
      → p.stopped ≡ false
      → Connects lib p
  from_quiet p h quiet runs = by_state p.service.ws_session.state refl
    where
      by_op :
          (before : List Op) (op : Op) (rest : List Op)
          → p.ws_outstanding ≡ before ++ op ∷ rest
          → setups (op ∷ []) ≡ 1
          → Connects lib p
      by_op before resolving rest is one = from_resolving p before rest h quiet runs is
      by_op before connecting rest is one = from_connecting p before rest h quiet runs is
      by_op before ssl_shaking rest is one = from_ssl p before rest h quiet runs is
      by_op before ws_shaking rest is one = from_shaking p before rest h quiet runs is
      by_op before reading rest is one = absurd (omega (arith, one))
      by_op before (writing m) rest is one = absurd (omega (arith, one))

      by_state : (st : State) → p.service.ws_session.state ≡ st → Connects lib p
      by_state connected e = (p, stays, ap is_connected e)
      by_state handshaking e =
          let (before, op, rest, is, one) =
            find_setup p.ws_outstanding (omega (arith, (keeps_linked lib h).0, ap arrived e)) in
          by_op before op rest is one

module _ (lib : Libraries) {L : Type 0} where
  -- From every state of the trade service at work in which the `io_context` is not stopped,
  -- whichever operations have failed and whatever has been replaced, there are steps, which call
  -- `RunOnce` and let operations of the current websocket session succeed, to a state in which
  -- that session is connected.
  pub connects_again :
      {p : Program L}
      → Reach lib p
      → p.stopped ≡ false
      → (q : Program L) × Steps lib p q × (is_connected q.service.ws_session.state ≡ true)
  connects_again {p} h runs =
      let step = passes 0 calm in
      let (quiet, _, same) = after_poll-quiet lib calm (ends 0 p) in
      let (q, path, there) =
        from_quiet lib L (after_poll lib calm (ends 0 p)) (later h step) quiet (
          same
          ∙ goes_on_running lib p runs
              (busy p.service.ws_session p.ws_outstanding (keeps_linked lib h))) in
      (q, first lib step path, there)
