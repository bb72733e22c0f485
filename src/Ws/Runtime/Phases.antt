-- ===== src/Ws/Runtime/Phases.antt =====
-- The steps to a connected session, of which one at most is outstanding.
use sample.Base.{
  ℕ, suc, ◌+◌, ◌≤◌, ◌<>◌, false, String, List, [], ◌∷◌, ◌++◌, ◌∷ʳ◌, map, ◌≡◌, refl, ap, ◌∙◌, arith,
  tail, ◌≢◌, if◌then◌else◌,
}
use sample.Asio.{failed, State, connected, handshaking, send_idle, is_connected}
use sample.Ws.{
  Session, Action, on_connect, on_message, check_send, send, on_resolve, on_connected,
  on_ssl_handshake, on_handshake, handle_read, handle_tx, connect, add_listener, new_session,
}
use sample.Ws.Runtime.{
  Op, resolving, connecting, ssl_shaking, ws_shaking, reading, writing, Result, all_started, handle,
  Run, Step, submits, completes, Reach, start, later,
}
use sample.Ws.Runtime.Handlers.{all_started-append, started-calls, errors, ssl_errors}
use sample.Ws.Runtime.Calls.{state-send, state-check_send, listeners-send, listeners-handle}

-- How many outstanding operations lead to a connection.
abbrev pub setups : List Op → ℕ
setups [] = 0
setups (resolving ∷ ops) = suc (setups ops)
setups (connecting ∷ ops) = suc (setups ops)
setups (ssl_shaking ∷ ops) = suc (setups ops)
setups (ws_shaking ∷ ops) = suc (setups ops)
setups (_ ∷ ops) = setups ops

abbrev pub arrived : State → ℕ
arrived handshaking = 0
arrived connected = 1

pub setups-append : (xs ys : List Op) → setups (xs ++ ys) ≡ setups xs + setups ys
setups-append [] ys = omega arith
setups-append (resolving ∷ xs) ys = omega (arith, setups-append xs ys)
setups-append (connecting ∷ xs) ys = omega (arith, setups-append xs ys)
setups-append (ssl_shaking ∷ xs) ys = omega (arith, setups-append xs ys)
setups-append (ws_shaking ∷ xs) ys = omega (arith, setups-append xs ys)
setups-append (reading ∷ xs) ys = setups-append xs ys
setups-append (writing m ∷ xs) ys = setups-append xs ys

-- What is left when an operation completes.
pub setups-split :
    (before : List Op) (op : Op) (rest : List Op)
    → setups (before ++ op ∷ rest) ≡ setups (op ∷ []) + setups (before ++ rest)
setups-split before op rest = omega (
  arith,
  setups-append before (op ∷ rest),
  setups-append before rest,
  setups-append (op ∷ []) rest,
)

module _ {L : Type 0} where
  pub setups-check_send : (s : Session L) → setups (all_started (check_send s).1) ≡ 0
  unfolding check_send
  setups-check_send s = check s.write_queue refl
    where
      check : (q : List String) → s.write_queue ≡ q → setups (all_started (check_send s).1) ≡ 0
      check [] e = ground arith
      check (m ∷ q) e = ground arith

  pub setups-send : (m : String) (s : Session L) → setups (all_started (send m s).1) ≡ 0
  unfolding send
  setups-send m s = setups-check_send (record s { write_queue = s.write_queue ∷ʳ m })

  -- A handler begins at most the next step, and only one that has ended a step comes nearer.
  setups-handle :
      (op : Op) (c : Result) (s : Session L)
      → let (t, actions) = handle op c s in
        setups (all_started actions) + arrived t.state ≤ setups (op ∷ []) + arrived s.state
  unfolding on_resolve on_connected on_ssl_handshake on_handshake handle_read handle_tx
  setups-handle resolving c s = ground (arith, errors c s)
  setups-handle connecting c s = ground (arith, errors c s, ssl_errors c s)
  setups-handle ssl_shaking c s = ground (arith, errors c s)
  setups-handle ws_shaking c s =
      let t : Session L = record s { state = connected } in
      ground (
        arith,
        errors c s,
        setups-check_send t,
        state-check_send t,
        all_started-append (check_send t).1 (map on_connect (check_send t).0.listeners),
        setups-append (all_started (check_send t).1)
            (all_started (map on_connect (check_send t).0.listeners)),
        started-calls (λ l. on_connect l) (λ l. refl) (check_send t).0.listeners,
      )
  setups-handle reading c s =
      let t : Session L = record s { rd_buffer = s.rd_buffer <> c.received } in
      ground (
        arith,
        errors c t,
        all_started-append (map (λ l. on_message l t.rd_buffer) s.listeners) (Action.read ∷ []),
        started-calls (λ l. on_message l t.rd_buffer) (λ l. refl) s.listeners,
      )
  setups-handle (writing m) c s =
      let t : Session L = record s {
        write_queue = tail s.write_queue;
        sending_state = send_idle;
      } in
      ground (arith, errors c s, setups-check_send t, state-check_send t)

  pub Step-setups :
      {r t : Run L} {n : ℕ}
      → Step r t
      → setups r.outstanding + arrived r.session.state ≤ n
      → setups t.outstanding + arrived t.session.state ≤ n
  Step-setups {r} (submits m) h = omega (
    arith,
    setups-append r.outstanding (all_started (send m r.session).1),
    setups-send m r.session,
    ap arrived (state-send m r.session),
  )
  Step-setups {r} (completes before op rest c e) h = omega (
    arith,
    setups-append (before ++ rest) (all_started (handle op c r.session).1),
    setups-handle op c r.session,
    setups-split before op rest,
    ap setups e,
  )

  -- In every state of a run at most one step to a connection is outstanding, and none behind it.
  pub Reach-setups :
      {l : L} {host path : String} {r : Run L}
      → Reach l host path r
      → setups r.outstanding + arrived r.session.state ≤ 1
  unfolding connect add_listener new_session
  Reach-setups start = omega arith
  Reach-setups (later h step) = Step-setups step (Reach-setups h)

  -- So the session is not connected before the handshake has completed.
  pub not_yet :
      {l : L} {host path : String} {r : Run L} (before rest : List Op)
      → Reach l host path r
      → r.outstanding ≡ before ++ ws_shaking ∷ rest
      → is_connected r.session.state ≡ false
  not_yet {r = r} before rest h e =
      shut r.session.state
        (omega (arith, Reach-setups h, setups-split before ws_shaking rest, ap setups e))
    where
      shut : (s : State) → arrived s ≤ 0 → is_connected s ≡ false
      shut handshaking k = refl
      shut connected k = absurd (omega arith)

  Step-listeners : {r t : Run L} → Step r t → t.session.listeners ≡ r.session.listeners
  Step-listeners {r} (submits m) = listeners-send m r.session
  Step-listeners {r} (completes before op rest c e) = listeners-handle op c r.session

  -- The session keeps its one listener.
  pub Reach-listeners :
      {l : L} {host path : String} {r : Run L} → Reach l host path r → r.session.listeners ≡ l ∷ []
  unfolding connect add_listener new_session
  Reach-listeners start = refl
  Reach-listeners (later h step) = Step-listeners step ∙ Reach-listeners h

  -- Only the handshake changes the state of a session.
  pub state-handle :
      (op : Op) (c : Result) (s : Session L) → op ≢ ws_shaking → (handle op c s).0.state ≡ s.state
  unfolding on_resolve on_connected on_ssl_handshake handle_read handle_tx
  state-handle resolving c s d = ground arith
  state-handle connecting c s d = ground arith
  state-handle ssl_shaking c s d = ground arith
  state-handle ws_shaking c s d = absurd (d refl)
  state-handle reading c s d = ground arith
  state-handle (writing m) c s d = ground (
    arith,
    state-check_send (record s { write_queue = tail s.write_queue; sending_state = send_idle }),
  )

  pub state-on_handshake :
      (c : Result) (s : Session L)
      → (handle ws_shaking c s).0.state ≡ (if failed c.code then s.state else connected)
  unfolding on_handshake
  state-on_handshake c s = ground (arith, state-check_send (record s { state = connected }))
