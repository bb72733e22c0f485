-- ===== src/Ws/Runtime/Lost.antt =====
-- A session in which a step to the connection has failed.
use sample.Base.{ℕ, ◌+◌, ◌≤◌, ◌<>◌, false, List, [], ◌∷◌, ◌++◌, ◌≡◌, refl, ap, arith, String}
use sample.Asio.{State, connected, handshaking, is_connected}
use sample.Ws.{
  Session, on_resolve, on_connected, on_ssl_handshake, on_handshake, handle_read, handle_tx,
}
use sample.Ws.Runtime.{
  Op, resolving, connecting, ssl_shaking, ws_shaking, reading, writing, Result, all_started, handle,
  Run, Steps, stays, goes_on, complete, Reach,
}
use sample.Ws.Runtime.Handlers.{errors, ssl_errors}
use sample.Ws.Runtime.Phases.{
  setups, arrived, setups-append, setups-split, Step-setups, Reach-setups,
}
use sample.Ws.Runtime.Alive.{good}

module _ {L : Type 0} where
  -- A handler that tells of an error begins nothing.
  handle-bad :
      (op : Op) (c : Result) (s : Session L)
      → good op c ≡ false
      → let (t, actions) = handle op c s in (all_started actions ≡ []) × (t.state ≡ s.state)
  unfolding on_resolve on_connected on_ssl_handshake on_handshake handle_read handle_tx
  handle-bad resolving c s bad = ground (arith, errors c s)
  handle-bad connecting c s bad = ground (arith, errors c s, ssl_errors c s)
  handle-bad ssl_shaking c s bad = ground (arith, errors c s)
  handle-bad ws_shaking c s bad = ground (arith, errors c s)
  handle-bad reading c s bad =
      ground (arith, errors c (record s { rd_buffer = s.rd_buffer <> c.received }))
  handle-bad (writing m) c s bad = ground (arith, errors c s)

  Steps-setups :
      {r t : Run L} {n : ℕ}
      → Steps r t
      → setups r.outstanding + arrived r.session.state ≤ n
      → setups t.outstanding + arrived t.session.state ≤ n
  Steps-setups stays le = le
  Steps-setups (goes_on path step) le = Step-setups step (Steps-setups path le)

  -- After a step to the connection has failed, a run gets to no connection.
  pub lost :
      {l : L} {host path : String} {r t : Run L} (before : List Op) (op : Op) (rest : List Op)
      (c : Result)
      → Reach l host path r
      → r.outstanding ≡ before ++ op ∷ rest
      → setups (op ∷ []) ≡ 1
      → good op c ≡ false
      → Steps (complete r before op rest c) t
      → is_connected t.session.state ≡ false
  lost {r = r} {t} before op rest c h is one bad path =
      let (none, same) = handle-bad op c r.session bad in
      let start : setups (complete r before op rest c).outstanding
            + arrived (complete r before op rest c).session.state
          ≤ 0 =
        omega (
          arith,
          Reach-setups h,
          ap setups is,
          setups-split before op rest,
          one,
          setups-append (before ++ rest) (all_started (handle op c r.session).1),
          ap setups none,
          ap arrived same,
        ) in
      shut t.session.state (omega (arith, Steps-setups path start))
    where
      shut : (s : State) → arrived s ≤ 0 → is_connected s ≡ false
      shut handshaking k = refl
      shut connected k = absurd (omega (arith, k))
