-- ===== src/Ws/Runtime/Alive.antt =====
-- When a handler leaves a session on its way to a connection, or connected and reading.
use sample.Base.{
  ◌∙◌, ap, ℕ, suc, ◌+◌, ◌≤◌, ◌<>◌, ◌&&◌, Bool, true, false, not, String, List, [], ◌∷◌, ◌++◌, ◌∷ʳ◌,
  map, ◌≡◌, refl, arith, tail, Bool-cases, inl, inr,
}
use sample.Asio.{ErrorCode, failed, connected, send_idle}
use sample.Ws.{
  Session, Action, on_connect, on_message, check_send, send, on_resolve, on_connected,
  on_ssl_handshake, on_handshake, handle_read, handle_tx,
}
use sample.Ws.Runtime.{
  Op, resolving, connecting, ssl_shaking, ws_shaking, reading, writing, Result, all_started, handle,
}
use sample.Ws.Runtime.Handlers.{all_started-append, started-calls}
use sample.Ws.Runtime.Calls.{fails, news, state-check_send}
use sample.Ws.Runtime.Phases.{setups-split, setups, arrived, setups-append, setups-check_send}

-- How many reads are outstanding.
abbrev pub reads : List Op → ℕ
reads [] = 0
reads (reading ∷ ops) = suc (reads ops)
reads (_ ∷ ops) = reads ops

pub reads-append : (xs ys : List Op) → reads (xs ++ ys) ≡ reads xs + reads ys
reads-append [] ys = omega arith
reads-append (reading ∷ xs) ys = omega (arith, reads-append xs ys)
reads-append (resolving ∷ xs) ys = reads-append xs ys
reads-append (connecting ∷ xs) ys = reads-append xs ys
reads-append (ssl_shaking ∷ xs) ys = reads-append xs ys
reads-append (ws_shaking ∷ xs) ys = reads-append xs ys
reads-append (writing m ∷ xs) ys = reads-append xs ys

pub reads-split :
    (before : List Op) (op : Op) (rest : List Op)
    → reads (before ++ op ∷ rest) ≡ reads (op ∷ []) + reads (before ++ rest)
reads-split before op rest =
    omega (
      arith,
      reads-append before (op ∷ rest),
      reads-append before rest,
      reads-append (op ∷ []) rest,
    )

-- An operation towards a connection, and what stands before and behind it.
pub find_setup :
    (ops : List Op)
    → setups ops ≡ 1
    → (before : List Op) × (op : Op) × (rest : List Op) × (ops ≡ before ++ op ∷ rest)
      × (setups (op ∷ []) ≡ 1)
find_setup [] e = absurd (omega (arith, e))
find_setup (resolving ∷ ops) e = ([], resolving, ops, refl, refl)
find_setup (connecting ∷ ops) e = ([], connecting, ops, refl, refl)
find_setup (ssl_shaking ∷ ops) e = ([], ssl_shaking, ops, refl, refl)
find_setup (ws_shaking ∷ ops) e = ([], ws_shaking, ops, refl, refl)
find_setup (reading ∷ ops) e =
    let (before, op, rest, is, one) = find_setup ops e in
    (reading ∷ before, op, rest, ap (λ (l : List Op). reading ∷ l) is, one)
find_setup (writing m ∷ ops) e =
    let (before, op, rest, is, one) = find_setup ops e in
    (writing m ∷ before, op, rest, ap (λ (l : List Op). writing m ∷ l) is, one)

-- Whether the handler of an operation goes on.
abbrev pub good : Op → Result → Bool
good connecting c = not (failed c.code) && c.named
good _ c = not (failed c.code)

-- If it does not, it tells of an error.
pub news-bad :
    (op : Op) (c : Result) (text : String)
    → good op c ≡ false
    → (ec : ErrorCode) × (news op c text ≡ fails ec ∷ [])
news-bad resolving c text bad = (c.code, ground arith)
news-bad connecting c text bad = elim (Bool-cases (failed c.code)) [
  | inl broken ↦ (c.code, ground arith)
  | inr fine ↦ (c.ssl_error, ground arith)
]
news-bad ssl_shaking c text bad = (c.code, ground arith)
news-bad ws_shaking c text bad = (c.code, ground arith)
news-bad reading c text bad = (c.code, ground arith)
news-bad (writing m) c text bad = (c.code, ground arith)

module _ {L : Type 0} where
  reads-check_send : (s : Session L) → reads (all_started (check_send s).1) ≡ 0
  unfolding check_send
  reads-check_send s = check s.write_queue refl
    where
      check : (q : List String) → s.write_queue ≡ q → reads (all_started (check_send s).1) ≡ 0
      check [] e = ground arith
      check (m ∷ q) e = ground arith

  pub reads-send : (m : String) (s : Session L) → reads (all_started (send m s).1) ≡ 0
  unfolding send
  reads-send m s = reads-check_send (record s { write_queue = s.write_queue ∷ʳ m })

  pub handle-good :
      (op : Op) (c : Result) (s : Session L)
      → good op c ≡ true
      → setups (op ∷ []) + arrived s.state ≤ 1
      → let (t, actions) = handle op c s in
        (setups (all_started actions) + arrived t.state ≡ setups (op ∷ []) + arrived s.state)
        × (reads (all_started actions) + arrived s.state ≡ reads (op ∷ []) + arrived t.state)
  unfolding on_resolve on_connected on_ssl_handshake on_handshake handle_read handle_tx
  handle-good resolving c s ok le = (ground arith, ground arith)
  handle-good connecting c s ok le = (ground arith, ground arith)
  handle-good ssl_shaking c s ok le = (ground arith, ground arith)
  handle-good ws_shaking c s ok le =
      let t : Session L = record s { state = connected } in
      let heard = map on_connect (check_send t).0.listeners in
      let split = all_started-append (check_send t).1 heard in
      let none = started-calls (λ l. on_connect l) (λ l. refl) (check_send t).0.listeners in
      (
        ground (
          arith,
          setups-check_send t,
          state-check_send t,
          split,
          setups-append (all_started (check_send t).1) (all_started heard),
          none,
        ),
        ground (
          arith,
          reads-check_send t,
          state-check_send t,
          split,
          reads-append (all_started (check_send t).1) (all_started heard),
          none,
        ),
      )
  handle-good reading c s ok le =
      let t : Session L = record s { rd_buffer = s.rd_buffer <> c.received } in
      let split =
        all_started-append (map (λ l. on_message l t.rd_buffer) s.listeners) (Action.read ∷ []) in
      let none = started-calls (λ l. on_message l t.rd_buffer) (λ l. refl) s.listeners in
      (ground (arith, split, none), ground (arith, split, none))
  handle-good (writing m) c s ok le =
      let t : Session L = record s {
        write_queue = tail s.write_queue;
        sending_state = send_idle;
      } in
      (
        ground (arith, setups-check_send t, state-check_send t),
        ground (arith, reads-check_send t, state-check_send t),
      )

-- Of a session with its outstanding operations: either one operation towards a connection is
-- outstanding and no read, or the session is connected and one read is outstanding.
abbrev pub Busy : {L : Type 0} → Session L → List Op → Type 0
Busy s ops = (setups ops + arrived s.state ≡ 1) × (reads ops ≡ arrived s.state)

-- A handler that goes on.
pub Busy-handle :
    {L : Type 0} (before : List Op) (op : Op) (rest ops : List Op) (c : Result) (s : Session L)
    → ops ≡ before ++ op ∷ rest
    → good op c ≡ true
    → Busy s ops
    → let (t, actions) = handle op c s in Busy t ((before ++ rest) ++ all_started actions)
Busy-handle before op rest ops c s is ok (one, listens) =
    let split = ap setups is ∙ setups-split before op rest in
    let split' = ap reads is ∙ reads-split before op rest in
    let (on, on') = handle-good op c s ok (omega (arith, split, one)) in
    let started = all_started (handle op c s).1 in
    (
      omega (arith, split, one, on, setups-append (before ++ rest) started),
      omega (arith, split', listens, on', reads-append (before ++ rest) started),
    )
