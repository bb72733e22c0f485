-- ===== src/Ws/Runtime/Calls.antt =====
-- Which calls a handler makes of the one listener of a session, and how far the session gets.
use sample.Base.{
  ◌<>◌, not, String, List, [], ◌∷◌, ◌++◌, ◌∷ʳ◌, tail, map, ◌≡◌, refl, ap, sym, ◌∙◌, if◌then◌else◌,
  arith, append_assoc,
}
use sample.Asio.{ErrorCode, failed, connected, send_idle}
use sample.Ws.{
  Session, Action, on_connect, on_message, on_close, on_error, check_send, send, on_resolve,
  on_connected, on_ssl_handshake, on_handshake, handle_read, handle_tx,
}
use sample.Ws.Runtime.{
  Op, resolving, connecting, ssl_shaking, ws_shaking, reading, writing, Result, handle,
}

-- A call of a listener.
pub data Call : Type 0 where
  connects closes : Call
  says : (text : String) → Call
  fails : ErrorCode → Call

module _ {L : Type 0} where
  abbrev pub call_of : Action L → List Call
  call_of (on_connect _) = connects ∷ []
  call_of (on_message _ text) = says text ∷ []
  call_of (on_close _) = closes ∷ []
  call_of (on_error _ ec) = fails ec ∷ []
  call_of _ = []

  -- The calls among the actions of a handler, in order.
  abbrev pub calls : List (Action L) → List Call
  calls [] = []
  calls (a ∷ rest) = call_of a ++ calls rest

-- The calls that the completion of an operation brings about; `text` is what was read before.
abbrev pub news : Op → Result → (text : String) → List Call
news (writing m) c text = if failed c.code then fails c.code ∷ [] else []
news reading c text = if failed c.code then fails c.code ∷ [] else says (text <> c.received) ∷ []
news ws_shaking c text = if failed c.code then fails c.code ∷ [] else connects ∷ []
news connecting c text =
    if failed c.code then fails c.code ∷ [] else if not c.named then fails c.ssl_error ∷ [] else []
news _ c text = if failed c.code then fails c.code ∷ [] else []

module _ {L : Type 0} where
  calls-check_send : (s : Session L) → calls (check_send s).1 ≡ []
  unfolding check_send
  calls-check_send s = check s.write_queue refl
    where
      check : (q : List String) → s.write_queue ≡ q → calls (check_send s).1 ≡ []
      check [] e = ground arith
      check (m ∷ q) e = ground arith

  calls-append : (xs ys : List (Action L)) → calls (xs ++ ys) ≡ calls xs ++ calls ys
  calls-append [] ys = refl
  calls-append (x ∷ xs) ys =
      ap (λ (l : List Call). call_of x ++ l) (calls-append xs ys)
      ∙ sym (append_assoc (call_of x) (calls xs) (calls ys))

  listeners-check_send : (s : Session L) → (check_send s).0.listeners ≡ s.listeners
  unfolding check_send
  listeners-check_send s = check s.write_queue refl
    where
      check : (q : List String) → s.write_queue ≡ q → (check_send s).0.listeners ≡ s.listeners
      check [] e = ground arith
      check (m ∷ q) e = ground arith

  pub state-check_send : (s : Session L) → (check_send s).0.state ≡ s.state
  unfolding check_send
  state-check_send s = check s.write_queue refl
    where
      check : (q : List String) → s.write_queue ≡ q → (check_send s).0.state ≡ s.state
      check [] e = ground arith
      check (m ∷ q) e = ground arith

  pub state-send : (m : String) (s : Session L) → (send m s).0.state ≡ s.state
  unfolding send
  state-send m s = state-check_send (record s { write_queue = s.write_queue ∷ʳ m })

  pub listeners-send : (m : String) (s : Session L) → (send m s).0.listeners ≡ s.listeners
  unfolding send
  listeners-send m s = listeners-check_send (record s { write_queue = s.write_queue ∷ʳ m })

  pub listeners-handle :
      (op : Op) (c : Result) (s : Session L) → (handle op c s).0.listeners ≡ s.listeners
  unfolding on_resolve on_connected on_ssl_handshake on_handshake handle_read handle_tx
  listeners-handle resolving c s = ground arith
  listeners-handle connecting c s = ground arith
  listeners-handle ssl_shaking c s = ground arith
  listeners-handle ws_shaking c s =
      ground (arith, listeners-check_send (record s { state = connected }))
  listeners-handle reading c s = ground arith
  listeners-handle (writing m) c s = ground (
    arith,
    listeners-check_send (record s { write_queue = tail s.write_queue; sending_state = send_idle }),
  )

  pub calls-handle :
      (op : Op) (c : Result) (s : Session L) (l : L)
      → s.listeners ≡ l ∷ []
      → calls (handle op c s).1 ≡ news op c s.rd_buffer
  unfolding on_resolve on_connected on_ssl_handshake on_handshake handle_read handle_tx
  calls-handle resolving c s l e = ground arith
  calls-handle connecting c s l e = ground arith
  calls-handle ssl_shaking c s l e = ground arith
  calls-handle ws_shaking c s l e =
      let t : Session L = record s { state = connected } in
      ground (
        arith,
        calls-check_send t,
        calls-append (check_send t).1 (map on_connect (check_send t).0.listeners),
        listeners-check_send t,
      )
  calls-handle reading c s l e = ground arith
  calls-handle (writing m) c s l e = ground (
    arith,
    calls-check_send (record s { write_queue = tail s.write_queue; sending_state = send_idle }),
  )
