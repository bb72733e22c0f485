-- ===== src/Http/Runtime/Handlers.antt =====
-- What each handler of a session does to the wire that the session implements.
use sample.Base.{
  ◌<>◌, if◌then◌else◌, true, false, String, List, [], ◌∷◌, ◌++◌, ◌≡◌, refl, ap, map, arith,
  append-nil, append_assoc, Bool-cases, inl, inr, tail,
}
use sample.Asio.{ErrorCode, failed, connected, send_idle}
use sample.Wire.{pump}
use sample.Http.{
  Request, Session, Action, on_http_connect, on_http_message, on_http_error, fail, check_send,
  on_resolve, on_connect, on_handshake, handle_read, handle_tx,
}
use sample.Http.Runtime.{
  Op, resolving, connecting, ssl_shaking, reading, writing, Result, started, all_started, handle,
  writes, wire_of,
}

pub writes-append : (xs ys : List Op) → writes (xs ++ ys) ≡ writes xs ++ writes ys
writes-append [] ys = refl
writes-append (resolving ∷ xs) ys = writes-append xs ys
writes-append (connecting ∷ xs) ys = writes-append xs ys
writes-append (ssl_shaking ∷ xs) ys = writes-append xs ys
writes-append (reading ∷ xs) ys = writes-append xs ys
writes-append (writing m ∷ xs) ys = ap (λ l. m ∷ l) (writes-append xs ys)

abbrev pub code_of : ErrorCode → Result
code_of ec = record { code = ec; received = "" }

module _ {L : Type 0} where
  pub all_started-append :
      (xs ys : List (Action L)) → all_started (xs ++ ys) ≡ all_started xs ++ all_started ys
  all_started-append [] ys = refl
  all_started-append (x ∷ xs) ys =
      rw (all_started-append xs ys, append_assoc (started x) (all_started xs) (all_started ys))

  -- Calls of listeners start nothing.
  pub started-calls :
      (f : L → Action L)
      → ((l : L) → started (f l) ≡ [])
      → (ls : List L) → all_started (map f ls) ≡ []
  started-calls f h [] = refl
  started-calls f h (l ∷ ls) = rw (h l, started-calls f h ls)

  pub check_send_on :
      (s : Session L) (ops : List Op) (sent written q : List Request)
      → s.request_queue ≡ q
      → let (s', actions) = check_send s in
        wire_of s' (ops ++ all_started actions) sent written ≡ pump (wire_of s ops sent written)
  unfolding check_send pump
  check_send_on s ops sent written [] e = ground (arith, append-nil ops)
  check_send_on s ops sent written (m ∷ q) e =
      ground (arith, append-nil ops, writes-append ops (writing m ∷ []))

  -- `check_send` is `pump`.
  pub check_send-pump :
      (s : Session L) (ops : List Op) (sent written : List Request)
      → let (s', actions) = check_send s in
        wire_of s' (ops ++ all_started actions) sent written ≡ pump (wire_of s ops sent written)
  check_send-pump s ops sent written = check_send_on s ops sent written s.request_queue refl

  -- What a handler does that writes nothing and leaves the queue and the flags alone.
  pub record Quiet (s s' : Session L) (actions : List (Action L)) : Type 0 where
    pub queue : s'.request_queue ≡ s.request_queue
    pub state : s'.state ≡ s.state
    pub sending_state : s'.sending_state ≡ s.sending_state
    pub silent : writes (all_started actions) ≡ []

  pub Quiet-wire :
      {s s' : Session L} {actions : List (Action L)} (ops : List Op) (sent written : List Request)
      → Quiet s s' actions
      → wire_of s' (ops ++ all_started actions) sent written ≡ wire_of s ops sent written
  Quiet-wire {actions = acts} ops sent written h =
      ground (arith, writes-append ops (all_started acts), append-nil (writes ops))

  module _ (c : Result) (s : Session L) where
    pub errors : all_started (map (λ l. on_http_error l c.code) s.listeners) ≡ []
    errors = started-calls (λ l. on_http_error l c.code) (λ l. refl) s.listeners

    pub on_resolve-Quiet : let (s', actions) = on_resolve c.code s in Quiet s s' actions
    unfolding on_resolve
    on_resolve-Quiet = ground (arith, errors)

    pub on_connect-Quiet : let (s', actions) = on_connect c.code s in Quiet s s' actions
    unfolding on_connect
    on_connect-Quiet = ground (arith, errors)

    pub handle_read-Quiet : let (s', actions) = handle_read c.code s in Quiet s s' actions
    unfolding handle_read
    handle_read-Quiet = ground (
      arith,
      errors,
      all_started-append (map (λ l. on_http_message l s.body) s.listeners) (Action.read ∷ []),
      started-calls (λ l. on_http_message l s.body) (λ l. refl) s.listeners,
    )

    pub fail-Quiet : (msg : String) → let (s', actions) = fail c.code msg s in Quiet s s' actions
    unfolding fail
    fail-Quiet msg = ground (arith, errors)

  pub reading-Quiet :
      (c : Result) (s : Session L) → let (s', actions) = handle reading c s in Quiet s s' actions
  reading-Quiet c s =
      let q = handle_read-Quiet c (record s { body = s.body <> c.received }) in
      record {
        queue = q.queue;
        state = q.state;
        sending_state = q.sending_state;
        silent = q.silent;
      }

  pub connect_calls :
      (ops : List Op) (actions : List (Action L)) (ls : List L)
      → writes (ops ++ reading ∷ all_started (actions ++ map on_http_connect ls))
        ≡ writes (ops ++ all_started actions)
  connect_calls ops actions ls = simp (
    writes-append,
    all_started-append,
    started-calls (λ l. on_http_connect l) (λ l. refl) ls,
    append-nil,
  )

  pub on_handshake-wire :
      (ec : ErrorCode) (s : Session L) (ops : List Op) (sent written : List Request)
      → let (s', actions) = on_handshake ec s in
        let w = wire_of s ops sent written in
        wire_of s' (ops ++ all_started actions) sent written
        ≡ (if failed ec then w else pump (record w { live = true }))
  unfolding on_handshake
  on_handshake-wire ec s ops sent written = elim (Bool-cases (failed ec)) [
    | inl bad ↦ rw bad (Quiet-wire ops sent written (fail-Quiet (code_of ec) s "handshake"))
    | inr good ↦
        rw good
          (rw connect_calls (check_send-pump (record s { state = connected }) ops sent written))
  ]

  pub handle_tx-wire :
      (ec : ErrorCode) (s : Session L) (ops : List Op) (sent written : List Request)
      → let (s', actions) = handle_tx ec s in
        let w = wire_of s ops sent written in
        wire_of s' (ops ++ all_started actions) sent written
        ≡ (if failed ec then w else pump (record w { busy = false; queue = tail w.queue }))
  unfolding handle_tx
  handle_tx-wire ec s ops sent written = elim (Bool-cases (failed ec)) [
    | inl bad ↦
        rw bad (Quiet-wire ops sent written (fail-Quiet (code_of ec) s "failed to send message: "))
    | inr good ↦ rw good (
        check_send-pump
          (record s { request_queue = tail s.request_queue; sending_state = send_idle }) ops sent
          written)
  ]
