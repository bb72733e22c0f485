-- ===== src/Http/Runtime/Delivery.antt =====
-- Runs of a session as runs of a wire.
use sample.Base.{
  true, false, length, ◌≤◌, some, String, List, [], ◌∷◌, ◌++◌, ◌∷ʳ◌, ◌≡◌, refl, ap, sym, ◌∙◌,
  Bool-cases, inl, inr,
}
use sample.Asio.{is_connected, is_sending, failed, handshaking, connected, send_idle}
use sample.Wire.{Wire, pump, submit, open_up, ack, lose, idle}
use sample.Wire
use sample.Wire.Laws.{Reach-Inv, first, caught_up, single_flight}
use sample.Http.{Request, connect, add_listener, new_session, Session, Action, send}
use sample.Http.Runtime.Handlers.{
  writes-append, check_send-pump, Quiet, Quiet-wire, on_resolve-Quiet, on_connect-Quiet,
  reading-Quiet, on_handshake-wire, handle_tx-wire,
}
use sample.Http.Runtime.{
  Op, resolving, connecting, ssl_shaking, reading, writing, Result, all_started, Run, Step,
  complete, submits, completes, Reach, start, later, writes, wire_of, wire,
}

step_of_eq : {A : Type 0} {w v : Wire A} → v ≡ w → Wire.Step w v
step_of_eq e = rw e idle

-- The operation that completes is outstanding no more.
dropped :
    (before : List Op) (op : Op) (rest : List Op) {ops : List Op}
    → ops ≡ before ++ op ∷ rest
    → writes (op ∷ []) ≡ []
    → writes (before ++ rest) ≡ writes ops
dropped before op rest {ops} e h =
    rw (e, writes-append before rest, writes-append before (op ∷ rest))
      (ap (λ l. writes before ++ l) (sym (rw (writes-append (op ∷ []) rest, h))))

module _ {L : Type 0} where
  -- A handler that is no step of the wire, when an operation other than a write completes.
  Quiet-Step :
      (r : Run L) (before : List Op) (op : Op) (rest : List Op) {s' : Session L}
      {actions : List (Action L)}
      → r.outstanding ≡ before ++ op ∷ rest
      → writes (op ∷ []) ≡ []
      → Quiet r.session s' actions
      → Wire.Step (wire r) (wire_of s' ((before ++ rest) ++ all_started actions) r.sent r.written)
  Quiet-Step r before op rest e h q = step_of_eq (
      Quiet-wire (before ++ rest) r.sent r.written q
      ∙ ap (λ f. record (wire r) { in_flight = f }) (dropped before op rest e h))

  tx-Step :
      (r : Run L) (before : List Op) (m : Request) (rest : List Op) (c : Result)
      → r.outstanding ≡ before ++ writing m ∷ rest
      → Wire.Step (wire r) (wire (complete r before (writing m) rest c))
  tx-Step r before m rest c e = elim (Bool-cases (failed c.code)) [
    | inl bad ↦
        rw (handle_tx-wire c.code r.session (before ++ rest) r.sent, bad, writes-append before rest)
          (lose (writes before) m (writes rest) (rw e (writes-append before (writing m ∷ rest))))
    | inr good ↦
        rw
          (handle_tx-wire c.code r.session (before ++ rest) r.sent, good, writes-append before rest)
          (ack (writes before) m (writes rest) (rw e (writes-append before (writing m ∷ rest))))
  ]

  handshake-Step :
      (r : Run L) (before rest : List Op) (c : Result)
      → r.outstanding ≡ before ++ ssl_shaking ∷ rest
      → Wire.Step (wire r) (wire (complete r before ssl_shaking rest c))
  handshake-Step r before rest c e = elim (Bool-cases (failed c.code)) [
    | inl bad ↦
        rw (on_handshake-wire c.code r.session (before ++ rest) r.sent, bad)
          (step_of_eq
            (ap (λ f. record (wire r) { in_flight = f }) (dropped before ssl_shaking rest e refl)))
    | inr good ↦
        rw
          (
            on_handshake-wire c.code r.session (before ++ rest) r.sent,
            good,
            dropped before ssl_shaking rest e refl,
          )
          open_up
  ]

  -- A step of a session is a step of its wire.
  pub Step-wire : {r t : Run L} → Step r t → Wire.Step (wire r) (wire t)
  unfolding send
  Step-wire {r} (submits msg) =
      rw
        (check_send-pump (record r.session { request_queue = r.session.request_queue ∷ʳ msg })
          r.outstanding)
        (submit msg)
  Step-wire {r} (completes before resolving rest c e) =
      Quiet-Step r before resolving rest e refl (on_resolve-Quiet c r.session)
  Step-wire {r} (completes before connecting rest c e) =
      Quiet-Step r before connecting rest e refl (on_connect-Quiet c r.session)
  Step-wire {r} (completes before ssl_shaking rest c e) = handshake-Step r before rest c e
  Step-wire {r} (completes before reading rest c e) =
      Quiet-Step r before reading rest e refl (reading-Quiet c r.session)
  Step-wire {r} (completes before (writing m) rest c e) = tx-Step r before m rest c e

  Reach-wire : {l : L} {host : String} {r : Run L} → Reach l host r → Wire.Reach (wire r)
  unfolding connect add_listener new_session
  Reach-wire (start true ssl_error) = Wire.start
  Reach-wire (start false ssl_error) = Wire.start
  Reach-wire (later h s) = Wire.later (Reach-wire h) (Step-wire s)

  -- In every state that a run of an HTTP session reaches, the requests given to `send` are, in
  -- that order, those whose write succeeded followed by those in the queue; when the session is
  -- connected and idle, every request was written.
  pub http_delivery :
      {l : L} {host : String} {r : Run L}
      → Reach l host r
      → (r.sent ≡ r.written ++ r.session.request_queue)
        × (r.session.state ≡ connected → r.session.sending_state ≡ send_idle → r.sent ≡ r.written)
  http_delivery h =
      let v = Reach-Inv (Reach-wire h) in
      (v.fifo, λ c i. caught_up v (ap is_connected c) (ap is_sending i))

  -- In every state that a run of an HTTP session reaches, at most one write is outstanding, it is
  -- of the request at the head of the queue, and none is outstanding before the handshake has
  -- succeeded.
  pub one_request :
      {l : L} {host : String} {r : Run L}
      → Reach l host r
      → (length (writes r.outstanding) ≤ 1)
        × ((m : Request) → writes r.outstanding ≡ m ∷ [] → first r.session.request_queue ≡ some m)
        × (r.session.state ≡ handshaking → writes r.outstanding ≡ [])
  one_request h =
      let (few, head, shut) = single_flight (Reach-Inv (Reach-wire h)) in
      (few, head, λ s. shut (ap is_connected s))
