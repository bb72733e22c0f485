-- ===== src/Http/Runtime.antt =====
-- An HTTP session under boost::asio: the operations that it has initiated complete one by one, in any
-- order, and the program submits requests at any time.
pub mod Handlers
pub mod Delivery
pub mod Speech
use sample.Base.{Bool, String, List, [], ◌∷◌, ◌++◌, ◌∷ʳ◌, ◌≡◌, if◌then◌else◌, ◌<>◌}
use sample.Asio.{ErrorCode, failed, is_connected, is_sending}
use sample.Wire.{Wire}
use sample.Http.{
  Request, Session, Action, resolve, tcp_connect, ssl_handshake, read, write, Outcome, new_session,
  add_listener, connect, send, on_resolve, on_connect, on_handshake, handle_read, handle_tx,
}

-- An outstanding operation.
pub data Op : Type 0 where
  resolving connecting ssl_shaking reading : Op
  writing : (request : Request) → Op

-- How an operation completes; `received` is the body of the response that a read brings.
pub record Result : Type 0 where
  pub code : ErrorCode
  pub received : String

module _ {L : Type 0} where
  abbrev pub started : Action L → List Op
  started (resolve _ _) = resolving ∷ []
  started tcp_connect = connecting ∷ []
  started ssl_handshake = ssl_shaking ∷ []
  started read = reading ∷ []
  started (write m) = writing m ∷ []
  started _ = []

  abbrev pub all_started : List (Action L) → List Op
  all_started [] = []
  all_started (a ∷ rest) = started a ++ all_started rest

  -- The handler that an operation was initiated with. A read appends to the body of `res_` first.
  abbrev pub handle : Op → Result → Session L → Outcome L
  handle resolving c s = on_resolve c.code s
  handle connecting c s = on_connect c.code s
  handle ssl_shaking c s = on_handshake c.code s
  handle reading c s = handle_read c.code (record s { body = s.body <> c.received })
  handle (writing _) c s = handle_tx c.code s

-- `sent` and `written` record the requests given to `send`, and those whose write succeeded.
pub record Run (L : Type 0) : Type 0 where
  pub session : Session L
  pub outstanding : List Op
  pub sent : List Request
  pub written : List Request

abbrev pub now_written : Op → Result → List Request → List Request
now_written (writing m) c done = if failed c.code then done else done ∷ʳ m
now_written _ c done = done

module _ {L : Type 0} where
  -- The state after a handler, with the operations that it initiated.
  abbrev pub perform : Run L → Outcome L → Run L
  perform r (s, actions) = record r {
    session = s;
    outstanding = r.outstanding ++ all_started actions;
  }

  abbrev pub complete : Run L → List Op → Op → List Op → Result → Run L
  complete r before op rest c =
      perform (record r { outstanding = before ++ rest; written = now_written op c r.written })
        (handle op c r.session)

  pub data Step (r : Run L) : Run L → Type 0 where
    submits :
        (msg : Request) → Step r (perform (record r { sent = r.sent ∷ʳ msg }) (send msg r.session))
    completes :
        (before : List Op) (op : Op) (rest : List Op) (c : Result)
        → r.outstanding ≡ before ++ op ∷ rest
        → Step r (complete r before op rest c)

  -- The trade service creates a session, adds itself, and connects.
  abbrev pub launch : L → String → Bool → ErrorCode → Run L
  launch l host named ssl_error =
      perform
        (record { session = add_listener l new_session; outstanding = []; sent = []; written = [] })
        (connect host named ssl_error (add_listener l new_session))

  pub data Reach (l : L) (host : String) : Run L → Type 0 where
    start : (named : Bool) (ssl_error : ErrorCode) → Reach l host (launch l host named ssl_error)
    later : {r t : Run L} → Reach l host r → Step r t → Reach l host t

-- The requests that are being written.
abbrev pub writes : List Op → List Request
writes [] = []
writes (writing m ∷ ops) = m ∷ writes ops
writes (_ ∷ ops) = writes ops

abbrev pub wire_of : {L : Type 0} → Session L → List Op → List Request → List Request → Wire Request
wire_of s ops sent written = record {
  live = is_connected s.state;
  busy = is_sending s.sending_state;
  queue = s.request_queue;
  in_flight = writes ops;
  sent = sent;
  written = written;
}

-- A run as the wire that it implements.
abbrev pub wire : {L : Type 0} → Run L → Wire Request
wire r = wire_of r.session r.outstanding r.sent r.written
