-- ===== src/Http.antt =====
-- exchange_phemex/include/exchange-phemex/HttpConnection.hpp: the HTTP session.
-- As in Ws, a handler returns the new session and what it did outside of it, in order. `L` is a
-- `HttpEvent *`.
pub mod Runtime
use sample.Base.{
  ℕ, Bool, not, ◌||◌, ◌==◌, String, List, [], ◌∷◌, ◌++◌, ◌∷ʳ◌, map, is_empty, tail, if◌then◌else◌,
}
use sample.Asio.{
  ErrorCode, failed, State, handshaking, connected, Sending, send_idle, sending, is_connected,
  is_sending,
}

-- `http::request<http::string_body>`, as far as the program fills it. `fields` are in the order in
-- which they were set; `prepared` tells of `prepare_payload`, which adds the length of the body.
pub record Request : Type 0 where
  pub version : ℕ
  pub method : String
  pub target : String
  pub fields : List (String × String)
  pub body : String
  pub prepared : Bool

-- `HttpSession`, without the stream and the resolver. `body` is the body of `res_`.
pub record Session (L : Type 0) : Type 0 where
  pub listeners : List L
  pub body : String
  pub request_queue : List Request
  pub state : State
  pub sending_state : Sending

-- What a session does outside of itself.
pub data Action (L : Type 0) : Type 0 where
  set_host_name : (host : String) → Action L
  resolve : (host port : String) → Action L
  expires_never : Action L
  tcp_connect : Action L
  ssl_handshake : Action L
  read : Action L
  write : (request : Request) → Action L
  log_error : (what : String) → ErrorCode → Action L
  on_http_connect : L → Action L
  on_http_message : L → String → Action L
  on_http_close : L → Action L
  on_http_error : L → ErrorCode → Action L

abbrev pub Outcome : Type 0 → Type 0
Outcome L = Session L × List (Action L)

module _ {L : Type 0} where
  -- Puts what was done before in front.
  abbrev pub after : List (Action L) → Outcome L → Outcome L
  after done (s, more) = (s, done ++ more)

  unfoldable pub new_session : Session L
  new_session = record {
    listeners = [];
    body = "";
    request_queue = [];
    state = handshaking;
    sending_state = send_idle;
  }

  unfoldable pub add_listener : L → Session L → Session L
  add_listener l s = record s { listeners = s.listeners ∷ʳ l }

  -- `named`: what `SSL_set_tlsext_host_name` returns; `ssl_error`: `ERR_get_error` after it.
  unfoldable pub connect : String → (named : Bool) → (ssl_error : ErrorCode) → Session L → Outcome L
  connect host named ssl_error s =
      after (set_host_name host ∷ [])
        (if not named then (s, log_error "" ssl_error ∷ []) else (s, resolve host "443" ∷ []))

  unfoldable pub fail : ErrorCode → String → Session L → Outcome L
  fail ec msg s = (s, log_error msg ec ∷ map (λ l. on_http_error l ec) s.listeners)

  unfoldable pub on_resolve : ErrorCode → Session L → Outcome L
  unfolding fail
  on_resolve ec s = if failed ec then fail ec "resolve" s else (s, expires_never ∷ tcp_connect ∷ [])

  unfoldable pub on_connect : ErrorCode → Session L → Outcome L
  unfolding fail
  on_connect ec s = if failed ec then fail ec "connect" s else (s, ssl_handshake ∷ [])

  -- The write of the head of the queue; the queue is not empty here.
  start_write : Session L → List Request → Outcome L
  start_write s [] = (record s { sending_state = sending }, [])
  start_write s (front ∷ _) = (record s { sending_state = sending }, write front ∷ [])

  unfoldable pub initiate_tx : Session L → Outcome L
  unfolding start_write
  initiate_tx s = start_write s s.request_queue

  unfoldable pub check_send : Session L → Outcome L
  unfolding initiate_tx
  check_send s =
      if not (is_connected s.state) || is_sending s.sending_state || is_empty s.request_queue
      then (s, [])
      else initiate_tx s

  unfoldable pub send : Request → Session L → Outcome L
  send msg s = check_send (record s { request_queue = s.request_queue ∷ʳ msg })

  unfoldable pub handle_tx : ErrorCode → Session L → Outcome L
  unfolding fail
  handle_tx ec s =
      if failed ec
      then fail ec "failed to send message: " s
      else check_send (record s { request_queue = tail s.request_queue; sending_state = send_idle })

  unfoldable pub check_read : Session L → Outcome L
  check_read s = (s, read ∷ [])

  unfoldable pub handle_read : ErrorCode → Session L → Outcome L
  unfolding fail check_read
  handle_read ec s =
      if failed ec
      then fail ec "read error" s
      else after (map (λ l. on_http_message l s.body) s.listeners)
          (check_read (record s { body = "" }))

  unfoldable pub on_handshake : ErrorCode → Session L → Outcome L
  unfolding fail check_read
  on_handshake ec s =
      if failed ec
      then fail ec "handshake" s
      else let (r, reading) = check_read (record s { state = connected }) in
        let (t, writing) = check_send r in
        (t, reading ++ writing ++ map on_http_connect t.listeners)

  -- `eof`: `net::error::eof`.
  unfoldable pub on_shutdown : (eof ec : ErrorCode) → Session L → Outcome L
  unfolding fail
  on_shutdown eof ec s =
      let left : ErrorCode = if ec == eof then 0 else ec in
      if failed left then fail left "shutdown" s else (s, [])

  unfoldable pub on_close : ErrorCode → Session L → Outcome L
  unfolding fail
  on_close ec s =
      after (map on_http_close s.listeners) (if failed ec then fail ec "close" s else (s, []))
