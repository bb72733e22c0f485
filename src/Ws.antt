-- ===== src/Ws.antt =====
-- exchange_phemex/include/exchange-phemex/WSConnection.hpp: the websocket session.
-- A handler returns the new session and what it did outside of it, in order: the operations that it
-- initiated on the socket and the calls of its listeners. `L` is a `WSEvent *`.
-- In every handler the calls of listeners come after the last change of the session's own state but
-- for the emptying of the read buffer, which no listener sees.
pub mod Runtime
use sample.Base.{
  ℕ, Bool, not, ◌||◌, String, List, [], ◌∷◌, ◌++◌, ◌∷ʳ◌, map, is_empty, tail, if◌then◌else◌,
}
use sample.Asio.{
  ErrorCode, failed, State, handshaking, connected, Sending, send_idle, sending, is_connected,
  is_sending,
}

-- `session`, without the stream and the resolver.
pub record Session (L : Type 0) : Type 0 where
  pub host : String
  pub path : String
  pub listeners : List L
  pub rd_buffer : String
  pub write_queue : List String
  pub state : State
  pub sending_state : Sending

-- What a session does outside of itself.
pub data Action (L : Type 0) : Type 0 where
  resolve : (host port : String) → Action L
  expires_after : (seconds : ℕ) → Action L
  expires_never : Action L
  tcp_connect : Action L
  set_host_name : (host : String) → Action L
  ssl_handshake : Action L
  suggested_timeout : Action L
  user_agent : (suffix : String) → Action L
  ws_handshake : (host path : String) → Action L
  sleep : (seconds : ℕ) → Action L
  read : Action L
  write : (message : String) → Action L
  log_error : (what : String) → ErrorCode → Action L
  on_connect : L → Action L
  on_message : L → String → Action L
  on_close : L → Action L
  on_error : L → ErrorCode → Action L

abbrev pub Outcome : Type 0 → Type 0
Outcome L = Session L × List (Action L)

module _ {L : Type 0} where
  -- Puts what was done before in front.
  abbrev pub after : List (Action L) → Outcome L → Outcome L
  after done (s, more) = (s, done ++ more)

  unfoldable pub new_session : Session L
  new_session = record {
    host = "";
    path = "";
    listeners = [];
    rd_buffer = "";
    write_queue = [];
    state = handshaking;
    sending_state = send_idle;
  }

  unfoldable pub add_listener : L → Session L → Session L
  add_listener l s = record s { listeners = s.listeners ∷ʳ l }

  unfoldable pub connect : String → String → Session L → Outcome L
  connect host path s = (record s { host = host; path = path }, resolve host "443" ∷ [])

  unfoldable pub fail : ErrorCode → String → Session L → Outcome L
  fail ec msg s = (s, log_error msg ec ∷ map (λ l. on_error l ec) s.listeners)

  unfoldable pub on_resolve : ErrorCode → Session L → Outcome L
  unfolding fail
  on_resolve ec s =
      if failed ec then fail ec "resolve" s else (s, expires_after 30 ∷ tcp_connect ∷ [])

  -- `named`: what `SSL_set_tlsext_host_name` returns; `ssl_error`: `ERR_get_error` after it.
  unfoldable pub on_connected :
      ErrorCode → (named : Bool) → (ssl_error : ErrorCode) → Session L → Outcome L
  unfolding fail
  on_connected ec named ssl_error s =
      if failed ec
      then fail ec "connect" s
      else after (expires_after 30 ∷ set_host_name s.host ∷ [])
          (if not named then fail ssl_error "connect" s else (s, ssl_handshake ∷ []))

  unfoldable pub on_ssl_handshake : ErrorCode → Session L → Outcome L
  unfolding fail
  on_ssl_handshake ec s = if failed ec then fail ec "ssl_handshake" s else (
    s,
    expires_never
        ∷ suggested_timeout
        ∷ user_agent " websocket-client-async-ssl"
        ∷ ws_handshake s.host s.path
        ∷ [],
  )

  -- The write of the head of the queue; the queue is not empty here.
  start_write : Session L → List String → Outcome L
  start_write s [] = (record s { sending_state = sending }, [])
  start_write s (front ∷ _) = (record s { sending_state = sending }, write front ∷ [])

  unfoldable pub initiate_tx : Session L → Outcome L
  unfolding start_write
  initiate_tx s = start_write s s.write_queue

  unfoldable pub check_send : Session L → Outcome L
  unfolding initiate_tx
  check_send s =
      if not (is_connected s.state) || is_sending s.sending_state || is_empty s.write_queue
      then (s, [])
      else initiate_tx s

  unfoldable pub send : String → Session L → Outcome L
  send msg s = check_send (record s { write_queue = s.write_queue ∷ʳ msg })

  unfoldable pub handle_tx : ErrorCode → Session L → Outcome L
  unfolding fail
  handle_tx ec s =
      if failed ec
      then fail ec "failed to send message: " s
      else check_send (record s { write_queue = tail s.write_queue; sending_state = send_idle })

  unfoldable pub check_read : Session L → Outcome L
  check_read s = (s, read ∷ [])

  unfoldable pub handle_read : ErrorCode → Session L → Outcome L
  unfolding fail check_read
  handle_read ec s =
      if failed ec
      then fail ec "read error" s
      else after (map (λ l. on_message l s.rd_buffer) s.listeners)
          (check_read (record s { rd_buffer = "" }))

  unfoldable pub on_handshake : ErrorCode → Session L → Outcome L
  unfolding fail check_read
  on_handshake ec s =
      if failed ec
      then fail ec "handshake" s
      else let (r, reading) = check_read (record s { state = connected }) in
        let (t, writing) = check_send r in
        (t, sleep 1 ∷ reading ++ writing ++ map on_connect t.listeners)

  unfoldable pub on_closed : ErrorCode → Session L → Outcome L
  unfolding fail
  on_closed ec s =
      after (map on_close s.listeners) (if failed ec then fail ec "close" s else (s, []))
