-- ===== src/Trade/Upkeep.antt =====
-- What `RunOnce` and the reconnections leave behind.
use sample.Base.{
  List, ◌++◌, sym, ◌∷ʳ◌, append-nil, ℕ, suc, ◌+◌, ◌/◌, ◌≤◌, Bool, true, false, String, [], ◌∷◌,
  some, ◌≡◌, refl, if◌then◌else◌, ◌<>◌, ltb, arith, Bool-cases, ◌∙◌, inl, inr, ap, ap₂,
}
use text.Mathlib.TextLemmas.{nil-append, cons-append}
use sample.Base.Decimal.{to_string, replace_hash}
use sample.External.{Libraries}
use sample.Asio.{ErrorCode}
use sample.Http
use sample.Ws
use sample.Ws.Runtime.{Run, Reach, start, later, submits}
use sample.Trade.{Self, this, Trade, ws_action, Effect, ws_send, http_send}
use sample.Trade.Hex.{hmac_sha256}
use sample.Trade.Sending.{ws_queue, http_queue}
use sample.Trade.Link.{
  Env, heart_beat, send_heartbeat, open_ws, open_http, http_reconnect, auth_calls, send_auth,
  read_config, connect, reconnect, beat, run_once,
}

-- How often a message is sent on a condition.
abbrev pub count : Bool → ℕ
count true = 1
count false = 0

http_connect_queue :
    {L : Type 0} (host : String) (named : Bool) (ssl_error : ErrorCode) (s : Http.Session L)
    → (Http.connect host named ssl_error s).0.request_queue ≡ s.request_queue
unfolding Http.connect
http_connect_queue host true ssl_error s = refl
http_connect_queue host false ssl_error s = refl

-- What a heartbeat sends on either session.
abbrev pub ping : (id : ℕ) → String
ping id = "{\"id\":" <> to_string id <> ", \"method\":\"server.ping\", \"params\":[]}"

abbrev pub book_request : (host : String) → Env → Http.Request
book_request host env = record {
  version = 11;
  method = "GET";
  target = "/md/orderbook?symbol=BTCUSD";
  fields = ("Host", host) ∷ ("User-Agent", env.beast_version) ∷ [];
  body = "";
  prepared = false;
}

pub ping_lem : (id : ℕ) → replace_hash heart_beat (to_string id) ≡ ping id
unfolding replace_hash
ping_lem id =
    rw (cons-append, cons-append, cons-append, cons-append, cons-append, cons-append, nil-append)
      refl

recent :
    (last now : ℕ) {new : ℕ}
    → new ≡ (if ltb (last + 29000) now then now else last)
    → now ≤ new + 29000
recent last now e = ground arith

module _ (lib : Libraries) {L : Type 0} where
  -- The text of the authentication that follows `id`.
  abbrev pub auth_text : Env → Trade L → String
  auth_text env t =
      let nonce = env.auth_now / 1000 + 60 in
      lib.render (
        auth_calls lib t.api_key (hmac_sha256 lib t.secret_key (t.api_key <> to_string nonce)) nonce
          (suc t.id))

  -- A reconnection replaces the websocket session with one that a run of sessions reaches, in
  -- which the authentication alone was given to `send`; the authentication waits in the queue, its
  -- id is the expected one, no reconnection is pending, and nothing but the resolution of the host
  -- has begun.
  reconnect-Reach :
      (env : Env) (t : Trade L)
      → let (u, out) = reconnect lib env t in
        (r : Run Self) × Reach this t.ws_host "/ws" r
        × (r.session ≡ u.ws_session)
        × (r.sent ≡ auth_text env t ∷ [])
        × (u.ws_session.write_queue ≡ auth_text env t ∷ [])
        × (u.auth_id ≡ some (suc t.id))
        × (u.need_reconnect ≡ false)
        × (out ≡ ws_action (Ws.resolve t.ws_host "443") ∷ [])
  unfolding reconnect open_ws send_auth ws_send Ws.send Ws.check_send Ws.connect Ws.add_listener
      Ws.new_session
  reconnect-Reach env t =
      (_, later start (submits (auth_text env t)), refl, refl, refl, refl, refl, refl)

  -- On a new service, `Connect` begins a run of a websocket session to the configured host in
  -- which the authentication alone was given to `send`, under the last id given out, and an HTTP
  -- session with an empty queue; the time of the last heartbeat stays as it was.
  trade_connect-Reach :
      (env : Env) (t : Trade L)
      → let begun : Trade L = record t {
        ws_session = Ws.new_session;
        http_session = Http.new_session;
      } in
        let set = read_config lib begun in
        let (u, out) = connect lib env begun in
        (r : Run Self) × Reach this set.ws_host "/ws" r
        × (r.session ≡ u.ws_session)
        × (r.sent ≡ auth_text env set ∷ [])
        × (u.auth_id ≡ some u.id)
        × (u.last_heartbeat_time ≡ t.last_heartbeat_time)
        × (u.http_session.request_queue ≡ [])
  unfolding connect open_ws open_http send_auth ws_send Ws.send Ws.check_send Ws.connect
      Ws.add_listener Ws.new_session Http.add_listener Http.new_session read_config
  trade_connect-Reach env t =
      let begun : Trade L = record t {
        ws_session = Ws.new_session;
        http_session = Http.new_session;
      } in
      (
        _,
        later start (submits (auth_text env (read_config lib begun))),
        refl,
        refl,
        refl,
        refl,
        http_connect_queue (read_config lib begun).host env.named env.ssl_error
            (Http.add_listener this Http.new_session),
      )

  -- The three parts of `RunOnce` behind the poll.
  ws_part : (env : Env) (t : Trade L) → Effect L lib.doubles.Double
  ws_part env t = if t.need_reconnect then reconnect lib env t else (t, [])

  http_part : (env : Env) (t : Trade L) → Effect L lib.doubles.Double
  http_part env t = if t.http_need_reconnect then http_reconnect env t else (t, [])

  ws_part_lem :
      (env : Env) (t : Trade L)
      → let u = (ws_part env t).0 in
        (u.need_reconnect ≡ false)
        × (u.http_need_reconnect ≡ t.http_need_reconnect)
        × (u.last_heartbeat_time ≡ t.last_heartbeat_time)
        × (u.id ≡ t.id + count t.need_reconnect)
        × (u.http_session ≡ t.http_session)
        × (u.ws_session.write_queue
            ≡ (if t.need_reconnect then auth_text env t ∷ [] else t.ws_session.write_queue))
        × (u.host ≡ t.host)
  unfolding ws_part reconnect open_ws send_auth ws_send Ws.send Ws.check_send Ws.connect
      Ws.add_listener Ws.new_session
  ws_part_lem env t = elim (Bool-cases t.need_reconnect) [
    | inl e ↦ rw e (refl, refl, refl, omega arith, refl, refl, refl)
    | inr e ↦ rw e (refl, refl, refl, omega arith, refl, refl, refl)
  ]

  http_part_lem :
      (env : Env) (t : Trade L)
      → let u = (http_part env t).0 in
        (u.http_need_reconnect ≡ false)
        × (u.need_reconnect ≡ t.need_reconnect)
        × (u.last_heartbeat_time ≡ t.last_heartbeat_time)
        × (u.id ≡ t.id)
        × (u.ws_session ≡ t.ws_session)
        × (u.http_session.request_queue
            ≡ (if t.http_need_reconnect then [] else t.http_session.request_queue))
        × (u.host ≡ t.host)
  unfolding http_part http_reconnect open_http Http.add_listener Http.new_session
  http_part_lem env t = elim (Bool-cases t.http_need_reconnect) [
    | inl e ↦ rw e (
      refl,
      refl,
      refl,
      refl,
      refl,
      http_connect_queue t.host env.named env.ssl_error (Http.add_listener this Http.new_session),
      refl,
    )
    | inr e ↦ rw e (refl, refl, refl, refl, refl, refl, refl)
  ]

  pub beat_lem :
      (env : Env) (t : Trade L)
      → let due = ltb (t.last_heartbeat_time + 29000) env.now in
        let u = (beat lib env t).0 in
        (u.http_need_reconnect ≡ t.http_need_reconnect)
        × (u.need_reconnect ≡ t.need_reconnect)
        × (u.last_heartbeat_time ≡ (if due then env.now else t.last_heartbeat_time))
        × (u.id ≡ t.id + count due)
        × (u.ws_session.write_queue
            ≡ t.ws_session.write_queue ++ (if due then ping t.id ∷ [] else []))
        × (u.http_session.request_queue
            ≡ t.http_session.request_queue ++ (if due then book_request t.host env ∷ [] else []))
  unfolding beat send_heartbeat ws_send http_send
  beat_lem env t = elim (Bool-cases (ltb (t.last_heartbeat_time + 29000) env.now)) [
    | inl e ↦ rw e (
      refl,
      refl,
      refl,
      omega arith,
      ws_queue (replace_hash heart_beat (to_string t.id)) t.ws_session
          ∙ ap (λ (m : String). t.ws_session.write_queue ∷ʳ m) (ping_lem t.id),
      http_queue (book_request t.host env) t.http_session,
    )
    | inr e ↦ rw e (
      refl,
      refl,
      refl,
      omega arith,
      sym (append-nil t.ws_session.write_queue),
      sym (append-nil t.http_session.request_queue),
    )
  ]

  -- After `RunOnce` of the trade service, whatever the polled handler did: no reconnection is
  -- pending; the noted time is that of now exactly if the last heartbeat was more than 29 seconds
  -- old, so it is never older than that; one id was given out for a reconnection of the websocket
  -- and one for a heartbeat; the messages queued on the websocket are those before it, or the
  -- authentication alone after a reconnection, and then a ping with the heartbeat's id if one was
  -- due; and the requests queued on the HTTP session are those before it, or none after a
  -- reconnection, and then the request for the order book if a heartbeat was due.
  pub run_once_lem :
      (poll : Trade L → Effect L lib.doubles.Double) (env : Env) (t : Trade L)
      → let v = (poll t).0 in
        let due = ltb (v.last_heartbeat_time + 29000) env.now in
        let u = (run_once lib poll env t).0 in
        (u.need_reconnect ≡ false)
        × (u.http_need_reconnect ≡ false)
        × (u.last_heartbeat_time ≡ (if due then env.now else v.last_heartbeat_time))
        × (env.now ≤ u.last_heartbeat_time + 29000)
        × (u.id ≡ v.id + count v.need_reconnect + count due)
        × (u.ws_session.write_queue
            ≡ (if v.need_reconnect then auth_text env v ∷ [] else v.ws_session.write_queue)
              ++ (if due then ping (v.id + count v.need_reconnect) ∷ [] else []))
        × (u.http_session.request_queue
            ≡ (if v.http_need_reconnect then [] else v.http_session.request_queue)
              ++ (if due then book_request v.host env ∷ [] else []))
  unfolding run_once ws_part http_part
  run_once_lem poll env t =
      let v = (poll t).0 in
      let w = (ws_part env v).0 in
      let x = (http_part env w).0 in
      let (a1, a2, a3, a4, a5, a6, a7) = ws_part_lem env v in
      let (b1, b2, b3, b4, b5, b6, b7) = http_part_lem env w in
      let (c1, c2, c3, c4, c5, c6) = beat_lem env x in
      let time = b3 ∙ a3 in
      let due : ℕ → Bool = λ τ. ltb (τ + 29000) env.now in
      (
        c2 ∙ b2 ∙ a1,
        c1 ∙ b1,
        c3 ∙ ap (λ (τ : ℕ). if due τ then env.now else τ) time,
        recent x.last_heartbeat_time env.now c3,
        c4 ∙ ap₂ (λ (i τ : ℕ). i + count (due τ)) (b4 ∙ a4) time,
        c5
            ∙ ap
                (λ (q : List String).
                  q ++ (if due x.last_heartbeat_time then ping x.id ∷ [] else []))
                (ap (λ (s : Ws.Session Self). s.write_queue) b5 ∙ a6)
            ∙ ap₂
                (λ (i τ : ℕ).
                  (if v.need_reconnect then auth_text env v ∷ [] else v.ws_session.write_queue)
                  ++ (if due τ then ping i ∷ [] else []))
                (b4 ∙ a4) time,
        c6
            ∙ ap
                (λ (q : List Http.Request).
                  q ++ (if due x.last_heartbeat_time then book_request x.host env ∷ [] else []))
                (b6
                  ∙ ap₂ (λ (b : Bool) (s : Http.Session Self). if b then [] else s.request_queue) a2
                      a5)
            ∙ ap₂
                (λ (h : String) (τ : ℕ).
                  (if v.http_need_reconnect then [] else v.http_session.request_queue)
                  ++ (if due τ then book_request h env ∷ [] else []))
                (b7 ∙ a7) time,
      )
