-- ===== src/Examples/Replaced.antt =====
-- `TradeService` at work: a read of its connected session fails while a write is outstanding, then
-- the write fails too.
use sample.Base.{◌+◌, ℕ, true, false, String, List, [], ◌∷◌, ◌++◌, Option, ◌≡◌, refl, is_some, All}
use sample.Base.Int.{ℤ}
use sample.External.{Libraries}
use sample.Samples.{end, libraries_of, value, some-value}
use sample.Asio.{is_connected}
use sample.Ws
use sample.Ws.Runtime.{Op, resolving, connecting, ssl_shaking, ws_shaking, reading, writing, Result}
use sample.Http
use sample.Base.Dict
use sample.Exchange.{new_trade}
use sample.Trade.{Effect, ws_send}
use sample.Trade.Link.{
  Env, connect, read_config, open_ws, open_http, send_auth, beat, on_connect, reconnect,
  http_reconnect, on_error,
}
use sample.Trade.Upkeep.{auth_text}
use sample.Trade.Program.{
  ends, Program, WsLine, does, ws_called, all_called, after_poll, after_ws, after_http,
}
use sample.Trade.Program.Steps.{
  Steps, Step, stays, goes_on, passes, polls_ws, begun, Reach, start, later, ws_line, http_line,
  with_ws, ws_handled, ws_calls,
}
use sample.Trade.Program.Runs.{WsReached, HttpReached}
use sample.Trade.Program.Invariant.{sessions_run}
use sample.Trade.Program.Replaced.{late_error}
use sample.Trade.Program.Stopped.{stays_stopped}
use sample.Trade.Program.Recovery.{connects_again}
use sample.Trade.Program.Linked.{keeps_linked}
use sample.Ws.Runtime.Phases.{setups, arrived}
use sample.Ws.Runtime.Alive.{reads}

abbrev lib : Libraries
lib = libraries_of "" end

abbrev config : List (String × String)
config =
    ("apikey", "k")
    ∷ ("secretkey", "s")
    ∷ ("host", "api.phemex.com")
    ∷ ("wshost", "phemex.com")
    ∷ []

-- A clock at which no heartbeat is due.
abbrev env : Env
env = record {
  now = 20000;
  auth_now = 20000;
  named = true;
  ssl_error = 0;
  curl_ready = true;
  beast_version = "beast";
}

abbrev fine : Result
fine = record { code = 0; named = true; ssl_error = 0; received = "" }

abbrev broken : Result
broken = record { code = 32; named = true; ssl_error = 0; received = "" }

abbrev told : Op → Result → List Op → List Op → Program ℕ → Option (Effect ℕ ℤ)
told op c before rest p =
    all_called lib (ws_called lib) (ws_calls (ws_line p) op c)
      (with_ws (ws_handled (ws_line p) before op rest c) p).service

abbrev polled : Program ℕ → List Op → Op → List Op → Result → Program ℕ
polled p before op rest c = after_poll lib env (
    ends 0 (
      does (with_ws (ws_handled (ws_line p) before op rest c) p)
        (value (told op c before rest p) (p.service, []))))

polled-Step :
    (p : Program ℕ) (before : List Op) (op : Op) (rest : List Op) (c : Result)
    → p.stopped ≡ false
    → p.ws_outstanding ≡ before ++ op ∷ rest
    → is_some (told op c before rest p) ≡ true
    → Step lib p (polled p before op rest c)
polled-Step p before op rest c runs is ok =
    polls_ws before op rest c 0 env (value (told op c before rest p) (p.service, [])) runs is
      (some-value (told op c before rest p) (p.service, []) ok)

abbrev named : Program ℕ
named = polled (begun lib config env) [] resolving [] fine

abbrev joined : Program ℕ
joined = polled named [] connecting [] fine

abbrev shaken : Program ℕ
shaken = polled joined [] ssl_shaking [] fine

unfoldable opened : Program ℕ
opened = polled shaken [] ws_shaking [] fine

opened-Reach : Reach lib opened
unfolding opened connect read_config new_trade open_ws open_http send_auth ws_send after_poll ends
    after_ws after_http beat all_called ws_called on_connect Ws.new_session Ws.add_listener
    Ws.connect Ws.on_resolve Ws.on_connected Ws.on_ssl_handshake Ws.on_handshake Ws.check_send
    Ws.check_read Ws.send Http.new_session Http.add_listener Http.connect
opened-Reach =
    later
      (later
        (later
          (later (start config env)
            (polled-Step (begun lib config env) [] resolving [] fine refl refl refl))
          (polled-Step named [] connecting [] fine refl refl refl))
        (polled-Step joined [] ssl_shaking [] fine refl refl refl))
      (polled-Step shaken [] ws_shaking [] fine refl refl refl)

abbrev auth : String
auth = auth_text lib {L = ℕ} env (read_config lib (record new_trade { config = config }))

-- The read fails, and the session is replaced.
unfoldable parted : Program ℕ
parted = polled opened [] reading (writing auth ∷ []) broken

parted-Reach : Reach lib parted
unfolding parted reconnect on_error Ws.handle_read Ws.fail opened connect read_config new_trade
    open_ws open_http send_auth ws_send after_poll ends after_ws after_http beat all_called
    ws_called on_connect Ws.new_session Ws.add_listener Ws.connect Ws.on_resolve Ws.on_connected
    Ws.on_ssl_handshake Ws.on_handshake Ws.check_send Ws.check_read Ws.send Http.new_session
    Http.add_listener Http.connect
parted-Reach =
    later opened-Reach (polled-Step opened [] reading (writing auth ∷ []) broken refl refl refl)

sessions_run_example :
    WsReached lib "phemex.com" (ws_line parted)
    × HttpReached lib "api.phemex.com" (http_line parted)
    × All (WsReached lib "phemex.com") parted.old_ws
    × All (HttpReached lib "api.phemex.com") parted.old_http
unfolding Dict.get_or_insert parted reconnect on_error Ws.handle_read Ws.fail opened connect
    read_config new_trade open_ws open_http send_auth ws_send after_poll ends after_ws after_http
    beat all_called ws_called on_connect Ws.new_session Ws.add_listener Ws.connect Ws.on_resolve
    Ws.on_connected Ws.on_ssl_handshake Ws.on_handshake Ws.check_send Ws.check_read Ws.send
    Http.new_session Http.add_listener Http.connect
sessions_run_example = sessions_run parted-Reach

parted_runs : parted.stopped ≡ false
unfolding parted reconnect on_error Ws.handle_read Ws.fail opened connect read_config new_trade
    open_ws open_http send_auth ws_send after_poll ends after_ws after_http beat all_called
    ws_called on_connect Ws.new_session Ws.add_listener Ws.connect Ws.on_resolve Ws.on_connected
    Ws.on_ssl_handshake Ws.on_handshake Ws.check_send Ws.check_read Ws.send Http.new_session
    Http.add_listener Http.connect
parted_runs = refl

-- It does so once more.
connects_again_example :
    (q : Program ℕ) × Steps lib parted q × (is_connected q.service.ws_session.state ≡ true)
connects_again_example = connects_again lib parted-Reach parted_runs

-- OpenSSL refuses the host of the HTTP session, and the name of the websocket host is not resolved.
abbrev refusing : Env
refusing = record env { named = false }

unfoldable spent : Program ℕ
spent =
    let p = begun lib config refusing in
    after_poll lib refusing (
      ends 0 (
        does (with_ws (ws_handled (ws_line p) [] resolving [] broken) p)
          (value (told resolving broken [] [] p) (p.service, []))))

spent-Reach : Reach lib spent
unfolding spent reconnect on_error Ws.fail connect read_config new_trade open_ws open_http send_auth
    ws_send after_poll ends after_ws after_http beat all_called ws_called on_connect Ws.new_session
    Ws.add_listener Ws.connect Ws.on_resolve Ws.check_send Ws.send Http.new_session
    Http.add_listener Http.connect Http.fail http_reconnect
spent-Reach =
    let p = begun lib config refusing in
    let e = value (told resolving broken [] [] p) (p.service, []) in
    later (start config refusing) (
      polls_ws [] resolving [] broken 0 refusing e refl refl
        (some-value (told resolving broken [] [] p) (p.service, []) refl))

spent_stopped : spent.stopped ≡ true
unfolding spent reconnect on_error Ws.fail connect read_config new_trade open_ws open_http send_auth
    ws_send after_poll ends after_ws after_http beat all_called ws_called on_connect Ws.new_session
    Ws.add_listener Ws.connect Ws.on_resolve Ws.check_send Ws.send Http.new_session
    Http.add_listener Http.connect Http.fail http_reconnect
spent_stopped = refl

-- The reconnection has begun another resolution, and then `RunOnce` is called.
stays_stopped_example :
    let q = after_poll lib env (ends 0 spent) in
    (q.stopped ≡ true)
    × (q.ws_written ≡ spent.ws_written)
    × (q.http_written ≡ spent.http_written)
    × (q.service.ws_session.state ≡ spent.service.ws_session.state)
stays_stopped_example = stays_stopped lib spent-Reach spent_stopped (goes_on stays (passes 0 env))

-- The new session connects.
abbrev named_again : Program ℕ
named_again = polled parted [] resolving [] fine

abbrev joined_again : Program ℕ
joined_again = polled named_again [] connecting [] fine

abbrev shaken_again : Program ℕ
shaken_again = polled joined_again [] ssl_shaking [] fine

unfoldable rejoined : Program ℕ
rejoined = polled shaken_again [] ws_shaking [] fine

rejoined-Reach : Reach lib rejoined
unfolding rejoined parted reconnect on_error Ws.handle_read Ws.fail opened connect read_config
    new_trade open_ws open_http send_auth ws_send after_poll ends after_ws after_http beat
    all_called ws_called on_connect Ws.new_session Ws.add_listener Ws.connect Ws.on_resolve
    Ws.on_connected Ws.on_ssl_handshake Ws.on_handshake Ws.check_send Ws.check_read Ws.send
    Http.new_session Http.add_listener Http.connect
rejoined-Reach =
    later
      (later
        (later (later parted-Reach (polled-Step parted [] resolving [] fine refl refl refl))
          (polled-Step named_again [] connecting [] fine refl refl refl))
        (polled-Step joined_again [] ssl_shaking [] fine refl refl refl))
      (polled-Step shaken_again [] ws_shaking [] fine refl refl refl)

rejoined_state : is_connected rejoined.service.ws_session.state ≡ true
unfolding rejoined parted reconnect on_error Ws.handle_read Ws.fail opened connect read_config
    new_trade open_ws open_http send_auth ws_send after_poll ends after_ws after_http beat
    all_called ws_called on_connect Ws.new_session Ws.add_listener Ws.connect Ws.on_resolve
    Ws.on_connected Ws.on_ssl_handshake Ws.on_handshake Ws.check_send Ws.check_read Ws.send
    Http.new_session Http.add_listener Http.connect
rejoined_state = refl

keeps_linked_example :
    let s = rejoined.service.ws_session in
    (setups rejoined.ws_outstanding + arrived s.state ≡ 1)
    × (reads rejoined.ws_outstanding ≡ arrived s.state)
keeps_linked_example = keeps_linked lib rejoined-Reach

-- The session that just connected is replaced.
late_error_example :
    let o : WsLine = ws_handled (ws_line opened) [] reading (writing auth ∷ []) broken in
    (q : Program ℕ) × Step lib rejoined q
    × (q.old_ws ≡ ws_line rejoined ∷ ws_handled o [] (writing auth) [] broken ∷ [])
    × (is_connected q.service.ws_session.state ≡ false)
unfolding rejoined parted reconnect on_error Ws.handle_read Ws.fail opened connect read_config
    new_trade open_ws open_http send_auth ws_send after_poll ends after_ws after_http beat
    all_called ws_called on_connect Ws.new_session Ws.add_listener Ws.connect Ws.on_resolve
    Ws.on_connected Ws.on_ssl_handshake Ws.on_handshake Ws.check_send Ws.check_read Ws.send
    Http.new_session Http.add_listener Http.connect
late_error_example =
    let o : WsLine = ws_handled (ws_line opened) [] reading (writing auth ∷ []) broken in
    late_error lib [] o [] [] (writing auth) [] broken env rejoined-Reach refl refl refl
