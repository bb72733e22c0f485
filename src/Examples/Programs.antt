-- ===== src/Examples/Programs.antt =====
-- `MarketDataService` at work: connected, subscribed, with a book, and with a write that fails.
use sample.Base.{false, ℕ, true, String, List, [], ◌∷◌, ◌++◌, Option, ◌≡◌, refl, is_some}
use sample.Base.Int.{ℤ, pos}
use sample.Base.Decimal.{to_string, replace_hash}
use sample.External.{Rapidjson}
use sample.Samples.{Json, text, number, end, item, field, json_of, integers, value, some-value}
use sample.Market.Link.{ws_send}
use sample.Asio.{is_connected, sending}
use sample.Ws
use sample.Ws.Runtime.{Op, resolving, connecting, ssl_shaking, ws_shaking, reading, writing, Result}
use sample.Market.Link.{
  this, Effect, run_once, connect, send_heartbeat, on_connect, heart_beat, book_sub, trade_sub,
}
use sample.Exchange.{new_market}
use sample.Market.Program.{
  Program, does, poll, called, all_called, completed, Step, polls, passes, begun, Reach, start,
  later, stays, goes_on,
}
use sample.Market.Program.Protocol.{Traffic}
use sample.Market.Program.Runs.{run}
use sample.Market.Program.Traffic.{implements_run, keeps_protocol}
use sample.Market.Program.Silence.{silenced}
use sample.Market.Program.Failure.{never_connects}

-- A snapshot with a bid and an ask.
abbrev level : ℕ → ℕ → Json
level price qty = item (number (pos price)) (item (number (pos qty)) end)

abbrev snapshot : Json
snapshot =
    field "book"
      (field "asks" (item (level 1000100 5) end) (field "bids" (item (level 1000000 7) end) end))
      (field "symbol" (text "BTCUSD")
        (field "timestamp" (number (pos 12000000)) (field "type" (text "snapshot") end)))

abbrev J : Rapidjson
J = json_of "book" snapshot

-- An operation that succeeds, and one that fails.
abbrev fine : Result
fine = record { code = 0; named = true; ssl_error = 0; received = "" }

abbrev broken : Result
broken = record { code = 32; named = true; ssl_error = 0; received = "" }

abbrev told : Op → Result → Program ℕ → Option (Effect ℕ ℤ)
told op c p = poll J integers 100 op c p.service

-- `RunOnce`, early enough that no heartbeat is due.
abbrev polled : Program ℕ → List Op → Op → List Op → Result → Program ℕ
polled p before op rest c =
    does (completed J integers p before op rest c)
      (run_once (λ _. value (told op c p) (p.service, [])) 200 p.service)

polled-Step :
    (p : Program ℕ) (before : List Op) (op : Op) (rest : List Op) (c : Result)
    → p.outstanding ≡ before ++ op ∷ rest
    → is_some (told op c p) ≡ true
    → Step J integers p (polled p before op rest c)
polled-Step p before op rest c is ok =
    polls before op rest c 100 200 (value (told op c p) (p.service, [])) is
      (some-value (told op c p) (p.service, []) ok)

abbrev first_beat : Program ℕ
first_beat =
    let p : Program ℕ = begun J integers in does p (run_once {F = ℤ} (λ s. (s, [])) 30000 p.service)

unfoldable opened : Program ℕ
opened =
    polled
      (polled (polled (polled first_beat [] resolving [] fine) [] connecting [] fine) [] ssl_shaking
        [] fine)
      [] ws_shaking [] fine

opened-Reach : Reach J integers opened
unfolding opened connect new_market run_once Ws.new_session Ws.add_listener Ws.connect Ws.on_resolve
    Ws.on_connected Ws.on_ssl_handshake Ws.on_handshake Ws.check_send Ws.send send_heartbeat
    on_connect poll all_called called ws_send
opened-Reach =
    later
      (later
        (later (later (later start (passes 30000)) (polled-Step _ [] resolving [] fine refl refl))
          (polled-Step _ [] connecting [] fine refl refl))
        (polled-Step _ [] ssl_shaking [] fine refl refl))
      (polled-Step _ [] ws_shaking [] fine refl refl)

abbrev beat_1 : String
beat_1 = replace_hash heart_beat (to_string 1)

abbrev subscribed : List String
subscribed =
    beat_1 ∷ replace_hash book_sub (to_string 100) ∷ replace_hash trade_sub (to_string 101) ∷ []

implements_run_example :
    (sent : List String) × Ws.Runtime.Reach this "phemex.com" "/ws" (run opened sent)
    × (sent ≡ opened.written ++ opened.service.ws_session.write_queue)
implements_run_example = implements_run J integers opened-Reach

keeps_protocol_example : Traffic true 2 subscribed
unfolding opened connect new_market run_once Ws.new_session Ws.add_listener Ws.connect Ws.on_resolve
    Ws.on_connected Ws.on_ssl_handshake Ws.on_handshake Ws.check_send Ws.send send_heartbeat
    on_connect poll all_called called ws_send
keeps_protocol_example = keeps_protocol J integers opened-Reach

-- A call of `RunOnce` in which a heartbeat is due.
abbrev after_pass : Program ℕ → Program ℕ
after_pass p = does p (run_once {F = ℤ} (λ s. (s, [])) 60000 p.service)

silenced_example :
    let p = after_pass (polled opened (reading ∷ []) (writing beat_1) [] broken) in
    (p.written ≡ opened.written) × (p.service.ws_session.sending_state ≡ sending)
unfolding opened connect new_market run_once Ws.new_session Ws.add_listener Ws.connect Ws.on_resolve
    Ws.on_connected Ws.on_ssl_handshake Ws.on_handshake Ws.check_send Ws.send send_heartbeat
    on_connect poll all_called called ws_send Ws.handle_tx
silenced_example =
    silenced J integers (reading ∷ []) beat_1 [] broken 100 200 _ opened-Reach refl refl refl
      (goes_on stays (passes 60000))

-- The host is not found.
never_connects_example :
    is_connected (after_pass (polled first_beat [] resolving [] broken)).service.ws_session.state
    ≡ false
unfolding connect new_market run_once Ws.new_session Ws.add_listener Ws.connect Ws.on_resolve
    Ws.check_send Ws.send send_heartbeat poll all_called called ws_send
never_connects_example =
    never_connects J integers [] resolving [] broken 100 200 _ (later start (passes 30000)) refl
      refl refl refl (goes_on stays (passes 60000))
