-- ===== src/Examples/Messages.antt =====
-- Messages on the websocket of the trade service, and its upkeep.
use sample.Base.{ℕ, ◌+◌, ◌≤◌, true, false, List, [], ◌∷◌, ◌∷ʳ◌, some, ◌≡◌, refl}
use sample.Base.Int.{ℤ, pos}
use sample.Base.Decimal.{to_string, replace_hash}
use sample.External.{Rapidjson, Libraries}
use sample.Samples.{
  Json, text, number, end, item, field, json_of, integers, libraries_of, value, some-value,
}
use sample.Ws
use sample.Trade.{Trade, Effect}
use sample.Base.{◌++◌}
use sample.Trade.Link.{send_auth, Env, send_subscribe, send_heartbeat, run_once}
use sample.Trade.Reports.{account_report, position_report, each_report, on_reply, on_message}
use sample.Trade.Reports.{on_http_message, answer_report}
use sample.Trade.Answers
use sample.Trade.Answers.{on_http_message-Answered}
use sample.Http
use sample.Trade.Messages.{Heard, on_message-Heard}
use sample.Trade.Ids.{subscribes_twice}
use sample.Trade.Upkeep.{run_once_lem, auth_text, ping, book_request}
use sample.Market.Link
use sample.Market.Link.{Service}
use sample.Market.Upkeep.{market_run_once_lem}
use sample.Examples.Orders.{service}

abbrev accounts_doc : Json
accounts_doc =
    field "accounts"
      (item (field "currency" (text "BTC") (field "accountBalanceEv" (number (pos 5000000000)) end))
        end)
      (field "id" (number (pos 1001)) end)

abbrev position : Json
position =
    field "symbol" (text "BTCUSD") (field "size" (number (pos 3)) (field "side" (text "Sell") end))

abbrev J : Rapidjson
J = json_of "m" (field "positions" (item position end) accounts_doc)

abbrev lib : Libraries
lib = libraries_of "m" accounts_doc

abbrev nothing : Effect ℕ ℤ
nothing = (service, [])

unfoldable heard : Effect ℕ ℤ
heard = value (on_message J integers "m" service) nothing

on_message-Heard_example : Heard J integers "m" service heard.0 heard.1
unfolding heard on_message each_report account_report position_report send_subscribe
on_message-Heard_example =
    on_message-Heard J integers "m" service
      (some-value (on_message J integers "m" service) nothing refl)

abbrev both : List ℕ
both = 1 ∷ 2 ∷ []

abbrev env : Env
env = record {
  now = 30000;
  auth_now = 30000;
  named = true;
  ssl_error = 0;
  curl_ready = true;
  beast_version = "beast";
}

abbrev reply : ℕ → Json
reply id = field "id" (number (pos id)) end

subscribes_twice_example :
    let (a, _) = send_auth lib env service in
    let (u, _) : Effect ℕ ℤ = send_heartbeat env a in
    let (v, _) : Effect ℕ ℤ = send_subscribe u in
    (u.ws_session.write_queue
      ≡ service.ws_session.write_queue ++ auth_text lib env service ∷ ping 1002 ∷ [])
    × (on_reply lib.json integers (reply 1002) u ≡ some (send_subscribe u))
    × (on_reply lib.json integers (reply 1002) v ≡ some (send_subscribe v))
subscribes_twice_example =
    subscribes_twice lib env service (reply 1002) (reply 1002) (refl, refl) (refl, refl)

-- A poll that finds nothing to do.
abbrev quiet : Trade ℕ → Effect ℕ ℤ
quiet t = (t, [])

run_once_lem_example :
    let u = (run_once lib quiet env service).0 in
    (u.need_reconnect ≡ false)
    × (u.http_need_reconnect ≡ false)
    × (u.last_heartbeat_time ≡ 30000)
    × (30000 ≤ u.last_heartbeat_time + 29000)
    × (u.id ≡ 1003)
    × (u.ws_session.write_queue ≡ auth_text lib env service ∷ ping 1002 ∷ [])
    × (u.http_session.request_queue
        ≡ service.http_session.request_queue ++ book_request "api.phemex.com" env ∷ [])
run_once_lem_example = run_once_lem lib quiet env service

abbrev feed : Service ℕ
feed = record {
  market = record {
    listeners = 1 ∷ [];
    need_reconnect = true;
    symbol_to_id = [];
    last_heartbeat_time = 0;
    id = 1;
    snapshot_map = [];
  };
  ws_session = Ws.new_session;
}

abbrev idle : Service ℕ → Link.Effect ℕ ℤ
idle s = (s, [])

market_run_once_lem_example :
    let u = (Link.run_once idle 30000 feed).0 in
    (u.ws_session.write_queue
      ≡ feed.ws_session.write_queue ∷ʳ replace_hash Link.heart_beat (to_string 1))
    × (u.market.last_heartbeat_time ≡ 30000)
    × (30000 ≤ u.market.last_heartbeat_time + 29000)
    × (u.market.need_reconnect ≡ true)
market_run_once_lem_example = market_run_once_lem idle 30000 feed

abbrev answer_doc : Json
answer_doc = field "code" (number (pos 0)) (
    field "data"
      (field "execStatus" (text "New") (
        field "clOrdID" (text "c1") (
          field "orderID" (text "x1")
            (field "symbol" (text "BTCUSD") (field "ordStatus" (text "New") end)))))
      end)

abbrev answers : Rapidjson
answers = json_of "answer" answer_doc

unfoldable answered : Effect ℕ ℤ
answered = value (on_http_message answers integers "answer" service) nothing

on_http_message-Answered_example :
    (answered.0 ≡ service) × Answers.Heard answers integers "answer" both answered.1
unfolding answered on_http_message answer_report
on_http_message-Answered_example =
    on_http_message-Answered answers integers "answer" service answered.0 answered.1
      (some-value (on_http_message answers integers "answer" service) nothing refl)

abbrev begun : Trade ℕ
begun = record service { ws_session = Ws.new_session; http_session = Http.new_session }
