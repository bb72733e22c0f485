-- ===== src/Examples/Stored.antt =====
-- Files of instruments, headers of messages and a configuration.
use sample.Base.{ℕ, ◌≤◌, true, String, [], ◌∷◌, ◌<>◌, none, some, ◌>>=◌, ◌≡◌, ◌≢◌, ◌↔◌, refl, arith}
use sample.Samples.{end, libraries_of}
use sample.Core.Messages.{balance_report_message, struct_size, construct, message_size}
use sample.Core.Messages.Sizes.{struct_of, IsExact, headers}
use sample.Core.Instruments.{Failure, split, load, get_instrument}
use sample.Core.Instruments.Pieces.{is_free-Free, terminated}
use sample.Core.Instruments.Rows.{Row, Proper, text_of, enter, last_id, load_stops}
use sample.Core.Instruments.Known.{instrument_or, load_known}
use sample.Base.Decimal.{to_string}
use sample.Base.Dict
use sample.Base.Int.{pos}
use sample.Core.Enums.{buy, OrderStatus, ExecType}
use sample.Core.Records.{ExecutionReport}
use sample.Core.Instruments.{instrument_of, signed_number}
use sample.Core.Instruments.Numbers.{to_string-Free}
use sample.Core.Printing.{report_text}
use sample.Core.Printing.Items.{report_items, split-report_text}
use sample.External.{Libraries}
use sample.Ws
use sample.Http
use sample.Trade.{ws_action, http_action}
use sample.Trade.Link.{Env, connect}
use sample.Exchange.{Exchange, get_trade_service}
use sample.Exchange.Configured.{with_parameters, configured}

headers_example :
    (struct_of (construct balance_report_message).type ≡ some balance_report_message)
    × (struct_size balance_report_message ≤ message_size)
    × (struct_size balance_report_message ≤ (construct balance_report_message).size)
    × ((construct balance_report_message).size ≤ message_size)
    × (IsExact balance_report_message ↔ (balance_report_message ≢ balance_report_message))
headers_example = headers balance_report_message

abbrev filled_report : ExecutionReport ℕ
filled_report = record {
  order_id = "x1";
  cl_order_id = "c1";
  orig_cl_order_id = "";
  exchange = none;
  symbol = "BTCUSD";
  order_type = none;
  side = some buy;
  price = some 9500;
  quantity = some 10;
  order_status = some OrderStatus.filled;
  cum_quantity = none;
  cum_value = none;
  average_price = none;
  last_exec_price = none;
  last_exec_quantity = none;
  create_time = none;
  transaction_time = none;
  event_time = none;
  exec_type = some ExecType.trade;
  fee = none;
  fee_currency = "";
  trade_id = "";
}

split-report_text_example :
    (report_text to_string filled_report >>= λ t. some (split t b','))
    ≡ report_items to_string filled_report
split-report_text_example =
    split-report_text to_string filled_report (λ n. to_string-Free b',' n (omega arith))
      (
        is_free-Free b',' "BTCUSD" refl,
        (is_free-Free b',' "x1" refl, (is_free-Free b',' "c1" refl, tt)),
      )

abbrev btc : Row
btc = record { id = 1; symbol = "BTCUSD" }

abbrev eth : Row
eth = record { id = 7; symbol = "ETHUSD" }

btc-Proper : Proper btc
btc-Proper = record {
  id_fits = omega arith;
  has_symbol = refl;
  no_comma = is_free-Free b',' "BTCUSD" refl;
  one_line = is_free-Free b'\n' "BTCUSD" refl;
}

eth-Proper : Proper eth
eth-Proper = record {
  id_fits = omega arith;
  has_symbol = refl;
  no_comma = is_free-Free b',' "ETHUSD" refl;
  one_line = is_free-Free b'\n' "ETHUSD" refl;
}

load_known_example :
    ((load (some (text_of (btc ∷ eth ∷ []))) []).1 ≡ none)
    × ((symbol : String)
        → (get_instrument symbol (load (some (text_of (btc ∷ eth ∷ []))) []).0).0
          ≡ instrument_or (get_instrument symbol []).0 symbol (last_id symbol (btc ∷ eth ∷ [])))
load_known_example = load_known (btc ∷ eth ∷ []) [] (btc-Proper, (eth-Proper, tt))

load_stops_example :
    load (some (text_of (btc ∷ []) <> terminated "\n" ("7" ∷ []) <> text_of (eth ∷ []))) []
    ≡ (enter (btc ∷ []) [], some Failure.undefined)
load_stops_example =
    load_stops (btc ∷ []) "7" (text_of (eth ∷ [])) [] (btc-Proper, tt) (is_free-Free b',' "7" refl)
      (is_free-Free b'\n' "7" refl)

abbrev set_up : Exchange ℕ ℕ
set_up = with_parameters "key" "secret" "api.phemex.com" "phemex.com"

abbrev lib : Libraries
lib = libraries_of "" end

abbrev surroundings : Env
surroundings = record {
  now = 0;
  auth_now = 0;
  named = true;
  ssl_error = 0;
  curl_ready = true;
  beast_version = "beast";
}

configured_example :
    let (t, out) = connect lib surroundings (get_trade_service set_up) in
    (t.api_key ≡ "key")
    × (t.secret_key ≡ "secret")
    × (t.host ≡ "api.phemex.com")
    × (t.ws_host ≡ "phemex.com")
    × (t.config ≡ set_up.trade.config)
    × (out
        ≡ ws_action (Ws.resolve "phemex.com" "443")
          ∷ http_action (Http.set_host_name "api.phemex.com")
          ∷ http_action (Http.resolve "api.phemex.com" "443")
          ∷ [])
configured_example = configured lib ℕ surroundings "key" "secret" "api.phemex.com" "phemex.com" refl

load_runs : load (some "1,BTCUSD\n 7,ETHUSD,x\n") [] ≡ (
  ("BTCUSD", instrument_of "BTCUSD" (pos 1)) ∷ ("ETHUSD", instrument_of "ETHUSD" (pos 7)) ∷ [],
  none,
)
unfolding load Dict.insert signed_number
load_runs = refl
