-- ===== src/Trade/Reports.antt =====
-- What `TradeService` makes of a message: `onMessage` on the websocket, `onHttpMessage` on HTTP.
-- `none` is a failed assertion of rapidjson, or a read of `auth_id_` before it is assigned.
use text.Mathlib.Text.{find?}
use sample.Base.{
  ℕ, zero, suc, ◌+◌, Bool, String, List, [], ◌++◌, Option, none, some, map, if◌then◌else◌, ◌>>=◌,
  is_some, str_eq, ◌==◌,
}
use sample.Base.Int.{pos, ◌==ℤ◌}
use sample.External.{Rapidjson, Doubles}
use sample.Core.Enums.{phemex}
use sample.Core.Records.{ExecutionReport, BalanceReport}
use sample.Trade.{Trade, Output, on_execution_report, on_balance_report, Effect}
use sample.Trade.Words.{to_side, to_order_status, to_exec_type}
use sample.Trade.Link.{send_subscribe}

-- `ExecutionReport er;`: the texts are empty, the other members are indeterminate.
abbrev pub new_execution_report : (F : Type 0) → ExecutionReport F
new_execution_report F = record {
  order_id = "";
  cl_order_id = "";
  orig_cl_order_id = "";
  exchange = none;
  symbol = "";
  order_type = none;
  side = none;
  price = none;
  quantity = none;
  order_status = none;
  cum_quantity = none;
  cum_value = none;
  average_price = none;
  last_exec_price = none;
  last_exec_quantity = none;
  create_time = none;
  transaction_time = none;
  event_time = none;
  exec_type = none;
  fee = none;
  fee_currency = "";
  trade_id = "";
}

-- `BalanceReport br;`, with the two members that the program assigns.
abbrev pub balance_of : {F : Type 0} → String → F → BalanceReport F
balance_of currency total = record {
  currency = currency;
  total_balance = some total;
  available_balance = none;
  frozen_balance = none;
}

-- `message.find(part) != std::string::npos`
abbrev pub contains : String → String → Bool
contains message part = is_some (find? message part)

module _ (J : Rapidjson) (D : Doubles) where
  open J use {Value, parse, has_member, member, size, element, get_int64, get_uint64, get_string}
  open D use {Double, of_int, div, neg}

  abbrev pub text_of : Value → String → Option String
  text_of v name = member v name >>= get_string

  abbrev pub number_of : Value → String → Option ℕ
  number_of v name = member v name >>= get_uint64

  -- One account of "accounts": `GetUint64() / 1000000000.`
  unfoldable pub account_report : Value → Option (BalanceReport Double)
  account_report a = do
    currency ← text_of a "currency"
    balance ← number_of a "accountBalanceEv"
    some (balance_of currency (div (of_int (pos balance)) (of_int (pos 1000000000))))

  -- One order of "orders".
  unfoldable pub order_report : Value → Option (ExecutionReport Double)
  order_report o = do
    exec_status ← text_of o "execStatus"
    cl_order_id ← text_of o "clOrdID"
    order_id ← text_of o "orderID"
    symbol ← text_of o "symbol"
    exec_qty ← number_of o "execQty"
    exec_price ← number_of o "execPriceEp"
    cum_qty ← number_of o "cumQty"
    order_status ← text_of o "ordStatus"
    side ← text_of o "side"
    some (record (new_execution_report Double) {
      exec_type = some (to_exec_type exec_status);
      cl_order_id = cl_order_id;
      order_id = order_id;
      symbol = symbol;
      last_exec_quantity = some (of_int (pos exec_qty));
      last_exec_price = some (div (of_int (pos exec_price)) (of_int (pos 10000)));
      cum_quantity = some (of_int (pos cum_qty));
      order_status = some (to_order_status order_status);
      side = some (to_side side);
      exchange = some phemex;
    })

  -- One position of "positions": a short one counts as negative.
  unfoldable pub position_report : Value → Option (BalanceReport Double)
  position_report p = do
    symbol ← text_of p "symbol"
    held ← number_of p "size"
    side ← text_of p "side"
    let total = of_int (pos held)
    some (balance_of symbol (if str_eq side "Sell" then neg total else total))

  -- The answer to an order over HTTP.
  unfoldable pub answer_report : Value → Option (ExecutionReport Double)
  answer_report v = do
    exec_status ← text_of v "execStatus"
    cl_order_id ← text_of v "clOrdID"
    order_id ← text_of v "orderID"
    symbol ← text_of v "symbol"
    order_status ← text_of v "ordStatus"
    some (record (new_execution_report Double) {
      exec_type = some (to_exec_type exec_status);
      cl_order_id = cl_order_id;
      order_id = order_id;
      symbol = symbol;
      exchange = some phemex;
      order_status = some (to_order_status order_status);
    })

  module _ {L : Type 0} where
    -- A loop over an array, of which `left` rounds are left; each round calls every listener.
    unfoldable pub each_report :
        {R : Type 0}
        → (Value → Option R)
        → (L → R → Output L Double)
        → List L
        → Value
        → (left i : ℕ) → Option (List (Output L Double))
    each_report read call ls values zero i = some []
    each_report read call ls values (suc left) i = do
      v ← element values i
      report ← read v
      more ← each_report read call ls values left (i + 1)
      some (map (λ l. call l report) ls ++ more)

    -- `if (doc.HasMember(name)) { for (…) … }`
    unfoldable pub reports :
        {R : Type 0}
        → (name : String) → (Value → Option R)
        → (L → R → Output L Double)
        → List L
        → Value
        → Option (List (Output L Double))
    unfolding each_report
    reports name read call ls doc = has_member doc name >>= λ present.
        if present
        then (member doc name >>= λ values.
            size values >>= λ n. each_report read call ls values n 0)
        else some []

    -- The first block of `onMessage`: the reply to the authentication starts the subscription.
    unfoldable pub on_reply : Value → Trade L → Option (Effect L Double)
    on_reply doc t = has_member doc "id" >>= λ present.
        if present
        then ((member doc "id" >>= get_int64) >>= λ id. t.auth_id >>= λ auth_id.
            some (if id ==ℤ pos auth_id then send_subscribe t else (t, [])))
        else some (t, [])

    unfoldable pub on_message : String → Trade L → Option (Effect L Double)
    unfolding on_reply reports
    on_message msg t = do
      let doc = parse msg
      (t', sent) ← on_reply doc t
      accounts ← reports "accounts" account_report on_balance_report t'.listeners doc
      orders ← reports "orders" order_report on_execution_report t'.listeners doc
      positions ← reports "positions" position_report on_balance_report t'.listeners doc
      some (t', sent ++ accounts ++ orders ++ positions)

    -- The part of `onHttpMessage` behind its two searches of the text.
    unfoldable pub on_answer : Value → Trade L → Option (List (Output L Double))
    on_answer doc t = has_member doc "code" >>= λ has_code.
        if has_code
        then (number_of doc "code" >>= λ answer.
            if answer == 0
            then (member doc "data" >>= λ v. has_member v "execStatus" >>= λ executed.
                if executed
                then (answer_report v >>= λ report.
                    some (map (λ l. on_execution_report l report) t.listeners))
                else some [])
            else (text_of doc "msg" >>= λ msg. some []))
        else some []

    unfoldable pub on_http_message : String → Trade L → Option (Effect L Double)
    unfolding on_answer
    on_http_message message t =
        if contains message "\"book\":"
        then some (t, [])
        else if contains message "\"code\": \""
        then some (t, [])
        else (on_answer (parse message) t >>= λ out. some (t, out))
