-- ===== src/Trade.antt =====
-- exchange_phemex/include/exchange-phemex/TradeService.hpp: the state of `TradeService`, and what it
-- does outside of it. `L` is a `TradeEventListener`, `F` is `double`. Times are milliseconds below
-- 2^63 - 29000 and ids stay below 2^63, so the sums of the program do not wrap.
pub mod Words
pub mod Sending
pub mod Hex
pub mod Orders
pub mod Link
pub mod Reports
pub mod Server
pub mod Signing
pub mod Ids
pub mod Upkeep
pub mod Notices
pub mod Messages
pub mod Answers
pub mod Rest
pub mod Calls
pub mod Vocabulary
pub mod Program
use sample.Base.{ℕ, Bool, false, String, List, [], ◌++◌, Option, none, map}
use sample.Core.Records.{ExecutionReport, BalanceReport}
use sample.Ws
use sample.Http

-- The listener that both sessions have: the service itself.
pub data Self : Type 0 where
  this : Self

-- The data members. `ws_session` and `http_session` are the current sessions: one that was replaced
-- is reached no more by the service. `auth_id` is `none` until it is first assigned.
pub record Trade (L : Type 0) : Type 0 where
  pub host : String
  pub api_key : String
  pub secret_key : String
  pub ws_host : String
  pub config : List (String × String)
  pub listeners : List L
  pub ws_session : Ws.Session Self
  pub http_session : Http.Session Self
  pub need_reconnect : Bool
  pub http_need_reconnect : Bool
  pub last_heartbeat_time : ℕ
  pub has_curl : Bool
  pub id : ℕ
  pub auth_id : Option ℕ

-- A call of libcurl that performs a request.
pub record CurlRequest : Type 0 where
  pub url : String
  pub headers : List String
  pub custom_request : Option String
  pub post_fields : Option String

-- What the service does outside of itself, in order. Logging is left out.
pub data Output (L F : Type 0) : Type 0 where
  ws_action : Ws.Action Self → Output L F
  http_action : Http.Action Self → Output L F
  curl_perform : CurlRequest → Output L F
  on_execution_report : L → ExecutionReport F → Output L F
  on_balance_report : L → BalanceReport F → Output L F

abbrev pub Effect : Type 0 → Type 0 → Type 0
Effect L F = Trade L × List (Output L F)

module _ {L F : Type 0} where
  -- One step after another.
  infixl 3 ◌|>◌
  abbrev pub ◌|>◌ : Effect L F → (Trade L → Effect L F) → Effect L F
  (t, out) |> f = let (t', more) = f t in (t', out ++ more)

  -- `ws_session->send(text)`
  unfoldable pub ws_send : String → Trade L → Effect L F
  ws_send text t =
      let (s, actions) = Ws.send text t.ws_session in
      (record t { ws_session = s }, map ws_action actions)

  -- `http_session_->send(request)`
  unfoldable pub http_send : Http.Request → Trade L → Effect L F
  http_send request t =
      let (s, actions) = Http.send request t.http_session in
      (record t { http_session = s }, map http_action actions)
