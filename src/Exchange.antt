-- ===== src/Exchange.antt =====
-- exchange_phemex/include/exchange-phemex/exchange-phemex.h: the exchange, which holds the two services
-- and the configuration. The trade service refers to the configuration of the exchange, so the model
-- keeps it there. `L` is a `TradeEventListener`, `M` is a `MarketDataEventListener *`.
pub mod Configured
use sample.Base.{ℕ, Bool, false, String, List, [], Option, none}
use sample.Base.Dict
use sample.Ws
use sample.Http
use sample.Trade.{Trade, Self}
use sample.Trade.Link.{register_listener}
use sample.Market.{Market}

pub record Exchange (L M : Type 0) : Type 0 where
  pub trade : Trade L
  pub market : Market M

-- The members of a new `TradeService`.
unfoldable pub new_trade : {L : Type 0} → Trade L
new_trade = record {
  host = "";
  api_key = "";
  secret_key = "";
  ws_host = "";
  config = [];
  listeners = [];
  ws_session = Ws.new_session;
  http_session = Http.new_session;
  need_reconnect = false;
  http_need_reconnect = false;
  last_heartbeat_time = 0;
  has_curl = false;
  id = 1000;
  auth_id = none;
}

-- The members of a new `MarketDataService`; it has no session before `Connect`.
unfoldable pub new_market : {M : Type 0} → Market M
new_market = record {
  listeners = [];
  need_reconnect = false;
  symbol_to_id = [];
  last_heartbeat_time = 0;
  id = 1;
  snapshot_map = [];
}

module _ {L M : Type 0} where
  -- `Exchange`
  unfoldable pub new_exchange : Exchange L M
  unfolding new_trade new_market
  new_exchange = record { trade = new_trade; market = new_market }

  -- `GetConfig().SetParameter(name, value)`
  unfoldable pub set_parameter : (name value : String) → Exchange L M → Exchange L M
  set_parameter name value e = record e {
    trade = record e.trade { config = Dict.insert name value e.trade.config };
  }

  -- `GetTradeService` and `GetMarketDataService`
  unfoldable pub get_trade_service : Exchange L M → Trade L
  get_trade_service e = e.trade

  unfoldable pub get_market_data_service : Exchange L M → Market M
  get_market_data_service e = e.market

  -- `GetTradeService()->RegisterListener(listener)`, and that of the market data.
  unfoldable pub register_trade_listener : L → Exchange L M → Exchange L M
  unfolding register_listener
  register_trade_listener l e = record e { trade = register_listener l e.trade }
