-- ===== src/Market.antt =====
-- exchange_phemex/include/exchange-phemex/MarketDataService.hpp: the state of `MarketDataService`.
-- `L` is a `MarketDataEventListener *`, `F` is `double`. Times are milliseconds below 2^63 - 29000 and
-- ids stay below 2^63, so the sums of the program do not wrap.
pub mod Book
pub mod Feed
pub mod Changes
pub mod Books
pub mod Publish
pub mod Trades
pub mod Link
pub mod Upkeep
pub mod Totality
pub mod Whole
pub mod Kept
pub mod Program
use sample.Base.{ℕ, Bool, String, List}
use sample.Base.Int.{ℤ}
use sample.Levels.{Levels}
use sample.Core.Records.{OrderBook, FeedTrade}

-- `snapshot`
pub record Snapshot : Type 0 where
  pub bids : Levels
  pub asks : Levels

-- The data members, without the socket.
pub record Market (L : Type 0) : Type 0 where
  pub listeners : List L
  pub need_reconnect : Bool
  pub symbol_to_id : List (String × ℤ)
  pub last_heartbeat_time : ℕ
  pub id : ℕ
  pub snapshot_map : List (String × Snapshot)

-- What the service does outside of itself.
pub data Output (L F : Type 0) : Type 0 where
  on_order_book : L → OrderBook F → Output L F
  on_trade : L → FeedTrade F → Output L F
