-- ===== src/Market/Book.antt =====
-- `MarketDataService::onMessage`: the loops that read the levels of a message into a side of the book.
use sample.Base.{ℕ, zero, suc, ◌+◌, [], Option, some, if◌then◌else◌}
use sample.Base.Int.{ℤ, pos, to_int, ◌==ℤ◌}
use sample.External.{Rapidjson}
pub use sample.Base.{◌>>=◌, >>=-eq-some, >>=-some}
use sample.Levels.{Levels}
use sample.Levels
use sample.Market.{Snapshot}

-- `s.bids[price] = qty;`
abbrev pub put : ℤ → ℤ → Levels → Levels
put price qty m = Levels.insert price qty m

-- The bids of an incremental message.
unfoldable pub change_bid : ℤ → ℤ → Levels → Levels
change_bid price qty m = if qty ==ℤ pos 0 then Levels.erase price m else Levels.insert price qty m

-- The asks: `s.asks[price] = qty` comes before the test as well.
unfoldable pub change_ask : ℤ → ℤ → Levels → Levels
change_ask price qty m =
    let n = Levels.insert price qty m in
    if qty ==ℤ pos 0 then Levels.erase price n else Levels.insert price qty n

module _ (J : Rapidjson) where
  open J use {Value, size, element, member, get_int64}

  -- `d[0].GetInt64()` and `d[1].GetInt64()`, each narrowed to `int`.
  unfoldable pub read_level : Value → Option (ℤ × ℤ)
  read_level d = do
    price ← get_int64 (← element d 0)
    qty ← get_int64 (← element d 1)
    some (to_int price, to_int qty)

  -- `for (i = …; i < n; i++)` over an array of levels: `left` rounds are left.
  unfoldable pub each_level :
      (ℤ → ℤ → Levels → Levels) → Value → (left i : ℕ) → Levels → Option Levels
  each_level change levels zero i m = some m
  each_level change levels (suc left) i m = do
    d ← element levels i
    (price, qty) ← read_level d
    each_level change levels left (i + 1) (change price qty m)

  unfoldable pub all_levels : (ℤ → ℤ → Levels → Levels) → Value → Levels → Option Levels
  all_levels change levels m = do n ← size levels; each_level change levels n 0 m

  -- Both sides of a message, the bids first, from the sides as they are.
  unfoldable pub take_sides :
      (for_bid for_ask : ℤ → ℤ → Levels → Levels) → Value → Snapshot → Option Snapshot
  take_sides for_bid for_ask book s = do
    bids ← all_levels for_bid (← member book "bids") s.bids
    asks ← all_levels for_ask (← member book "asks") s.asks
    some (record { bids = bids; asks = asks })

  -- Type "snapshot": both sides are cleared, and filled.
  unfoldable pub take_snapshot : Value → Snapshot → Option Snapshot
  unfolding take_sides
  take_snapshot book s = take_sides put put book (record s { bids = []; asks = [] })

  -- Type "incremental".
  unfoldable pub take_incremental : Value → Snapshot → Option Snapshot
  unfolding take_sides
  take_incremental book s = take_sides change_bid change_ask book s
