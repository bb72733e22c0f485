-- ===== src/Market/Feed.antt =====
-- `MarketDataService::onMessage`. `none` is undefined behaviour or a failed assertion of rapidjson.
use sample.Base.{
  ℕ, zero, suc, ◌+◌, Bool, String, List, [], ◌∷◌, ◌++◌, Option, some, map, if◌then◌else◌, str_eq,
}
use sample.Base.Dict
use sample.Base.Int.{ℤ, pos, div_ℤ}
use sample.External.{Rapidjson, Doubles}
use sample.Levels
use sample.Core.Enums.{Side, buy, sell, phemex}
use sample.Core.Records.{FeedPriceLevel, OrderBook, FeedTrade}
use sample.Market.{Snapshot, Market, Output, on_order_book, on_trade}
use sample.Market.Book.{◌>>=◌, take_snapshot, take_incremental}

abbrev pub empty_snapshot : Snapshot
empty_snapshot = record { bids = []; asks = [] }

-- A `const char *`: into the text of a document, or to a literal of the program.
pub data CharPtr : Type 0 where
  into_document : String → CharPtr
  literal : String → CharPtr

-- `p == q` on pointers. A document holds its own copy of each string, so a pointer into it is no
-- pointer to a literal. Two pointers of one kind are compared nowhere in the program.
abbrev pub same_pointer : CharPtr → CharPtr → Bool
same_pointer (into_document _) (literal _) = Bool.false
same_pointer (literal _) (into_document _) = Bool.false
same_pointer (into_document s) (into_document t) = str_eq s t
same_pointer (literal s) (literal t) = str_eq s t

-- `d[1].GetString() == "Sell" ? Side::SELL : Side::BUY`
unfoldable pub trade_side : String → Side
trade_side text = if same_pointer (into_document text) (literal "Sell") then sell else buy

module _ (J : Rapidjson) where
  open J use {Value}

  -- The branch for type "snapshot": a symbol that is not known gets an empty snapshot first.
  unfoldable pub snapshot_message :
      Value → String → List (String × Snapshot) → Option (List (String × Snapshot))
  snapshot_message book symbol books = do
    let known = Dict.get_or_insert symbol empty_snapshot books
    s ← take_snapshot J book known.0
    some (Dict.insert symbol s known.1)

  -- The branch for type "incremental". For a symbol that is not known the program goes on with
  -- `iter->second` at `end()`.
  unfoldable pub incremental_message :
      Value → String → List (String × Snapshot) → Option (List (String × Snapshot))
  incremental_message book symbol books = do
    s ← Dict.lookup symbol books
    s' ← take_incremental J book s
    some (Dict.insert symbol s' books)

  unfoldable pub update_books :
      Value → (type symbol : String) → List (String × Snapshot) → Option (List (String × Snapshot))
  update_books book type symbol books =
      if str_eq type "snapshot"
      then snapshot_message book symbol books
      else if str_eq type "incremental"
      then incremental_message book symbol books
      else some books

module _ (J : Rapidjson) (D : Doubles) where
  open J use {Value, parse, has_member, member, size, element, get_int64, get_string}
  open D use {Double, of_int, div}

  -- `price / 10000.`
  abbrev pub scaled : ℤ → Double
  scaled price = div (of_int price) (of_int (pos 10000))

  abbrev pub level_of : ℤ × ℤ → FeedPriceLevel Double
  level_of (price, qty) = record {
    quantity = of_int qty;
    price = scaled price;
    number_of_order = pos 1;
  }

  -- `rbegin()` and `begin()` of an empty side are undefined.
  unfoldable pub best_levels : Snapshot → Option (FeedPriceLevel Double × FeedPriceLevel Double)
  best_levels s = do
    bid ← Levels.rbegin s.bids
    ask ← Levels.begin s.asks
    some (level_of bid, level_of ask)

  -- One round of the loop over the trades.
  unfoldable pub read_trade : Value → ℤ → Option (FeedTrade Double)
  read_trade d instrument_id = do
    price ← get_int64 (← element d 2)
    quantity ← get_int64 (← element d 3)
    side ← get_string (← element d 1)
    timestamp ← get_int64 (← element d 0)
    some (record {
      instrument_id = instrument_id;
      timestamp = div_ℤ timestamp 1000000;
      price = scaled price;
      quantity = of_int quantity;
      side = trade_side side;
      exchange = phemex;
    })

  module _ {L : Type 0} where
    -- The book that listeners get, once its levels are known, and the calls.
    unfoldable pub announce :
        String
        → ℤ
        → FeedPriceLevel Double × FeedPriceLevel Double
        → Market L
        → Market L × List (Output L Double)
    announce symbol timestamp (bid, ask) m =
        let ids = Dict.get_or_insert symbol (pos 0) m.symbol_to_id in
        let books = Dict.get_or_insert symbol empty_snapshot m.snapshot_map in
        let book : OrderBook Double = record {
          exchange = phemex;
          instrument_id = ids.0;
          timestamp = div_ℤ timestamp 1000000;
          asks = ask ∷ [];
          bids = bid ∷ [];
        } in
        (
          record m { symbol_to_id = ids.1; snapshot_map = books.1 },
          map (λ l. on_order_book l book) m.listeners,
        )

    unfoldable pub publish_book :
        Value → String → Market L → Option (Market L × List (Output L Double))
    publish_book doc symbol m = do
      timestamp ← get_int64 (← member doc "timestamp")
      levels ← best_levels (Dict.get_or_insert symbol empty_snapshot m.snapshot_map).0
      some (announce symbol timestamp levels m)

    unfoldable pub handle_book : Value → Market L → Option (Market L × List (Output L Double))
    handle_book doc m = do
      book ← member doc "book"
      type ← get_string (← member doc "type")
      symbol ← get_string (← member doc "symbol")
      books ← update_books J book type symbol m.snapshot_map
      publish_book doc symbol (record m { snapshot_map = books })

    -- `left` rounds are left; `symbolToId[symbol]` is looked up, and entered, in each.
    unfoldable pub each_trade :
        Value → String → (left i : ℕ) → Market L → Option (Market L × List (Output L Double))
    unfolding read_trade
    each_trade trades symbol zero i m = some (m, [])
    each_trade trades symbol (suc left) i m = do
      d ← element trades i
      let ids = Dict.get_or_insert symbol (pos 0) m.symbol_to_id
      trade ← read_trade d ids.0
      (m', more) ← each_trade trades symbol left (i + 1) (record m { symbol_to_id = ids.1 })
      some (m', map (λ l. on_trade l trade) m.listeners ++ more)

    unfoldable pub handle_trades : Value → Market L → Option (Market L × List (Output L Double))
    unfolding each_trade
    handle_trades doc m = do
      trades ← member doc "trades"
      type ← get_string (← member doc "type")
      symbol ← get_string (← member doc "symbol")
      n ← size trades
      each_trade trades symbol n 0 m

    -- `if (doc.HasMember(name)) { … }`
    abbrev pub when_member :
        String
        → Value
        → (Market L → Option (Market L × List (Output L Double)))
        → Market L
        → Option (Market L × List (Output L Double))
    when_member name doc handler m =
        has_member doc name >>= λ present. if present then handler m else some (m, [])

    unfoldable pub on_message : String → Market L → Option (Market L × List (Output L Double))
    on_message msg m = do
      let doc = parse msg
      (m1, books) ← when_member "book" doc (handle_book doc) m
      (m2, trades) ← when_member "trades" doc (handle_trades doc) m1
      some (m2, books ++ trades)
