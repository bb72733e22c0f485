-- ===== src/Examples/Books.antt =====
-- Messages of market data, and the books that they leave.
use sample.Base.{ℕ, Bool, String, List, [], ◌∷◌, some, ◌≡◌, refl, ◌>>=◌}
use sample.Base.Dict
use sample.Base.Int.{ℤ, pos}
use sample.Samples.{Json, text, number, end, item, field, json_of, integers, value, some-value}
use sample.Base.{arith}
use sample.Base.Int.{to_int}
use sample.External.{Rapidjson}
use sample.Market.Changes.{apply_all}
use sample.Market.Book.{put, change_bid, change_ask}
use sample.Market.Books.{insert-AllSorted}
use sample.Market.Feed.{update_books, publish_book, best_levels, announce, each_trade, read_trade}
use sample.Market.Trades.{Traded, handle_trades-Traded}
use sample.Market.Totality.{messages_total}
use sample.Levels
use sample.Market.{Market, Snapshot, Output}
use sample.Market.Book.{all_levels, each_level, read_level, take_snapshot, take_incremental}
use sample.Market.Changes.{nonzero}
use sample.Market.Books.{AllSorted, Taken, Updated, incremental_message_lem, snapshot_message_lem}
use sample.Market.Feed.{
  empty_snapshot, snapshot_message, incremental_message, handle_book, handle_trades,
}
use sample.Market.Publish.{Told, handle_book-Told}

abbrev level : ℕ → ℕ → Json
level price qty = item (number (pos price)) (item (number (pos qty)) end)

-- Two bids and an ask.
abbrev two_sides : Json
two_sides =
    field "asks" (item (level 1000100 5) end)
      (field "bids" (item (level 1000000 7) (item (level 999900 3) end)) end)

-- The best bid goes.
abbrev change : Json
change = field "asks" end (field "bids" (item (level 1000000 0) end) end)

abbrev book_message : String → Json → Json
book_message type book = field "book" book (
    field "symbol" (text "BTCUSD")
      (field "timestamp" (number (pos 12000000)) (field "type" (text type) end)))

abbrev fresh : Market ℕ
fresh = record {
  listeners = 1 ∷ 2 ∷ [];
  need_reconnect = Bool.false;
  symbol_to_id = ("BTCUSD", pos 1) ∷ [];
  last_heartbeat_time = 0;
  id = 1;
  snapshot_map = [];
}

abbrev held_book : Snapshot
held_book = record {
  bids = (pos 999900, pos 3) ∷ (pos 1000000, pos 7) ∷ [];
  asks = (pos 1000100, pos 5) ∷ [];
}

none_sorted : AllSorted []
unfolding Dict.lookup
none_sorted symbol s e = cc

held_sorted : AllSorted (("BTCUSD", held_book) ∷ [])
unfolding Dict.insert
held_sorted =
    insert-AllSorted "BTCUSD" held_book [] none_sorted
      (record { bids = (omega arith, tt); asks = tt })

abbrev J : Rapidjson
J = json_of "" end

abbrev known : List (String × Snapshot)
known = ("BTCUSD", held_book) ∷ []

abbrev snapshot_doc : Json
snapshot_doc = book_message "snapshot" two_sides

abbrev nothing : {A : Type 0} → Market ℕ × List A
nothing = (fresh, [])

unfoldable first_told : Market ℕ × List (Output ℕ ℤ)
first_told = value (handle_book J integers snapshot_doc fresh) nothing

handle_book-Told_example :
    (symbol : String) × ((J.member snapshot_doc "symbol" >>= J.get_string) ≡ some symbol)
    × Told J integers symbol first_told.0 first_told.1
    × AllSorted first_told.0.snapshot_map
unfolding first_told handle_book update_books snapshot_message take_snapshot all_levels each_level
    read_level publish_book best_levels announce Dict.get_or_insert Dict.insert Levels.insert
    Levels.rbegin Levels.begin to_int
handle_book-Told_example =
    handle_book-Told J integers snapshot_doc fresh first_told.0 first_told.1 none_sorted
      (some-value (handle_book J integers snapshot_doc fresh) nothing refl)

unfoldable after_change : List (String × Snapshot)
after_change = value (incremental_message J change "BTCUSD" known) []

incremental_message_lem_example :
    (old new : Snapshot) × (Dict.lookup "BTCUSD" known ≡ some old)
    × Taken J nonzero change old new
    × Updated "BTCUSD" new known after_change
unfolding after_change incremental_message take_incremental all_levels each_level read_level
    Dict.lookup change_bid change_ask to_int
incremental_message_lem_example =
    incremental_message_lem J change "BTCUSD" known after_change held_sorted
      (some-value (incremental_message J change "BTCUSD" known) [] refl)

unfoldable after_snapshot : List (String × Snapshot)
after_snapshot = value (snapshot_message J two_sides "BTCUSD" known) []

snapshot_message_lem_example :
    (new : Snapshot) × Taken J some two_sides empty_snapshot new
    × Updated "BTCUSD" new known after_snapshot
unfolding after_snapshot snapshot_message take_snapshot all_levels each_level read_level
    Dict.get_or_insert to_int
snapshot_message_lem_example =
    snapshot_message_lem J two_sides "BTCUSD" known after_snapshot held_sorted
      (some-value (snapshot_message J two_sides "BTCUSD" known) [] refl)

abbrev trade_item : Json
trade_item =
    item (number (pos 12000000))
      (item (text "Sell") (item (number (pos 1000000)) (item (number (pos 2)) end)))

abbrev trades_doc : Json
trades_doc =
    field "trades" (item trade_item end)
      (field "symbol" (text "BTCUSD") (field "type" (text "incremental") end))

unfoldable first_trades : Market ℕ × List (Output ℕ ℤ)
first_trades = value (handle_trades J integers trades_doc fresh) nothing

handle_trades-Traded_example :
    (values : Json) × (n : ℕ) × (symbol : String) × (J.member trades_doc "trades" ≡ some values)
    × (J.size values ≡ some n)
    × ((J.member trades_doc "symbol" >>= J.get_string) ≡ some symbol)
    × Traded J integers values symbol 0 n fresh first_trades.0 first_trades.1
unfolding first_trades handle_trades each_trade read_trade Dict.get_or_insert
handle_trades-Traded_example =
    handle_trades-Traded J integers trades_doc fresh first_trades.0 first_trades.1
      (some-value (handle_trades J integers trades_doc fresh) nothing refl)

messages_total_example :
    (snapshot_message J two_sides "BTCUSD" known
      ≡ some (
          Dict.insert "BTCUSD"
            (record {
              bids = apply_all put ((pos 1000000, pos 7) ∷ (pos 999900, pos 3) ∷ []) [];
              asks = apply_all put ((pos 1000100, pos 5) ∷ []) [];
            })
            (Dict.get_or_insert "BTCUSD" empty_snapshot known).1))
    × (incremental_message J two_sides "BTCUSD" known
        ≡ some (
            Dict.insert "BTCUSD"
              (record {
                bids =
                    apply_all change_bid
                      ((pos 1000000, pos 7) ∷ (pos 999900, pos 3) ∷ [])
                      held_book.bids;
                asks = apply_all change_ask ((pos 1000100, pos 5) ∷ []) held_book.asks;
              })
              known))
unfolding read_level to_int Dict.lookup
messages_total_example =
    messages_total J two_sides "BTCUSD" known ((pos 1000000, pos 7) ∷ (pos 999900, pos 3) ∷ [])
      ((pos 1000100, pos 5) ∷ []) held_book refl refl refl
