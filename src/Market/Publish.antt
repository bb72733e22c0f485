-- ===== src/Market/Publish.antt =====
-- What listeners are told: the best level of each side of the book, and the trades.
use mathlib.Core.Path.{subst}
use sample.Base.{
  String, List, [], ◌∷◌, some, ◌≡◌, refl, ◌∙◌, map, ap, inl, inr, Bool-cases, Option-cases, str_eq,
  some-inj, str_eq_refl,
}
use sample.Base.Dict
use sample.Base.Int.{ℤ, ◌≤ℤ◌}
use sample.External.{Rapidjson, Doubles}
use sample.Core.Records.{OrderBook, FeedPriceLevel}
use sample.Levels
use sample.Levels.Laws.{begin_least, rbegin_greatest}
use sample.Market.{Snapshot, Market, Output, on_order_book}
use sample.Market.Book.{◌>>=◌, >>=-eq-some, >>=-some}
use sample.Market.Feed.{
  empty_snapshot, level_of, update_books, best_levels, announce, publish_book, handle_book,
}
use sample.Market.Books.{AllSorted, get-AllSorted, snapshot_message_lem, incremental_message_lem}

-- A level of the book whose price no other level of the side beats.
abbrev pub Best : (ℤ → ℤ → Type 0) → Levels.Levels → ℤ × ℤ → Type 0
Best Beats side (price, qty) =
    (Levels.lookup price side ≡ some qty)
    × ((p q : ℤ) → Levels.lookup p side ≡ some q → Beats price p)

get_or_insert-found :
    (symbol : String) (books : List (String × Snapshot))
    → let (s, known) = Dict.get_or_insert symbol empty_snapshot books in
      Dict.lookup symbol known ≡ some s
unfolding Dict.get_or_insert
get_or_insert-found symbol books = elim (Option-cases (Dict.lookup symbol books)) [
  | inl e ↦ rw (e, Dict.get_or_insert) (rw (Dict.lookup-insert, str_eq_refl))
  | inr (s, e) ↦ rw (e, Dict.get_or_insert) e
]

module _ (J : Rapidjson) where
  open J use {Value}

  update_books-AllSorted :
      (book : Value) (type symbol : String) (books after : List (String × Snapshot))
      → AllSorted books
      → update_books J book type symbol books ≡ some after
      → AllSorted after
  unfolding update_books
  update_books-AllSorted book type symbol books after v e =
      elim (Bool-cases (str_eq type "snapshot")) [
        | inl snap ↦ (snapshot_message_lem J book symbol books after v (rw snap at e)).2.all_sorted
        | inr other ↦ elim (Bool-cases (str_eq type "incremental")) [
          | inl inc ↦
              (incremental_message_lem J book symbol books after v
                (rw inc at (rw other at e))).4.all_sorted
          | inr neither ↦ subst AllSorted (some-inj (rw neither at (rw other at e))) v
        ]
      ]

module _ (J : Rapidjson) (D : Doubles) where
  best_levels_lem :
      (s : Snapshot) (levels : FeedPriceLevel D.Double × FeedPriceLevel D.Double)
      → best_levels J D s ≡ some levels
      → (bid ask : ℤ × ℤ) × (Levels.rbegin s.bids ≡ some bid)
        × (Levels.begin s.asks ≡ some ask)
        × ((level_of J D bid, level_of J D ask) ≡ levels)
  unfolding best_levels
  best_levels_lem s levels e =
      let (bid, greatest, e1) = >>=-eq-some (Levels.rbegin s.bids) _ e in
      let (ask, least, e2) = >>=-eq-some (Levels.begin s.asks) _ e1 in
      (bid, ask, greatest, least, some-inj e2)

module _ (J : Rapidjson) (D : Doubles) {L : Type 0} where
  open J use {Value, member, get_string, get_int64}
  open D use {Double}

  -- What is told of the book of `symbol` in the state `m`.
  pub record Told (symbol : String) (m : Market L) (out : List (Output L Double)) : Type 0 where
    pub snapshot : Snapshot
    pub found : Dict.lookup symbol m.snapshot_map ≡ some snapshot
    pub bid : ℤ × ℤ
    pub ask : ℤ × ℤ
    pub best_bid : Best (λ price p. p ≤ℤ price) snapshot.bids bid
    pub best_ask : Best (λ price p. price ≤ℤ p) snapshot.asks ask
    pub book : OrderBook Double
    pub one_bid : book.bids ≡ level_of J D bid ∷ []
    pub one_ask : book.asks ≡ level_of J D ask ∷ []
    pub told : out ≡ map (λ l. on_order_book l book) m.listeners

  announce-Told :
      (symbol : String) (time : ℤ) (bid ask : ℤ × ℤ) (m : Market L)
      → let (s, known) = Dict.get_or_insert symbol empty_snapshot m.snapshot_map in
        AllSorted m.snapshot_map
        → Levels.rbegin s.bids ≡ some bid
        → Levels.begin s.asks ≡ some ask
        → let (m', out) = announce J D symbol time (level_of J D bid, level_of J D ask) m in
          Told symbol m' out × AllSorted m'.snapshot_map
  unfolding announce
  announce-Told symbol time bid ask m v greatest least =
      let known = Dict.get_or_insert symbol empty_snapshot m.snapshot_map in
      let (sorted, all) = get-AllSorted symbol m.snapshot_map v in
      (
        record {
          snapshot = known.0;
          found = get_or_insert-found symbol m.snapshot_map;
          bid = bid;
          ask = ask;
          best_bid = rbegin_greatest known.0.bids bid.0 bid.1 sorted.bids greatest;
          best_ask = begin_least known.0.asks ask.0 ask.1 sorted.asks least;
          book = _;
          one_bid = refl;
          one_ask = refl;
          told = refl;
        },
        all,
      )

  publish_book-Told :
      (doc : Value) (symbol : String) (m m' : Market L) (out : List (Output L Double))
      → AllSorted m.snapshot_map
      → publish_book J D doc symbol m ≡ some (m', out)
      → Told symbol m' out × AllSorted m'.snapshot_map
  unfolding publish_book
  publish_book-Told doc symbol m m' out v e =
      let known = Dict.get_or_insert symbol empty_snapshot m.snapshot_map in
      let (t, has, e1) = >>=-eq-some (member doc "timestamp") _ e in
      let (time, is, e2) = >>=-eq-some (get_int64 t) _ e1 in
      let (levels, best, e3) = >>=-eq-some (best_levels J D known.0) _ e2 in
      let (bid, ask, greatest, least, same) = best_levels_lem J D known.0 levels best in
      subst
        (λ (r : Market L × List (Output L Double)).
          Told symbol r.0 r.1 × AllSorted r.0.snapshot_map)
        (ap (λ l. announce J D symbol time l m) same ∙ some-inj e3)
        (announce-Told symbol time bid ask m v greatest least)

  -- When the books are in the order of their prices and a message with a book is handled, every
  -- listener is told once, in order of registration, of one bid and one ask, which are the highest
  -- bid and the lowest ask that the book of the message's symbol then holds, with their prices
  -- divided by 10000; and all books stay in the order of their prices.
  pub handle_book-Told :
      (doc : Value) (m m' : Market L) (out : List (Output L Double))
      → AllSorted m.snapshot_map
      → handle_book J D doc m ≡ some (m', out)
      → (symbol : String) × ((member doc "symbol" >>= get_string) ≡ some symbol)
        × Told symbol m' out
        × AllSorted m'.snapshot_map
  unfolding handle_book
  handle_book-Told doc m m' out v e =
      let (book, has, e1) = >>=-eq-some (member doc "book") _ e in
      let (tv, has_type, e2) = >>=-eq-some (member doc "type") _ e1 in
      let (type, is_type, e3) = >>=-eq-some (get_string tv) _ e2 in
      let (sv, has_symbol, e4) = >>=-eq-some (member doc "symbol") _ e3 in
      let (symbol, is_symbol, e5) = >>=-eq-some (get_string sv) _ e4 in
      let (books, updated, e6) =
        >>=-eq-some (update_books J book type symbol m.snapshot_map) _ e5 in
      let sorted = update_books-AllSorted J book type symbol m.snapshot_map books v updated in
      let (told, all) =
        publish_book-Told doc symbol (record m { snapshot_map = books }) m' out sorted e6 in
      (symbol, >>=-some (member doc "symbol") get_string has_symbol is_symbol, told, all)
