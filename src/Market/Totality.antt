-- ===== src/Market/Totality.antt =====
-- When a message changes the books, and when it does not get that far.
use sample.Base.{String, List, [], Option, some, ◌≡◌, refl}
use sample.Base.Dict
use sample.Base.Int.{ℤ}
use sample.External.{Rapidjson}
use sample.Levels
use sample.Market.{Snapshot}
use sample.Market.Book.{
  ◌>>=◌, >>=-eq-some, put, change_bid, change_ask, all_levels, take_sides, take_snapshot,
  take_incremental,
}
use sample.Market.Changes.{apply_all, read_levels, all_levels-read_levels}
use sample.Market.Feed.{empty_snapshot, snapshot_message, incremental_message}

module _ (J : Rapidjson) where
  open J use {Value, member}

  -- The levels of one side of a message.
  abbrev pub side_levels : Value → String → Option (List (ℤ × ℤ))
  side_levels book name = member book name >>= read_levels J

  all_levels_total :
      (change : ℤ → ℤ → Levels.Levels → Levels.Levels) (book : Value) (name : String)
      (ls : List (ℤ × ℤ)) (m : Levels.Levels)
      → side_levels book name ≡ some ls
      → (member book name >>= λ levels. all_levels J change levels m) ≡ some (apply_all change ls m)
  all_levels_total change book name ls m e =
      let (levels, has, read) = >>=-eq-some (member book name) _ e in
      rw (has, all_levels-read_levels J change levels m, read) refl

  take_sides_total :
      (for_bid for_ask : ℤ → ℤ → Levels.Levels → Levels.Levels) (book : Value) (s : Snapshot)
      (bids asks : List (ℤ × ℤ))
      → side_levels book "bids" ≡ some bids
      → side_levels book "asks" ≡ some asks
      → take_sides J for_bid for_ask book s
        ≡ some
            (record { bids = apply_all for_bid bids s.bids; asks = apply_all for_ask asks s.asks })
  unfolding take_sides
  take_sides_total for_bid for_ask book s bids asks b a =
      let (bv, bhas, bread) = >>=-eq-some (member book "bids") _ b in
      let (av, ahas, aread) = >>=-eq-some (member book "asks") _ a in
      rw
        (
          bhas,
          all_levels-read_levels J for_bid bv s.bids,
          bread,
          ahas,
          all_levels-read_levels J for_ask av s.asks,
          aread,
        )
        refl

  -- When the levels of both sides of a book message can be read and its symbol has a book, both
  -- the handling of a snapshot and that of an incremental message return, and leave the book in
  -- which the levels were applied one by one, to empty sides or to the old ones.
  pub messages_total :
      (book : Value) (symbol : String) (books : List (String × Snapshot)) (bids asks : List (ℤ × ℤ))
      (old : Snapshot)
      → side_levels book "bids" ≡ some bids
      → side_levels book "asks" ≡ some asks
      → Dict.lookup symbol books ≡ some old
      → (snapshot_message J book symbol books
          ≡ some (
              Dict.insert symbol
                (record { bids = apply_all put bids []; asks = apply_all put asks [] })
                (Dict.get_or_insert symbol empty_snapshot books).1))
        × (incremental_message J book symbol books
            ≡ some (
                Dict.insert symbol
                  (record {
                    bids = apply_all change_bid bids old.bids;
                    asks = apply_all change_ask asks old.asks;
                  })
                  books))
  unfolding snapshot_message incremental_message take_snapshot take_incremental
  messages_total book symbol books bids asks old b a known =
      let s = (Dict.get_or_insert symbol empty_snapshot books).0 in
      (
        rw (take_sides_total put put book (record s { bids = []; asks = [] }) bids asks b a) refl,
        rw (known, take_sides_total change_bid change_ask book old bids asks b a) refl,
      )
