-- ===== src/Market/Books.antt =====
-- What a message does to the books.
use sample.Base.{
  String, List, Option, some, ◌≡◌, ◌≢◌, arith, inl, inr, Bool-cases, Option-cases, str_eq,
  str_eq_iff,
}
use sample.Base.Dict
use mathlib.Core.Path.{subst}
use sample.Base.{str_eq_refl, some-inj, sym, ◌∙◌}
use sample.Base.Int.{ℤ}
use sample.External.{Rapidjson}
use sample.Levels
use sample.Levels.Laws.{IsSorted}
use sample.Market.{Snapshot}
use sample.Market.Book.{
  ◌>>=◌, >>=-eq-some, put, change_bid, change_ask, all_levels, take_sides, take_snapshot,
  take_incremental,
}
use sample.Market.Changes.{
  last_for, nonzero, held, Sets, put-Sets, change_bid-Sets, change_ask-Sets, read_levels,
  all_levels_lem,
}
use sample.Market.Feed.{empty_snapshot, snapshot_message, incremental_message}

pub record Sorted (s : Snapshot) : Type 0 where
  pub bids : IsSorted s.bids
  pub asks : IsSorted s.asks

-- Every book that is kept is in the order of its prices.
abbrev pub AllSorted : List (String × Snapshot) → Type 0
AllSorted books = (symbol : String) (s : Snapshot) → Dict.lookup symbol books ≡ some s → Sorted s

-- The books after a message for `symbol`: that symbol's is `new`, the others are as they were.
pub record Updated (symbol : String) (new : Snapshot) (before after : List (String × Snapshot))
    : Type 0 where
  pub found : Dict.lookup symbol after ≡ some new
  pub others :
      (other : String) → other ≢ symbol → Dict.lookup other after ≡ Dict.lookup other before
  pub all_sorted : AllSorted after

pub insert-AllSorted :
    (symbol : String) (new : Snapshot) (books : List (String × Snapshot))
    → AllSorted books
    → Sorted new
    → AllSorted (Dict.insert symbol new books)
insert-AllSorted symbol new books v n other s e = elim (Bool-cases (str_eq symbol other)) [
  | inl same ↦ subst Sorted (some-inj (sym (rw (Dict.lookup-insert, same)) ∙ e)) n
  | inr differs ↦ v other s (sym (rw (Dict.lookup-insert, differs)) ∙ e)
]

lookup-insert_ne :
    (symbol other : String) (new : Snapshot) (books : List (String × Snapshot))
    → other ≢ symbol
    → Dict.lookup other (Dict.insert symbol new books) ≡ Dict.lookup other books
lookup-insert_ne symbol other new books ne =
    ground (arith, Dict.lookup-insert symbol other new books, str_eq_iff symbol other)

insert-Updated :
    (symbol : String) (new : Snapshot) (books : List (String × Snapshot))
    → AllSorted books
    → Sorted new
    → Updated symbol new books (Dict.insert symbol new books)
insert-Updated symbol new books v n = record {
  found = rw (Dict.lookup-insert, str_eq_refl);
  others = λ other. lookup-insert_ne symbol other new books;
  all_sorted = insert-AllSorted symbol new books v n;
}

empty-Sorted : Sorted empty_snapshot
empty-Sorted = record { bids = tt; asks = tt }

module _ (symbol : String) (books : List (String × Snapshot)) (v : AllSorted books) where
  pub get-AllSorted :
      Sorted (Dict.get_or_insert symbol empty_snapshot books).0
      × AllSorted (Dict.get_or_insert symbol empty_snapshot books).1
  unfolding Dict.get_or_insert
  get-AllSorted = elim (Option-cases (Dict.lookup symbol books)) [
    | inl e ↦
        rw (e, Dict.get_or_insert)
          (empty-Sorted, insert-AllSorted symbol empty_snapshot books v empty-Sorted)
    | inr (s, e) ↦ rw (e, Dict.get_or_insert) (v symbol s e, v)
  ]

  get-others :
      (other : String)
      → other ≢ symbol
      → Dict.lookup other (Dict.get_or_insert symbol empty_snapshot books).1
        ≡ Dict.lookup other books
  unfolding Dict.get_or_insert
  get-others other ne = elim (Option-cases (Dict.lookup symbol books)) [
    | inl e ↦ rw (e, Dict.get_or_insert) (lookup-insert_ne symbol other empty_snapshot books ne)
    | inr (s, e) ↦ rw (e, Dict.get_or_insert)
  ]

module _ (J : Rapidjson) where
  open J use {Value, member}

  -- A side of the book after a message, from the side before it and the array of the message.
  pub record Side (kept : ℤ → Option ℤ) (book : Value) (name : String) (old new : Levels.Levels)
      : Type 0 where
    pub entries : List (ℤ × ℤ)
    pub entries_read : (member book name >>= read_levels J) ≡ some entries
    pub holds :
        (price : ℤ)
        → Levels.lookup price new ≡ held kept (last_for price entries) (Levels.lookup price old)

  side_of :
      (change : ℤ → ℤ → Levels.Levels → Levels.Levels) (kept : ℤ → Option ℤ)
      → Sets change kept
      → (book levels : Value) (name : String) (old new : Levels.Levels)
      → member book name ≡ some levels
      → IsSorted old
      → all_levels J change levels old ≡ some new
      → Side kept book name old new × IsSorted new
  side_of change kept sets book levels name old new found s e =
      let (ls, read, sorted, holds) = all_levels_lem J change kept sets levels old new s e in
      (record { entries = ls; entries_read = rw found read; holds = holds }, sorted)

  -- The book of one symbol after a message.
  pub record Taken (kept : ℤ → Option ℤ) (book : Value) (old new : Snapshot) : Type 0 where
    pub bids : Side kept book "bids" old.bids new.bids
    pub asks : Side kept book "asks" old.asks new.asks
    pub sorted : Sorted new

  take_sides_lem :
      (for_bid for_ask : ℤ → ℤ → Levels.Levels → Levels.Levels) (kept : ℤ → Option ℤ)
      → Sets for_bid kept
      → Sets for_ask kept
      → (book : Value) (s t : Snapshot) → Sorted s
      → take_sides J for_bid for_ask book s ≡ some t
      → Taken kept book s t
  unfolding take_sides
  take_sides_lem for_bid for_ask kept bid_sets ask_sets book s t v e =
      let (bv, bfound, e1) = >>=-eq-some (member book "bids") _ e in
      let (bids, bset, e2) = >>=-eq-some (all_levels J for_bid bv s.bids) _ e1 in
      let (av, afound, e3) = >>=-eq-some (member book "asks") _ e2 in
      let (asks, aset, e4) = >>=-eq-some (all_levels J for_ask av s.asks) _ e3 in
      let (b, up) = side_of for_bid kept bid_sets book bv "bids" s.bids bids bfound v.bids bset in
      let (a, down) = side_of for_ask kept ask_sets book av "asks" s.asks asks afound v.asks aset in
      subst (Taken kept book s) (some-inj e4)
        (record { bids = b; asks = a; sorted = record { bids = up; asks = down } })

  -- When the books are in the order of their prices and an incremental message is handled, its
  -- symbol had a book, and at each price of a side the new book holds what the message's last
  -- entry for it says, where quantity 0 means no level, and what the old book held if there is no
  -- entry; no other symbol's book changes, and all books stay in the order of their prices.
  pub incremental_message_lem :
      (book : Value) (symbol : String) (books after : List (String × Snapshot))
      → AllSorted books
      → incremental_message J book symbol books ≡ some after
      → (old new : Snapshot) × (Dict.lookup symbol books ≡ some old)
        × Taken nonzero book old new
        × Updated symbol new books after
  unfolding incremental_message take_incremental
  incremental_message_lem book symbol books after v e =
      let (old, known, e1) = >>=-eq-some (Dict.lookup symbol books) _ e in
      let (new, taken, e2) = >>=-eq-some (take_incremental J book old) _ e1 in
      let t =
        take_sides_lem change_bid change_ask nonzero change_bid-Sets change_ask-Sets book old new
          (v symbol old known) taken in
      (
        old,
        new,
        known,
        t,
        subst (Updated symbol new books) (some-inj e2) (insert-Updated symbol new books v t.sorted),
      )

  -- When the books are in the order of their prices and a message of type "snapshot" is handled,
  -- the new book of its symbol holds at each price what the message's last entry for it says, and
  -- no other price, whatever the book held before; no other symbol's book changes, and all books
  -- stay in the order of their prices.
  pub snapshot_message_lem :
      (book : Value) (symbol : String) (books after : List (String × Snapshot))
      → AllSorted books
      → snapshot_message J book symbol books ≡ some after
      → (new : Snapshot) × Taken some book empty_snapshot new × Updated symbol new books after
  unfolding snapshot_message take_snapshot
  snapshot_message_lem book symbol books after v e =
      let known = Dict.get_or_insert symbol empty_snapshot books in
      let (new, taken, e1) = >>=-eq-some (take_snapshot J book known.0) _ e in
      let t =
        take_sides_lem put put some put-Sets put-Sets book empty_snapshot new empty-Sorted taken in
      let u = insert-Updated symbol new known.1 (get-AllSorted symbol books v).1 t.sorted in
      (
        new,
        t,
        subst (Updated symbol new books) (some-inj e1) (record {
          found = u.found;
          others = λ other ne. u.others other ne ∙ get-others symbol books v other ne;
          all_sorted = u.all_sorted;
        }),
      )
