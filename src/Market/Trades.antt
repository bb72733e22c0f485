-- ===== src/Market/Trades.antt =====
-- What listeners are told of a message with trades.
use mathlib.Core.Path.{subst}
use sample.Base.{
  ℕ, zero, suc, ◌+◌, Option, none, str_eq_refl, String, List, [], ◌∷◌, ◌++◌, some, ◌≡◌, refl, sym,
  ◌∙◌, map, ap, length, some-inj,
}
use sample.Base.Dict
use sample.Base.Int.{ℤ, pos, div_ℤ}
use sample.External.{Rapidjson, Doubles}
use sample.Core.Enums.{buy, phemex}
use sample.Core.Records.{FeedTrade}
use sample.Market.{Market, Output, on_trade}
use sample.Market.Book.{◌>>=◌, >>=-eq-some, >>=-some}
use sample.Market.Feed.{trade_side, read_trade, each_trade, handle_trades}

-- Whatever the text of the side, the comparison of pointers fails.
pub trade_side-buy : (text : String) → trade_side text ≡ buy
unfolding trade_side
trade_side-buy text = refl

abbrev pub number_or_0 : Option ℤ → ℤ
number_or_0 (some z) = z
number_or_0 none = pos 0

-- What `symbolToId[symbol]` gives, now and after it was entered.
got :
    (symbol : String) (dict : List (String × ℤ))
    → (Dict.get_or_insert symbol (pos 0) dict).0 ≡ number_or_0 (Dict.lookup symbol dict)
unfolding Dict.get_or_insert
got symbol dict = by_entry (Dict.lookup symbol dict) refl
  where
    by_entry :
        (o : Option ℤ)
        → Dict.lookup symbol dict ≡ o
        → (Dict.get_or_insert symbol (pos 0) dict).0 ≡ number_or_0 o
    by_entry (some z) e = rw (Dict.get_or_insert, e) refl
    by_entry none e = rw (Dict.get_or_insert, e) refl

kept :
    (symbol : String) (dict : List (String × ℤ))
    → number_or_0 (Dict.lookup symbol (Dict.get_or_insert symbol (pos 0) dict).1)
      ≡ number_or_0 (Dict.lookup symbol dict)
unfolding Dict.get_or_insert
kept symbol dict = by_entry (Dict.lookup symbol dict) refl
  where
    by_entry :
        (o : Option ℤ)
        → Dict.lookup symbol dict ≡ o
        → number_or_0 (Dict.lookup symbol (Dict.get_or_insert symbol (pos 0) dict).1)
          ≡ number_or_0 o
    by_entry (some z) e = rw (Dict.get_or_insert, e) (rw e refl)
    by_entry none e = rw (Dict.get_or_insert, e) (rw (Dict.lookup-insert, str_eq_refl) refl)

module _ (J : Rapidjson) (D : Doubles) where
  open J use {Value, element, member, size, get_string, get_int64, has_member, parse}
  open D use {Double, of_int, div}

  -- A number at a place of an array.
  abbrev pub NumberAt : Value → ℕ → ℤ → Type 0
  NumberAt d i z = (v : Value) × (element d i ≡ some v) × (get_int64 v ≡ some z)

  -- What an element of the array says of a trade: the time in nanoseconds, a side, the price times
  -- 10000, the quantity. The side is not taken over.
  pub record TradeOf (d : Value) (instrument_id : ℤ) (trade : FeedTrade Double) : Type 0 where
    pub nanoseconds : ℤ
    pub price_ep : ℤ
    pub size : ℤ
    pub at_0 : NumberAt d 0 nanoseconds
    pub at_2 : NumberAt d 2 price_ep
    pub at_3 : NumberAt d 3 size
    pub of_instrument : trade.instrument_id ≡ instrument_id
    pub in_milliseconds : trade.timestamp ≡ div_ℤ nanoseconds 1000000
    pub at_price : trade.price ≡ div (of_int price_ep) (of_int (pos 10000))
    pub of_size : trade.quantity ≡ of_int size
    pub a_buy : trade.side ≡ buy
    pub on_phemex : trade.exchange ≡ phemex

  -- `trades` are what the elements of an array from the index `i` on say.
  pub data TradesFrom (values : Value) (instrument_id : ℤ)
      : ℕ → List (FeedTrade Double) → Type 0 where
    done : {i : ℕ} → TradesFrom values instrument_id i []
    next :
        {i : ℕ} (d : Value) {trade : FeedTrade Double} {trades : List (FeedTrade Double)}
        → element values i ≡ some d
        → TradeOf d instrument_id trade
        → TradesFrom values instrument_id (i + 1) trades
        → TradesFrom values instrument_id i (trade ∷ trades)

  read_trade-TradeOf :
      (d : Value) (instrument_id : ℤ) (trade : FeedTrade Double)
      → read_trade J D d instrument_id ≡ some trade
      → TradeOf d instrument_id trade
  unfolding read_trade
  read_trade-TradeOf d instrument_id trade e =
      let (v, w2, e1) = >>=-eq-some (element d 2) _ e in
      let (price, r2, e2) = >>=-eq-some (get_int64 v) _ e1 in
      let (v', w3, e3) = >>=-eq-some (element d 3) _ e2 in
      let (quantity, r3, e4) = >>=-eq-some (get_int64 v') _ e3 in
      let (v'', _, e5) = >>=-eq-some (element d 1) _ e4 in
      let (side, _, e6) = >>=-eq-some (get_string v'') _ e5 in
      let (w, w0, e7) = >>=-eq-some (element d 0) _ e6 in
      let (time, r0, e8) = >>=-eq-some (get_int64 w) _ e7 in
      let is = sym (some-inj e8) in
      record {
        nanoseconds = time;
        price_ep = price;
        size = quantity;
        at_0 = (w, w0, r0);
        at_2 = (v, w2, r2);
        at_3 = (v', w3, r3);
        of_instrument = ap (λ (t : FeedTrade Double). t.instrument_id) is;
        in_milliseconds = ap (λ (t : FeedTrade Double). t.timestamp) is;
        at_price = ap (λ (t : FeedTrade Double). t.price) is;
        of_size = ap (λ (t : FeedTrade Double). t.quantity) is;
        a_buy = ap (λ (t : FeedTrade Double). t.side) is ∙ trade_side-buy side;
        on_phemex = ap (λ (t : FeedTrade Double). t.exchange) is;
      }

  module _ {L : Type 0} where
    -- The number that `symbolToId` has for a symbol, 0 for one that it does not have.
    abbrev pub instrument_of : String → Market L → ℤ
    instrument_of symbol m = number_or_0 (Dict.lookup symbol m.symbol_to_id)

    -- Every listener is told of each trade, trade by trade.
    abbrev pub tell : List L → List (FeedTrade Double) → List (Output L Double)
    tell ls [] = []
    tell ls (t ∷ ts) = map (λ l. on_trade l t) ls ++ tell ls ts

    -- The elements of `values` from the index `i` on, `count` of them, are told.
    pub record Traded (values : Value) (symbol : String) (i count : ℕ) (m m' : Market L)
        (out : List (Output L Double)) : Type 0 where
      pub trades : List (FeedTrade Double)
      pub counted : length trades ≡ count
      pub listed : TradesFrom values (instrument_of symbol m) i trades
      pub told : out ≡ tell m.listeners trades
      pub listeners_kept : m'.listeners ≡ m.listeners
      pub books_kept : m'.snapshot_map ≡ m.snapshot_map

    each_trade-Traded :
        (trades : Value) (symbol : String) (left i : ℕ) (m m' : Market L)
        (out : List (Output L Double))
        → each_trade J D trades symbol left i m ≡ some (m', out)
        → Traded trades symbol i left m m' out
    unfolding each_trade
    each_trade-Traded trades symbol zero i m m' out e = record {
      trades = [];
      counted = refl;
      told = ap (λ (r : Market L × List (Output L Double)). r.1) (sym (some-inj e));
      listed = done;
      listeners_kept =
          ap (λ (r : Market L × List (Output L Double)). r.0.listeners) (sym (some-inj e));
      books_kept =
          ap (λ (r : Market L × List (Output L Double)). r.0.snapshot_map) (sym (some-inj e));
    }
    each_trade-Traded trades symbol (suc left) i m m' out e =
        let ids = Dict.get_or_insert symbol (pos 0) m.symbol_to_id in
        let m1 : Market L = record m { symbol_to_id = ids.1 } in
        let (d, there, e1) = >>=-eq-some (element trades i) _ e in
        let (trade, read, e2) = >>=-eq-some (read_trade J D d ids.0) _ e1 in
        let (r, rest, e3) = >>=-eq-some (each_trade J D trades symbol left (i + 1) m1) _ e2 in
        let t = each_trade-Traded trades symbol left (i + 1) m1 r.0 r.1 rest in
        subst
          (λ (r : Market L × List (Output L Double)). Traded trades symbol i (suc left) m r.0 r.1)
          (some-inj e3)
          (record {
            trades = trade ∷ t.trades;
            counted = ap suc t.counted;
            told = ap (λ out. map (λ l. on_trade l trade) m.listeners ++ out) t.told;
            listed =
                next d there
                  (subst (λ (z : ℤ). TradeOf d z trade) (got symbol m.symbol_to_id)
                    (read_trade-TradeOf d ids.0 trade read))
                  (subst (λ (z : ℤ). TradesFrom trades z (i + 1) t.trades)
                    (kept symbol m.symbol_to_id) t.listed);
            listeners_kept = t.listeners_kept;
            books_kept = t.books_kept;
          })

    -- When a message with trades is handled, each element of its array, in the order of the array,
    -- is told to every listener as one trade: its time is the first item divided by a million, its
    -- price the third item divided by 10000, its quantity the fourth item, and its instrument the
    -- id of the message's symbol; every trade is told as a buy, whatever side the second item
    -- says; the books and the listeners stay as they were.
    pub handle_trades-Traded :
        (doc : Value) (m m' : Market L) (out : List (Output L Double))
        → handle_trades J D doc m ≡ some (m', out)
        → (values : Value) × (n : ℕ) × (symbol : String) × (member doc "trades" ≡ some values)
          × (size values ≡ some n)
          × ((member doc "symbol" >>= get_string) ≡ some symbol)
          × Traded values symbol 0 n m m' out
    unfolding handle_trades
    handle_trades-Traded doc m m' out e =
        let (trades, has, e1) = >>=-eq-some (member doc "trades") _ e in
        let (tv, _, e2) = >>=-eq-some (member doc "type") _ e1 in
        let (type, _, e3) = >>=-eq-some (get_string tv) _ e2 in
        let (sv, named, e4) = >>=-eq-some (member doc "symbol") _ e3 in
        let (symbol, spelt, e5) = >>=-eq-some (get_string sv) _ e4 in
        let (n, count, e6) = >>=-eq-some (size trades) _ e5 in
        (
          trades,
          n,
          symbol,
          has,
          count,
          >>=-some (member doc "symbol") get_string named spelt,
          each_trade-Traded trades symbol n 0 m m' out e6,
        )
