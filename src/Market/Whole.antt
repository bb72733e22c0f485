-- ===== src/Market/Whole.antt =====
-- A whole message through `onMessage` of `MarketDataService`.
use mathlib.Core.Path.{subst}
use sample.Base.{
  Bool, true, false, String, List, [], Option, some, some-inj, ◌≡◌, sym, if◌then◌else◌,
}
use sample.External.{Rapidjson, Doubles}
use sample.Market.{Market, Output}
use sample.Market.Book.{>>=-eq-some}
use sample.Market.Books.{AllSorted}
use sample.Market.Feed.{handle_book, handle_trades, when_member, on_message}
use sample.Market.Publish.{handle_book-Told}
use sample.Market.Trades.{handle_trades-Traded}

module _ (J : Rapidjson) (D : Doubles) {L : Type 0} where
  -- A part of the handler that keeps the books in order does so when it is left out, too.
  when_member-AllSorted :
      (name : String) (doc : J.Value)
      (handler : Market L → Option (Market L × List (Output L D.Double)))
      → ((m m' : Market L) (out : List (Output L D.Double))
          → AllSorted m.snapshot_map
          → handler m ≡ some (m', out)
          → AllSorted m'.snapshot_map)
      → (m m' : Market L) (out : List (Output L D.Double)) → AllSorted m.snapshot_map
      → when_member J D name doc handler m ≡ some (m', out)
      → AllSorted m'.snapshot_map
  when_member-AllSorted name doc handler keeps m m' out v e =
      let (present, has, e1) = >>=-eq-some (J.has_member doc name) _ e in split present e1
    where
      split :
          (present : Bool)
          → (if present then handler m else some (m, [])) ≡ some (m', out)
          → AllSorted m'.snapshot_map
      split true e = keeps m m' out v e
      split false e =
          subst (λ (r : Market L × List (Output L D.Double)). AllSorted r.0.snapshot_map)
            (some-inj e) v

  -- When the books are in the order of their prices and `onMessage` of the market data service
  -- handles a text, with a book or trades or both or neither, all books are in the order of their
  -- prices again.
  pub on_message-AllSorted :
      (msg : String) (m m' : Market L) (out : List (Output L D.Double))
      → AllSorted m.snapshot_map
      → on_message J D msg m ≡ some (m', out)
      → AllSorted m'.snapshot_map
  unfolding on_message
  on_message-AllSorted msg m m' out v e =
      let doc = J.parse msg in
      let ((m1, books), e1, e2) =
        >>=-eq-some (when_member J D "book" doc (handle_book J D doc) m) _ e in
      let ((m2, trades), e3, e4) =
        >>=-eq-some (when_member J D "trades" doc (handle_trades J D doc) m1) _ e2 in
      let v1 =
        when_member-AllSorted "book" doc (handle_book J D doc)
          (λ k k' o w h. let (s, is, told, all) = handle_book-Told J D doc k k' o w h in all) m m1
          books v e1 in
      let v2 =
        when_member-AllSorted "trades" doc (handle_trades J D doc)
          (λ k k' o w h.
            let (_, _, _, _, _, _, t) = handle_trades-Traded J D doc k k' o h in
            subst AllSorted (sym t.books_kept) w)
          m1 m2 trades v1 e3 in
      subst (λ (r : Market L × List (Output L D.Double)). AllSorted r.0.snapshot_map) (some-inj e4)
        v2
