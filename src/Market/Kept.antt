-- ===== src/Market/Kept.antt =====
-- What `onMessage` of `MarketDataService` leaves alone.
use sample.Base.{Returns, Returns-some, Returns-then, Returns->>=}
use sample.Base.{
  ℕ, zero, suc, ◌+◌, Bool, true, false, String, List, [], Option, some, ◌≡◌, refl, ◌∙◌,
  if◌then◌else◌,
}
use sample.Base.Dict
use sample.Base.Int.{pos}
use sample.External.{Rapidjson, Doubles}
use sample.Market.{Market, Output}
use sample.Market.Feed.{
  empty_snapshot, update_books, best_levels, read_trade, announce, publish_book, handle_book,
  each_trade, handle_trades, when_member, on_message,
}

-- The members that have to do with the connection.
pub record Kept {L : Type 0} (m m' : Market L) : Type 0 where
  pub id : m'.id ≡ m.id
  pub last_heartbeat_time : m'.last_heartbeat_time ≡ m.last_heartbeat_time
  pub need_reconnect : m'.need_reconnect ≡ m.need_reconnect
  pub listeners : m'.listeners ≡ m.listeners

module _ (J : Rapidjson) (D : Doubles) {L : Type 0} where
  abbrev Keeping : Market L → Market L × List (Output L D.Double) → Type 0
  Keeping m r = Kept m r.0

  same : (m : Market L) → Kept m m
  same m = record { id = refl; last_heartbeat_time = refl; need_reconnect = refl; listeners = refl }

  handle_book-Kept : (doc : J.Value) (m : Market L) → Returns (Keeping m) (handle_book J D doc m)
  unfolding handle_book publish_book announce
  handle_book-Kept doc m = Returns->>= (J.member doc "book") λ book.
      Returns->>= (J.member doc "type") λ tv. Returns->>= (J.get_string tv) λ type.
        Returns->>= (J.member doc "symbol") λ sv. Returns->>= (J.get_string sv) λ symbol.
          Returns->>= (update_books J book type symbol m.snapshot_map) λ books.
            Returns->>= (J.member doc "timestamp") λ time. Returns->>= (J.get_int64 time) λ stamp.
              Returns->>= (best_levels J D (Dict.get_or_insert symbol empty_snapshot books).0)
                λ levels. Returns-some (record {
                  id = refl;
                  last_heartbeat_time = refl;
                  need_reconnect = refl;
                  listeners = refl;
                })

  each_trade-Kept :
      (trades : J.Value) (symbol : String) (left i : ℕ) (m : Market L)
      → Returns (Keeping m) (each_trade J D trades symbol left i m)
  unfolding each_trade
  each_trade-Kept trades symbol zero i m = Returns-some (same m)
  each_trade-Kept trades symbol (suc left) i m =
      let ids = Dict.get_or_insert symbol (pos 0) m.symbol_to_id in
      let m1 : Market L = record m { symbol_to_id = ids.1 } in
      let rest = each_trade-Kept trades symbol left (i + 1) m1 in
      Returns->>= (J.element trades i) λ d. Returns->>= (read_trade J D d ids.0) λ trade.
        Returns-then (each_trade J D trades symbol left (i + 1) m1) rest λ r k.
          Returns-some (record {
            id = k.id;
            last_heartbeat_time = k.last_heartbeat_time;
            need_reconnect = k.need_reconnect;
            listeners = k.listeners;
          })

  handle_trades-Kept :
      (doc : J.Value) (m : Market L) → Returns (Keeping m) (handle_trades J D doc m)
  unfolding handle_trades
  handle_trades-Kept doc m = Returns->>= (J.member doc "trades") λ trades.
      Returns->>= (J.member doc "type") λ tv. Returns->>= (J.get_string tv) λ type.
        Returns->>= (J.member doc "symbol") λ sv.
          Returns->>= (J.get_string sv)
            λ symbol. Returns->>= (J.size trades) λ n. each_trade-Kept trades symbol n 0 m

  when_member-Kept :
      (name : String) (doc : J.Value)
      (handler : Market L → Option (Market L × List (Output L D.Double))) (m : Market L)
      → Returns (Keeping m) (handler m)
      → Returns (Keeping m) (when_member J D name doc handler m)
  when_member-Kept name doc handler m h = Returns->>= (J.has_member doc name) given
    where
      given : (present : Bool) → Returns (Keeping m) (if present then handler m else some (m, []))
      given true = h
      given false = Returns-some (same m)

  on_message_keeps : (msg : String) (m : Market L) → Returns (Keeping m) (on_message J D msg m)
  unfolding on_message
  on_message_keeps msg m =
      let doc = J.parse msg in
      Returns-then (when_member J D "book" doc (handle_book J D doc) m)
        (when_member-Kept "book" doc (handle_book J D doc) m (handle_book-Kept doc m))
        λ r k.
          Returns-then (when_member J D "trades" doc (handle_trades J D doc) r.0)
            (when_member-Kept "trades" doc (handle_trades J D doc) r.0 (handle_trades-Kept doc r.0))
            λ q l. Returns-some (record {
              id = l.id ∙ k.id;
              last_heartbeat_time = l.last_heartbeat_time ∙ k.last_heartbeat_time;
              need_reconnect = l.need_reconnect ∙ k.need_reconnect;
              listeners = l.listeners ∙ k.listeners;
            })

  pub on_message-Kept :
      (msg : String) (m m' : Market L) (out : List (Output L D.Double))
      → on_message J D msg m ≡ some (m', out)
      → Kept m m'
  on_message-Kept msg m m' out e = (on_message_keeps msg m).result (m', out) e
