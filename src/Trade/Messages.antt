-- ===== src/Trade/Messages.antt =====
-- A whole message through `onMessage` of `TradeService`.
use sample.Base.{
  ℕ, Bool, true, false, String, List, [], ◌++◌, some, some-inj, ◌≡◌, refl, sym, ap, if◌then◌else◌,
  ◌>>=◌, >>=-eq-some,
}
use mathlib.Core.Path.{subst}
use sample.Base.Int.{ℤ, pos, ◌==ℤ◌}
use sample.External.{Rapidjson, Doubles}
use sample.Core.Records.{ExecutionReport, BalanceReport}
use sample.Trade.{Trade, Output, on_execution_report, on_balance_report, Effect, ws_send}
use sample.Trade.Link.{send_subscribe}
use sample.Trade.Reports.{
  account_report, order_report, position_report, reports, on_reply, on_message,
}
use sample.Trade.Notices.{told, Holds, reports-Holds}

module _ (J : Rapidjson) (D : Doubles) {L : Type 0} where
  abbrev answered : ℤ → ℕ → Trade L → Effect L D.Double
  answered id auth_id t = if id ==ℤ pos auth_id then send_subscribe t else (t, [])

  subscribe_listeners :
      (same : Bool) (t : Trade L) {u : Trade L} {sent : List (Output L D.Double)}
      → (if same then send_subscribe t else (t, [])) ≡ (u, sent)
      → u.listeners ≡ t.listeners
  unfolding send_subscribe ws_send
  subscribe_listeners true t e = sym (ap (λ p. p.0.listeners) e)
  subscribe_listeners false t e = sym (ap (λ p. p.0.listeners) e)

  -- The reply to the authentication changes no listener.
  on_reply_listeners :
      (doc : J.Value) (t : Trade L) {u : Trade L} {sent : List (Output L D.Double)}
      → on_reply J D doc t ≡ some (u, sent)
      → u.listeners ≡ t.listeners
  unfolding on_reply
  on_reply_listeners doc t e =
      let (has, eh, e1) = >>=-eq-some (J.has_member doc "id") _ e in split has e1
    where
      split :
          (has : Bool) {u : Trade L} {sent : List (Output L D.Double)}
          → (if has
              then ((J.member doc "id" >>= J.get_int64) >>= λ id.
                  t.auth_id >>= λ auth_id. some (answered id auth_id t))
              else some (t, []))
            ≡ some (u, sent)
          → u.listeners ≡ t.listeners
      split false e = sym (ap (λ p. p.0.listeners) (some-inj e))
      split true e =
          let (id, ei, e1) = >>=-eq-some (J.member doc "id" >>= J.get_int64) _ e in
          let (auth_id, ea, e2) = >>=-eq-some t.auth_id _ e1 in
          subscribe_listeners (id ==ℤ pos auth_id) t (some-inj e2)

  joined :
      (sent : List (Output L D.Double)) (accounts positions : List (BalanceReport D.Double))
      (orders : List (ExecutionReport D.Double)) {ls ls' : List L}
      {a o p : List (Output L D.Double)}
      → a ≡ told on_balance_report ls' accounts
      → o ≡ told on_execution_report ls' orders
      → p ≡ told on_balance_report ls' positions
      → ls' ≡ ls
      → sent ++ a ++ o ++ p
        ≡ sent
          ++ told on_balance_report ls accounts
          ++ told on_execution_report ls orders
          ++ told on_balance_report ls positions
  joined sent accounts positions orders ia io ip same = rw (ia, io, ip, same) refl

  pub record Heard (msg : String) (t u : Trade L) (out : List (Output L D.Double)) : Type 0 where
    pub sent : List (Output L D.Double)
    pub accounts : List (BalanceReport D.Double)
    pub positions : List (BalanceReport D.Double)
    pub orders : List (ExecutionReport D.Double)
    pub replied : on_reply J D (J.parse msg) t ≡ some (u, sent)
    pub accounts_held : Holds J (account_report J D) (J.parse msg) "accounts" accounts
    pub orders_held : Holds J (order_report J D) (J.parse msg) "orders" orders
    pub positions_held : Holds J (position_report J D) (J.parse msg) "positions" positions
    pub all :
        out
        ≡ sent
          ++ told on_balance_report t.listeners accounts
          ++ told on_execution_report t.listeners orders
          ++ told on_balance_report t.listeners positions

  -- When a message of the trade websocket is handled, what the service does is, in this order: the
  -- subscription, if the message is the reply to the authentication; the balance of each account;
  -- the report of each order; the balance of each position. Each of these is read from the element
  -- of the message's array at its place, none is left out, and each goes to every listener.
  pub on_message-Heard :
      (msg : String) (t : Trade L) {u : Trade L} {out : List (Output L D.Double)}
      → on_message J D msg t ≡ some (u, out)
      → Heard msg t u out
  unfolding on_message
  on_message-Heard msg t e =
      let doc = J.parse msg in
      let ((v, sent), er, e1) = >>=-eq-some (on_reply J D doc t) _ e in
      let (a, ea, e2) =
        >>=-eq-some (reports J D "accounts" (account_report J D) on_balance_report v.listeners doc)
          _ e1 in
      let (o, eo, e3) =
        >>=-eq-some (reports J D "orders" (order_report J D) on_execution_report v.listeners doc) _
          e2 in
      let (p, ep, e4) =
        >>=-eq-some
          (reports J D "positions" (position_report J D) on_balance_report v.listeners doc) _ e3 in
      let (accounts, ha, ia) =
        reports-Holds J D (account_report J D) on_balance_report v.listeners doc "accounts" ea in
      let (orders, ho, io) =
        reports-Holds J D (order_report J D) on_execution_report v.listeners doc "orders" eo in
      let (positions, hp, ip) =
        reports-Holds J D (position_report J D) on_balance_report v.listeners doc "positions" ep in
      let same = on_reply_listeners doc t er in
      subst (λ (q : Effect L D.Double). Heard msg t q.0 q.1) (some-inj e4)
        (record {
          sent = sent;
          accounts = accounts;
          positions = positions;
          orders = orders;
          replied = er;
          accounts_held = ha;
          orders_held = ho;
          positions_held = hp;
          all = joined sent accounts positions orders ia io ip same;
        })
