-- ===== src/Trade/Program/Messages.antt =====
-- What a message on either session makes `TradeService` say.
use sample.Base.{
  ℕ, zero, suc, ◌+◌, String, List, [], ◌∷◌, ◌==◌, map, Option, ◌>>=◌, refl, Returns, Returns-some,
  Returns-then, Returns->>=,
}
use sample.Base.Decimal.{to_string, replace_hash}
use sample.Base.Int.{pos, ◌==ℤ◌}
use sample.External.{Rapidjson, Doubles}
use sample.Trade.{Trade, Output, on_execution_report, on_balance_report, ws_send}
use sample.Trade.Link.{aop_sub, send_subscribe}
use sample.Trade.Reports.{
  text_of, number_of, account_report, order_report, position_report, answer_report, each_report,
  reports, on_reply, on_message, on_answer, on_http_message, contains,
}
use sample.Trade.Program.Speeches.{ws_send-Says}
use sample.Trade.Program.Spoken.{
  Returns-if, Spoken, Silent, Silent-append, Silent-map, only_tells, says_on, Spoken-if,
}

module _ (J : Rapidjson) (D : Doubles) {L : Type 0} where
  open J use {Value}

  each_report-Silent :
      {R : Type 0} (read : Value → Option R) (call : L → R → Output L D.Double) (ls : List L)
      (values : Value) (left i : ℕ)
      → ((l : L) (r : R) → Silent (call l r ∷ []))
      → Returns Silent (each_report J D read call ls values left i)
  unfolding each_report
  each_report-Silent read call ls values zero i quiet = Returns-some (refl, refl)
  each_report-Silent read call ls values (suc left) i quiet =
      let rest = each_report-Silent read call ls values left (i + 1) quiet in
      Returns->>= (J.element values i) λ v. Returns->>= (read v) λ report.
        Returns-then (each_report J D read call ls values left (i + 1)) rest λ more s.
          Returns-some (
            Silent-append (map (λ l. call l report) ls) more
              (Silent-map call report ls (λ l. quiet l report)) s)

  reports-Silent :
      {R : Type 0} (name : String) (read : Value → Option R) (call : L → R → Output L D.Double)
      (ls : List L) (doc : Value)
      → ((l : L) (r : R) → Silent (call l r ∷ []))
      → Returns Silent (reports J D name read call ls doc)
  unfolding reports
  reports-Silent name read call ls doc quiet = Returns->>= (J.has_member doc name) λ present.
      Returns-if present
        (Returns->>= (J.member doc name) λ values.
          Returns->>= (J.size values) λ n. each_report-Silent read call ls values n 0 quiet)
        (Returns-some (refl, refl))

  send_subscribe-Spoken : (t : Trade L) → Spoken t (send_subscribe {F = D.Double} t)
  unfolding send_subscribe ws_send
  send_subscribe-Spoken t =
      let u : Trade L = record t { id = suc t.id } in
      let said = ws_send-Says {F = D.Double} (replace_hash aop_sub (to_string u.id)) u in
      (
        _,
        _,
        record { ws = said.ws; http = said.http; settled = record { host = refl; ws_host = refl } },
      )

  on_reply-Spoken : (doc : Value) (t : Trade L) → Returns (Spoken t) (on_reply J D doc t)
  unfolding on_reply
  on_reply-Spoken doc t = Returns->>= (J.has_member doc "id") λ present.
      Returns-if present
        (Returns->>= (J.member doc "id" >>= J.get_int64) λ id. Returns->>= t.auth_id λ auth_id.
          Returns-some (
            Spoken-if (id ==ℤ pos auth_id) (send_subscribe-Spoken t)
              (only_tells t [] (refl, refl))))
        (Returns-some (only_tells t [] (refl, refl)))

  pub on_message-Spoken : (msg : String) (t : Trade L) → Returns (Spoken t) (on_message J D msg t)
  unfolding on_message
  on_message-Spoken msg t =
      let doc = J.parse msg in
      Returns-then (on_reply J D doc t) (on_reply-Spoken doc t) λ r (ms, rs, said).
        Returns-then
          (reports J D "accounts" (account_report J D) on_balance_report r.0.listeners doc)
          (reports-Silent "accounts" (account_report J D) on_balance_report r.0.listeners doc
            (λ l x. (refl, refl)))
          λ accounts sa.
            Returns-then
              (reports J D "orders" (order_report J D) on_execution_report r.0.listeners doc)
              (reports-Silent "orders" (order_report J D) on_execution_report r.0.listeners doc
                (λ l x. (refl, refl)))
              λ orders so.
                Returns-then
                  (reports J D "positions" (position_report J D) on_balance_report r.0.listeners
                    doc)
                  (reports-Silent "positions" (position_report J D) on_balance_report r.0.listeners
                    doc (λ l x. (refl, refl)))
                  λ positions sp. Returns-some (
                    says_on t _ positions
                      (says_on t _ orders (says_on t r accounts (ms, rs, said) sa) so) sp)

  on_answer-Silent : (doc : Value) (t : Trade L) → Returns Silent (on_answer J D doc t)
  unfolding on_answer
  on_answer-Silent doc t = Returns->>= (J.has_member doc "code") λ has_code.
      Returns-if has_code
        (Returns->>= (number_of J D doc "code") λ answer.
          Returns-if (answer == 0)
            (Returns->>= (J.member doc "data") λ v.
              Returns->>= (J.has_member v "execStatus") λ executed.
                Returns-if executed
                  (Returns->>= (answer_report J D v) λ report.
                    Returns-some
                      (Silent-map on_execution_report report t.listeners (λ l. (refl, refl))))
                  (Returns-some (refl, refl)))
            (Returns->>= (text_of J D doc "msg") λ msg. Returns-some (refl, refl)))
        (Returns-some (refl, refl))

  pub on_http_message-Spoken :
      (message : String) (t : Trade L) → Returns (Spoken t) (on_http_message J D message t)
  unfolding on_http_message
  on_http_message-Spoken message t =
      let nothing_said = only_tells {F = D.Double} t [] (refl, refl) in
      Returns-if (contains message "\"book\":") (Returns-some nothing_said) (
        Returns-if (contains message "\"code\": \"") (Returns-some nothing_said) (
          Returns-then (on_answer J D (J.parse message) t) (on_answer-Silent (J.parse message) t)
            λ out quiet. Returns-some (only_tells t out quiet)))
