-- ===== src/Trade/Answers.antt =====
-- What `onHttpMessage` of `TradeService` tells its listeners.
use mathlib.Core.Path.{subst}
use sample.Base.{
  ℕ, Bool, true, false, ◌≢◌, String, List, [], Option, some, some-inj, ◌≡◌, refl, sym, ap, ◌∙◌, map,
  if◌then◌else◌, ◌>>=◌, >>=-eq-some, ◌==◌, ==_iff,
}
use sample.External.{Rapidjson, Doubles}
use sample.Core.Records.{ExecutionReport}
use sample.Trade.{Trade, Output, on_execution_report, Effect}
use sample.Core.Enums.{phemex}
use sample.Trade.Words.{to_order_status, to_exec_type}
use sample.Trade.Reports.{contains, number_of, text_of, answer_report, on_answer, on_http_message}

module _ (J : Rapidjson) (D : Doubles) where
  -- What the data of an answer says of an order.
  pub record ReportOf (v : J.Value) (report : ExecutionReport D.Double) : Type 0 where
    pub exec_status : String
    pub order_status : String
    pub reads_exec_status : text_of J D v "execStatus" ≡ some exec_status
    pub reads_order_status : text_of J D v "ordStatus" ≡ some order_status
    pub of_client : text_of J D v "clOrdID" ≡ some report.cl_order_id
    pub of_exchange : text_of J D v "orderID" ≡ some report.order_id
    pub of_symbol : text_of J D v "symbol" ≡ some report.symbol
    pub with_type : report.exec_type ≡ some (to_exec_type exec_status)
    pub with_status : report.order_status ≡ some (to_order_status order_status)
    pub on_phemex : report.exchange ≡ some phemex

  answer_report-ReportOf :
      (v : J.Value) (report : ExecutionReport D.Double)
      → answer_report J D v ≡ some report
      → ReportOf v report
  unfolding answer_report
  answer_report-ReportOf v report e =
      let (exec_status, r1, e1) = >>=-eq-some (text_of J D v "execStatus") _ e in
      let (client, r2, e2) = >>=-eq-some (text_of J D v "clOrdID") _ e1 in
      let (order_id, r3, e3) = >>=-eq-some (text_of J D v "orderID") _ e2 in
      let (symbol, r4, e4) = >>=-eq-some (text_of J D v "symbol") _ e3 in
      let (status, r5, e5) = >>=-eq-some (text_of J D v "ordStatus") _ e4 in
      let is = sym (some-inj e5) in
      record {
        exec_status = exec_status;
        order_status = status;
        reads_exec_status = r1;
        reads_order_status = r5;
        of_client = r2 ∙ ap some (sym (ap (λ (r : ExecutionReport D.Double). r.cl_order_id) is));
        of_exchange = r3 ∙ ap some (sym (ap (λ (r : ExecutionReport D.Double). r.order_id) is));
        of_symbol = r4 ∙ ap some (sym (ap (λ (r : ExecutionReport D.Double). r.symbol) is));
        with_type = ap (λ (r : ExecutionReport D.Double). r.exec_type) is;
        with_status = ap (λ (r : ExecutionReport D.Double). r.order_status) is;
        on_phemex = ap (λ (r : ExecutionReport D.Double). r.exchange) is;
      }

module _ (J : Rapidjson) (D : Doubles) {L : Type 0} where
  -- What is told of an answer: nothing if it has no code, another code than 0, or data without an
  -- execution status; else the report of its data.
  pub data Answered (doc : J.Value) (ls : List L) : List (Output L D.Double) → Type 0 where
    no_code : J.has_member doc "code" ≡ some false → Answered doc ls []
    refused :
        (code : ℕ)
        → J.has_member doc "code" ≡ some true
        → number_of J D doc "code" ≡ some code
        → code ≢ 0
        → Answered doc ls []
    no_execution :
        (v : J.Value)
        → J.has_member doc "code" ≡ some true
        → number_of J D doc "code" ≡ some 0
        → J.member doc "data" ≡ some v
        → J.has_member v "execStatus" ≡ some false
        → Answered doc ls []
    executed :
        (v : J.Value) (report : ExecutionReport D.Double)
        → J.has_member doc "code" ≡ some true
        → number_of J D doc "code" ≡ some 0
        → J.member doc "data" ≡ some v
        → J.has_member v "execStatus" ≡ some true
        → ReportOf J D v report
        → Answered doc ls (map (λ l. on_execution_report l report) ls)

  -- The same of a whole text: nothing is told of one with either of two parts.
  pub data Heard (message : String) (ls : List L) : List (Output L D.Double) → Type 0 where
    of_book : contains message "\"book\":" ≡ true → Heard message ls []
    of_code :
        contains message "\"book\":" ≡ false
        → contains message "\"code\": \"" ≡ true
        → Heard message ls []
    of_answer :
        {out : List (Output L D.Double)}
        → contains message "\"book\":" ≡ false
        → contains message "\"code\": \"" ≡ false
        → Answered (J.parse message) ls out
        → Heard message ls out

  data_lem :
      (doc : J.Value) (ls : List L) (v : J.Value) (executes : Bool) {out : List (Output L D.Double)}
      → J.has_member doc "code" ≡ some true
      → number_of J D doc "code" ≡ some 0
      → J.member doc "data" ≡ some v
      → J.has_member v "execStatus" ≡ some executes
      → (if executes
          then (answer_report J D v >>= λ report. some (map (λ l. on_execution_report l report) ls))
          else some [])
        ≡ some out
      → Answered doc ls out
  data_lem doc ls v false has c d has_status e =
      subst (Answered doc ls) (some-inj e) (no_execution v has c d has_status)
  data_lem doc ls v true has c d has_status e =
      let (report, is, e1) = >>=-eq-some (answer_report J D v) _ e in
      subst (Answered doc ls) (some-inj e1)
        (executed v report has c d has_status (answer_report-ReportOf J D v report is))

  code_lem :
      (doc : J.Value) (t : Trade L) (code : ℕ) (fine : Bool) {out : List (Output L D.Double)}
      → (code == 0) ≡ fine
      → J.has_member doc "code" ≡ some true
      → number_of J D doc "code" ≡ some code
      → (if fine
          then (J.member doc "data" >>= λ v. J.has_member v "execStatus" >>= λ executes.
              if executes
              then (answer_report J D v >>= λ report.
                  some (map (λ l. on_execution_report l report) t.listeners))
              else some [])
          else (text_of J D doc "msg" >>= λ msg. some []))
        ≡ some out
      → Answered doc t.listeners out
  code_lem doc t code false z has c e =
      let (msg, is, e1) = >>=-eq-some (text_of J D doc "msg") _ e in
      subst (Answered doc t.listeners) (some-inj e1)
        (refused code has c (λ same. true_not_false (sym ((==_iff code 0).1 same) ∙ z)))
    where
      true_not_false : ¬ (true ≡ false)
      true_not_false e = cc
  code_lem doc t code true z has c e =
      let (v, is, e1) = >>=-eq-some (J.member doc "data") _ e in
      let (executes, has_status, e2) = >>=-eq-some (J.has_member v "execStatus") _ e1 in
      data_lem doc t.listeners v executes has (c ∙ ap some ((==_iff code 0).0 z)) is has_status e2

  on_answer_lem :
      (doc : J.Value) (t : Trade L) {out : List (Output L D.Double)}
      → on_answer J D doc t ≡ some out
      → Answered doc t.listeners out
  unfolding on_answer
  on_answer_lem doc t e =
      let (has, is, e1) = >>=-eq-some (J.has_member doc "code") _ e in split has is e1
    where
      split :
          (has : Bool) {out : List (Output L D.Double)}
          → J.has_member doc "code" ≡ some has
          → (if has
              then (number_of J D doc "code" >>= λ answer.
                  if answer == 0
                  then (J.member doc "data" >>= λ v. J.has_member v "execStatus" >>= λ executes.
                      if executes
                      then (answer_report J D v >>= λ report.
                          some (map (λ l. on_execution_report l report) t.listeners))
                      else some [])
                  else (text_of J D doc "msg" >>= λ msg. some []))
              else some [])
            ≡ some out
          → Answered doc t.listeners out
      split false is e = subst (Answered doc t.listeners) (some-inj e) (no_code is)
      split true is e =
          let (code, c, e1) = >>=-eq-some (number_of J D doc "code") _ e in
          code_lem doc t code (code == 0) refl is c e1

  -- The service unchanged, with what it tells.
  abbrev telling : Trade L → List (Output L D.Double) → Option (Effect L D.Double)
  telling t out = some (t, out)

  -- When `onHttpMessage` handles a text, the service is unchanged. If the text contains "book":,
  -- or "code": with a quotation mark behind it, nothing is told. Otherwise nothing is told if the
  -- document has no code, or a code other than 0, or its data has no execStatus; and if its data
  -- has one, every listener is told of one report, with the type, status, ids and symbol that the
  -- members of the data at their names say.
  pub on_http_message-Answered :
      (message : String) (t u : Trade L) (out : List (Output L D.Double))
      → on_http_message J D message t ≡ some (u, out)
      → (u ≡ t) × Heard message t.listeners out
  unfolding on_http_message
  on_http_message-Answered message t u out e =
      split (contains message "\"book\":") (contains message "\"code\": \"") refl refl e
    where
      as_told :
          (told : List (Output L D.Double))
          → Heard message t.listeners told
          → telling t told ≡ some (u, out)
          → (u ≡ t) × Heard message t.listeners out
      as_told told h e = (
        sym (ap (λ (p : Effect L D.Double). p.0) (some-inj e)),
        subst (λ (p : Effect L D.Double). Heard message t.listeners p.1) (some-inj e) h,
      )

      split :
          (book code : Bool)
          → contains message "\"book\":" ≡ book
          → contains message "\"code\": \"" ≡ code
          → (if book
              then telling t []
              else if code
              then telling t []
              else (on_answer J D (J.parse message) t >>= λ out. telling t out))
            ≡ some (u, out)
          → (u ≡ t) × Heard message t.listeners out
      split true code b c e = as_told [] (of_book b) e
      split false true b c e = as_told [] (of_code b c) e
      split false false b c e =
          let (told, is, e1) = >>=-eq-some (on_answer J D (J.parse message) t) _ e in
          as_told told (of_answer b c (on_answer_lem (J.parse message) t is)) e1
