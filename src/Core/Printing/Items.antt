-- ===== src/Core/Printing/Items.antt =====
-- The printed records, taken apart at their commas.
use text.Mathlib.TextLemmas.{append-nil, append_assoc, nil-append}
use sample.Base.{
  String, List, [], ◌∷◌, ◌++◌, ◌<>◌, Option, none, some, ◌>>=◌, ◌≡◌, refl, ap, sym, ◌∙◌, All,
}
use sample.Core.Enums.{
  ExecType, OrderStatus, Side, buy, sell, side_to_string, order_status_to_string,
  exec_type_to_string,
}
use sample.Core.Records.{TradeOrder, ExecutionReport}
use sample.Core.Instruments.{single, split}
use sample.Core.Instruments.Pieces.{
  Free, Free-append, is_free-Free, terminated, last_item, split-terminated,
}
use sample.Core.Printing.{stream, order_text, report_text}

-- Items with a comma between them, as they are written.
abbrev interposed : List String → String → List String
interposed [] last = last ∷ []
interposed (item ∷ items) last = item ∷ "," ∷ interposed items last

stream-interposed :
    (items : List String) (last : String)
    → stream (interposed items last) ≡ terminated "," items <> last
stream-interposed [] last = append-nil last ∙ sym (nil-append last)
stream-interposed (item ∷ items) last =
    ap (λ (t : String). item <> single "," <> t) (stream-interposed items last)
    ∙ ap (λ (t : String). item <> t) (sym (append_assoc (single ",") (terminated "," items) last))
    ∙ sym (append_assoc item (single "," <> terminated "," items) last)

-- A line that begins with a title.
split-stream :
    (title item : String) (items : List String) (last : String)
    → All (Free b',') ((title <> item) ∷ items)
    → Free b',' last
    → split (stream (title ∷ interposed (item ∷ items) last)) b','
      ≡ (title <> item) ∷ items ++ last_item last
split-stream title item items last free last_free =
    ap (λ (t : String). split t b',')
      (sym (append_assoc title item (stream ("," ∷ interposed items last)))
        ∙ stream-interposed ((title <> item) ∷ items) last)
    ∙ split-terminated "," ((title <> item) ∷ items) last free last_free

-- The words of the enumerations have no comma.
side_to_string-Free : (side : Side) → Free b',' (side_to_string side)
unfolding side_to_string
side_to_string-Free buy = is_free-Free b',' "buy" refl
side_to_string-Free sell = is_free-Free b',' "sell" refl

order_status_to_string-Free : (s : OrderStatus) → Free b',' (order_status_to_string s)
unfolding order_status_to_string
order_status_to_string-Free OrderStatus.new = is_free-Free b',' "NEW" refl
order_status_to_string-Free OrderStatus.cancelled = is_free-Free b',' "CANCELED" refl
order_status_to_string-Free OrderStatus.filled = is_free-Free b',' "FILLED" refl
order_status_to_string-Free OrderStatus.rejected = is_free-Free b',' "REJECTED" refl
order_status_to_string-Free OrderStatus.pending_new = is_free-Free b',' "PENDING_NEW" refl
order_status_to_string-Free OrderStatus.partially_filled = is_free-Free b',' "PARTIALLY_FILLED" refl
order_status_to_string-Free OrderStatus.pending_cancel = is_free-Free b',' "PENDING_CANCEL" refl

exec_type_to_string-Free : (type : ExecType) → Free b',' (exec_type_to_string type)
unfolding exec_type_to_string
exec_type_to_string-Free ExecType.new = is_free-Free b',' "new" refl
exec_type_to_string-Free ExecType.trade = is_free-Free b',' "trade" refl
exec_type_to_string-Free ExecType.cancelled = is_free-Free b',' "canceled" refl
exec_type_to_string-Free ExecType.rejected = is_free-Free b',' "rejected" refl
exec_type_to_string-Free ExecType.expired = is_free-Free b',' "expired" refl
exec_type_to_string-Free ExecType.filled = is_free-Free b',' "FILLED" refl
exec_type_to_string-Free ExecType.pending_cancel = is_free-Free b',' "PENDING_CANCEL" refl
exec_type_to_string-Free ExecType.pending_new = is_free-Free b',' "PENDING_NEW" refl

last_item-exec_type_to_string :
    (type : ExecType) → last_item (exec_type_to_string type) ≡ exec_type_to_string type ∷ []
unfolding exec_type_to_string
last_item-exec_type_to_string ExecType.new = refl
last_item-exec_type_to_string ExecType.trade = refl
last_item-exec_type_to_string ExecType.cancelled = refl
last_item-exec_type_to_string ExecType.rejected = refl
last_item-exec_type_to_string ExecType.expired = refl
last_item-exec_type_to_string ExecType.filled = refl
last_item-exec_type_to_string ExecType.pending_cancel = refl
last_item-exec_type_to_string ExecType.pending_new = refl

then_then :
    {A B C : Type 0} (g : B → Option C) (o : Option A) (f : A → Option B) (h : A → Option C)
    → ((x : A) → (f x >>= g) ≡ h x)
    → (o >>= f >>= g) ≡ (o >>= h)
then_then g none f h each = refl
then_then g (some x) f h each = each x

module _ {F : Type 0} (print : F → String) where
  -- Where no printed number has a comma, nor the symbol, nor the id of the client, the items of a
  -- printed order are its symbol behind a title, its side, price and quantity, and that id unless it is empty.
  split-order_text :
      (o : TradeOrder F)
      → ((x : F) → Free b',' (print x))
      → Free b',' o.symbol
      → Free b',' o.client_order_id
      → split (order_text print o) b','
        ≡ ("Order:" <> o.symbol)
          ∷ side_to_string o.side
          ∷ print o.price
          ∷ print o.quantity
          ∷ last_item o.client_order_id
  unfolding order_text
  split-order_text o numbers symbol_free last_free =
      split-stream "Order:" o.symbol (side_to_string o.side ∷ print o.price ∷ print o.quantity ∷ [])
        o.client_order_id
        (
          Free-append b',' "Order:" o.symbol (is_free-Free b',' "Order:" refl) symbol_free,
          (side_to_string-Free o.side, (numbers o.price, (numbers o.quantity, tt))),
        )
        last_free

  -- The items of a report, if the members that are printed have values.
  abbrev pub report_items : ExecutionReport F → Option (List String)
  report_items r = do
    side ← r.side
    price ← r.price
    quantity ← r.quantity
    status ← r.order_status
    type ← r.exec_type
    some (
        ("ExecutionReport:" <> r.symbol)
        ∷ side_to_string side
        ∷ print price
        ∷ print quantity
        ∷ r.order_id
        ∷ r.cl_order_id
        ∷ order_status_to_string status
        ∷ exec_type_to_string type
        ∷ [])

  -- Where no printed number has a comma, nor the symbol and the two ids of an execution report:
  -- `split` takes the printed report apart into its symbol behind the title, side, price,
  -- quantity, order id, client order id, status and execution type; where the side, the price, the
  -- quantity, the status or the type is indeterminate there is no printed report.
  pub split-report_text :
      (r : ExecutionReport F)
      → ((x : F) → Free b',' (print x))
      → All (Free b',') (r.symbol ∷ r.order_id ∷ r.cl_order_id ∷ [])
      → (report_text print r >>= λ t. some (split t b',')) ≡ report_items r
  unfolding report_text
  split-report_text r numbers (symbol_free, (id_free, (cl_free, _))) =
      then_then _ r.side _ _ λ side. then_then _ r.price _ _ λ price.
        then_then _ r.quantity _ _ λ quantity. then_then _ r.order_status _ _ λ status.
          then_then _ r.exec_type _ _ λ type. ap some (
            split-stream "ExecutionReport:" r.symbol
              (side_to_string side
                ∷ print price
                ∷ print quantity
                ∷ r.order_id
                ∷ r.cl_order_id
                ∷ order_status_to_string status
                ∷ [])
              (exec_type_to_string type)
              (
                Free-append b',' "ExecutionReport:" r.symbol
                    (is_free-Free b',' "ExecutionReport:" refl) symbol_free,
                (
                  side_to_string-Free side,
                  (
                    numbers price,
                    (
                      numbers quantity,
                      (id_free, (cl_free, (order_status_to_string-Free status, tt))),
                    ),
                  ),
                ),
              )
              (exec_type_to_string-Free type)
            ∙ ap
                (λ (l : List String).
                  ("ExecutionReport:" <> r.symbol)
                  ∷ side_to_string side
                  ∷ print price
                  ∷ print quantity
                  ∷ r.order_id
                  ∷ r.cl_order_id
                  ∷ order_status_to_string status
                  ∷ l)
                (last_item-exec_type_to_string type))
