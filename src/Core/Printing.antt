-- ===== src/Core/Printing.antt =====
-- `to_string` of the records of exchange-core.h. `print` is what `operator<<` writes of a `double`.
pub mod Items
use sample.Base.{String, List, [], ◌∷◌, ◌<>◌, Option, some, ◌>>=◌}
use sample.Core.Enums.{Side, side_to_string, order_status_to_string, exec_type_to_string}
use sample.Core.Records.{TradeOrder, ExecutionReport}

-- What a `std::ostringstream` holds after these texts were written to it.
abbrev pub stream : List String → String
stream [] = ""
stream (text ∷ texts) = text <> stream texts

module _ {F : Type 0} (print : F → String) where
  -- `TradeOrder::to_string`
  unfoldable pub order_text : TradeOrder F → String
  unfolding side_to_string
  order_text o = stream (
      "Order:"
      ∷ o.symbol
      ∷ ","
      ∷ side_to_string o.side
      ∷ ","
      ∷ print o.price
      ∷ ","
      ∷ print o.quantity
      ∷ ","
      ∷ o.client_order_id
      ∷ [])

  -- `ExecutionReport::to_string`; reading an indeterminate member is undefined.
  unfoldable pub report_text : ExecutionReport F → Option String
  report_text r = do
    side ← r.side
    price ← r.price
    quantity ← r.quantity
    status ← r.order_status
    type ← r.exec_type
    some (
        stream (
          "ExecutionReport:"
          ∷ r.symbol
          ∷ ","
          ∷ side_to_string side
          ∷ ","
          ∷ print price
          ∷ ","
          ∷ print quantity
          ∷ ","
          ∷ r.order_id
          ∷ ","
          ∷ r.cl_order_id
          ∷ ","
          ∷ order_status_to_string status
          ∷ ","
          ∷ exec_type_to_string type
          ∷ []))
