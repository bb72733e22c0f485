-- ===== src/Trade/Words.antt =====
-- How `TradeService` reads the words of the exchange.
use sample.Base.{String, if◌then◌else◌, ◌||◌, str_eq}
use sample.Core.Enums.{Side, buy, sell, OrderStatus, ExecType, OrderType, limit, market}

unfoldable pub to_side : String → Side
to_side text = if str_eq text "Buy" then buy else sell

unfoldable pub to_order_status : String → OrderStatus
to_order_status status =
    if str_eq status "Created"
    then OrderStatus.pending_new
    else if str_eq status "New"
    then OrderStatus.new
    else if str_eq status "Canceled" || str_eq status "EXPIRED"
    then OrderStatus.cancelled
    else if str_eq status "Filled"
    then OrderStatus.filled
    else if str_eq status "Rejected"
    then OrderStatus.rejected
    else if str_eq status "PartiallyFilled"
    then OrderStatus.partially_filled
    else OrderStatus.rejected

unfoldable pub to_exec_type : String → ExecType
to_exec_type text =
    if str_eq text "Canceled"
    then ExecType.cancelled
    else if str_eq text "New"
    then ExecType.new
    else if str_eq text "PendingNew"
    then ExecType.pending_new
    else if str_eq text "CreateRejected"
    then ExecType.rejected
    else if str_eq text "MakerFill"
    then ExecType.trade
    else if str_eq text "TakerFill"
    then ExecType.trade
    else if str_eq text "Expired"
    then ExecType.cancelled
    else if str_eq text "PendingCancel"
    then ExecType.pending_cancel
    else ExecType.rejected

unfoldable pub to_order_type : String → OrderType
to_order_type text = if str_eq text "LIMIT" then limit else market
