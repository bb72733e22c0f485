-- ===== src/Core/Enums.antt =====
-- The enumerations of message.h, and how exchange-core.h prints and reads them.
use sample.Base.{String, str_eq, if◌then◌else◌}

pub data ExecType : Type 0 where
  pending_new new cancelled rejected trade expired filled pending_cancel : ExecType

pub data OrderType : Type 0 where
  limit market limit_post_only : OrderType

pub data Side : Type 0 where
  buy sell : Side

pub data TimeInForce : Type 0 where
  ioc gtc : TimeInForce

pub data OrderStatus : Type 0 where
  pending_new new partially_filled filled pending_cancel cancelled rejected : OrderStatus

pub data ExchangeEnum : Type 0 where
  binance crypto huobi binancefut phemex bybit itbit : ExchangeEnum

-- `to_string(Side)`
unfoldable pub side_to_string : Side → String
side_to_string buy = "buy"
side_to_string sell = "sell"

-- `to_string(ExecType)`
unfoldable pub exec_type_to_string : ExecType → String
exec_type_to_string ExecType.new = "new"
exec_type_to_string ExecType.trade = "trade"
exec_type_to_string ExecType.cancelled = "canceled"
exec_type_to_string ExecType.rejected = "rejected"
exec_type_to_string ExecType.expired = "expired"
exec_type_to_string ExecType.filled = "FILLED"
exec_type_to_string ExecType.pending_cancel = "PENDING_CANCEL"
exec_type_to_string ExecType.pending_new = "PENDING_NEW"

-- `to_string(OrderStatus)`
unfoldable pub order_status_to_string : OrderStatus → String
order_status_to_string OrderStatus.new = "NEW"
order_status_to_string OrderStatus.cancelled = "CANCELED"
order_status_to_string OrderStatus.filled = "FILLED"
order_status_to_string OrderStatus.rejected = "REJECTED"
order_status_to_string OrderStatus.pending_new = "PENDING_NEW"
order_status_to_string OrderStatus.partially_filled = "PARTIALLY_FILLED"
order_status_to_string OrderStatus.pending_cancel = "PENDING_CANCEL"

-- `toExchangeEnum`
unfoldable pub to_exchange_enum : String → ExchangeEnum
to_exchange_enum name =
    if str_eq name "binance"
    then binance
    else if str_eq name "crypto"
    then crypto
    else if str_eq name "binancefut"
    then binancefut
    else if str_eq name "phemex"
    then phemex
    else crypto
