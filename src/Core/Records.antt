-- ===== src/Core/Records.antt =====
-- The records of exchange-core.h that the services fill and pass to their listeners. `F` is
-- `double`. A member that some code leaves uninitialised is an `Option`: `none` is indeterminate.
use sample.Base.{String, List, Option}
use sample.Base.Int.{ℤ}
use sample.Core.Enums.{ExecType, OrderType, Side, TimeInForce, OrderStatus, ExchangeEnum}

pub record FeedTrade (F : Type 0) : Type 0 where
  pub instrument_id : ℤ
  pub timestamp : ℤ
  pub price : F
  pub quantity : F
  pub side : Side
  pub exchange : ExchangeEnum

pub record FeedPriceLevel (F : Type 0) : Type 0 where
  pub quantity : F
  pub price : F
  pub number_of_order : ℤ

pub record OrderBook (F : Type 0) : Type 0 where
  pub exchange : ExchangeEnum
  pub instrument_id : ℤ
  pub timestamp : ℤ
  pub asks : List (FeedPriceLevel F)
  pub bids : List (FeedPriceLevel F)

pub record TradeOrder (F : Type 0) : Type 0 where
  pub client_order_id : String
  pub exchange_order_id : String
  pub price : F
  pub quantity : F
  pub side : Side
  pub symbol : String
  pub instrument_id : ℤ
  pub order_status : OrderStatus
  pub order_type : OrderType
  pub cumulate_quantity : F
  pub average_price : F
  pub create_time : ℤ
  pub ack_time : ℤ
  pub last_update_time : ℤ
  pub time_in_force : TimeInForce

pub record ExecutionReport (F : Type 0) : Type 0 where
  pub order_id : String
  pub cl_order_id : String
  pub orig_cl_order_id : String
  pub exchange : Option ExchangeEnum
  pub symbol : String
  pub order_type : Option OrderType
  pub side : Option Side
  pub price : Option F
  pub quantity : Option F
  pub order_status : Option OrderStatus
  pub cum_quantity : Option F
  pub cum_value : Option F
  pub average_price : Option F
  pub last_exec_price : Option F
  pub last_exec_quantity : Option F
  pub create_time : Option ℤ
  pub transaction_time : Option ℤ
  pub event_time : Option ℤ
  pub exec_type : Option ExecType
  pub fee : Option F
  pub fee_currency : String
  pub trade_id : String

pub record BalanceReport (F : Type 0) : Type 0 where
  pub currency : String
  pub total_balance : Option F
  pub available_balance : Option F
  pub frozen_balance : Option F
