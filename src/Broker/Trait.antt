-- ===== src/Broker/Trait.antt =====
-- crates/data_feed/src/broker.rs: the trait `Broker`, as a record of its calls on a state `B` of the
-- broker, and its implementation by `SimulatedBroker`.
use Prim.Native.String.{◌++◌ as append_str}
use galactic_trading_firm.Prelude.{Bool, List, String}
use galactic_trading_firm.F64.{F64}
use galactic_trading_firm.Time.{DateTime}
use galactic_trading_firm.Action.{TradeDirection}
use galactic_trading_firm.Broker.{
  OrderFill, BrokerError, order_rejected, connection_error, no_position, unconfirmed, working,
  Submitted, accepted, failed, BrokerPosition, OrderView,
}
use galactic_trading_firm.Broker.Simulated.{
  SimulatedBroker, submit_order, close_position, open_positions, set_last_price_for,
}

pub data OrphanClose (F : Type 0) : Type 0 where
  closed_out : OrderFill F → OrphanClose F
  left_working : (order_id : String) (limit_price : F) → OrphanClose F

pub record Broker (F B : Type 0) : Type 0 where
  pub submit : String → TradeDirection → F → B → B × Submitted (OrderFill F)
  pub close : String → B → B × Submitted (OrderFill F)
  pub positions : B → B × Submitted (List (BrokerPosition F))
  pub order_status : String → B → B × Submitted (OrderView F)
  pub close_orphan : BrokerPosition F → Bool → B → B × Submitted (OrphanClose F)
  pub set_last_price_for : String → F → B → B

-- `Display` of an error
abbrev pub show_error : BrokerError → String
show_error (order_rejected msg) = append_str "order rejected: " msg
show_error (connection_error msg) = append_str "connection error: " msg
show_error (no_position msg) = append_str "no position: " msg
show_error (unconfirmed msg) = append_str "order state UNCONFIRMED: " msg
show_error (working order_id) = append_str "order " (append_str order_id " still working")

abbrev pub orphan_of : {F B : Type 0} → B × Submitted (OrderFill F) → B × Submitted (OrphanClose F)
orphan_of (b, accepted x) = (b, accepted (closed_out x))
orphan_of (b, failed e) = (b, failed e)

module _ {F : Type 0} ⦃f : F64 F⦄ where
  -- the simulated broker at a present time
  abbrev pub simulated : DateTime → Broker F (SimulatedBroker F)
  simulated utc = record {
    submit = λ ticker direction quantity b. submit_order b ticker direction quantity utc;
    close = λ ticker b. close_position b ticker utc;
    positions = λ b. (b, accepted (open_positions b));
    order_status = λ id b. (
      b,
      failed (
          unconfirmed
            (append_str "order " (append_str id ": this broker keeps no working orders"))),
    );
    close_orphan = λ p market_open b. orphan_of (close_position b p.ticker utc);
    set_last_price_for = λ ticker price b. set_last_price_for b ticker price;
  }
