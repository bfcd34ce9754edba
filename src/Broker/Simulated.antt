-- ===== src/Broker/Simulated.antt =====
-- crates/data_feed/src/broker.rs: `SimulatedBroker`. Its locks and its atomic are its fields, as no
-- method holds one across a call of another.
pub mod Trades
use galactic_trading_firm.Prelude.{
  Option, none, some, Bool, true, false, List, [], ◌∷◌, String, if◌then◌else◌, map,
}
use galactic_trading_firm.Prelude.Maps.{Map, lookup, insert, remove}
use galactic_trading_firm.F64.{F64, ◌⊕◌, ◌⊖◌, ◌⊗◌, ◌⊘◌, ◌<?◌, ◌≤?◌, lit}
use galactic_trading_firm.Time.{DateTime}
use galactic_trading_firm.Action.{TradeDirection, long, short}
use galactic_trading_firm.Engine.Gates.{get_or}
use galactic_trading_firm.Broker.{
  OrderFill, order_rejected, no_position, Submitted, accepted, failed, BrokerPosition,
}

-- the direction, the quantity and the entry price
pub record Holding (F : Type 0) : Type 0 where
  pub direction : TradeDirection
  pub quantity : F
  pub entry_price : F

pub record SimulatedBroker (F : Type 0) : Type 0 where
  pub slippage_bps : F
  pub last_price : F
  pub ticker_prices : Map F
  pub positions : Map (Holding F)

abbrev pub opposite : TradeDirection → TradeDirection
opposite long = short
opposite short = long

module _ {F : Type 0} where
  unfoldable pub set_last_price : SimulatedBroker F → F → SimulatedBroker F
  set_last_price b price = record b { last_price = price }

  unfoldable pub set_last_price_for : SimulatedBroker F → String → F → SimulatedBroker F
  set_last_price_for b ticker price =
      set_last_price (record b { ticker_prices = insert ticker price b.ticker_prices }) price

module _ {F : Type 0} ⦃f : F64 F⦄ where
  -- `SimulatedBroker::new`
  abbrev pub new_simulated : F → SimulatedBroker F
  new_simulated slippage_bps = record {
    slippage_bps = slippage_bps;
    last_price = lit 0;
    ticker_prices = [];
    positions = [];
  }

  -- `filter(|p| *p > 0.0)`
  abbrev pub if_positive : Option F → Option F
  if_positive none = none
  if_positive (some p) = if lit 0 <? p then some p else none

  unfoldable pub price_for : SimulatedBroker F → String → F
  price_for b ticker = get_or (if_positive (lookup ticker b.ticker_prices)) b.last_price

  unfoldable pub apply_slippage : SimulatedBroker F → F → TradeDirection → F
  apply_slippage b price long = price ⊕ price ⊗ b.slippage_bps ⊘ lit 10_000
  apply_slippage b price short = price ⊖ price ⊗ b.slippage_bps ⊘ lit 10_000

  abbrev pub filled_order : String → TradeDirection → F → F → DateTime → OrderFill F
  filled_order ticker direction quantity fill_price utc = record {
    ticker = ticker;
    direction = direction;
    quantity = quantity;
    fill_price = fill_price;
    filled_at = utc;
  }

  -- `utc` is the present time
  unfoldable pub submit_order :
      SimulatedBroker F
      → String
      → TradeDirection
      → F
      → DateTime
      → SimulatedBroker F × Submitted (OrderFill F)
  submit_order b ticker direction quantity utc =
      if price_for b ticker ≤? lit 0 then (b, failed (order_rejected "last_price not set")) else (
        record b {
          positions =
              insert ticker
                (record {
                  direction = direction;
                  quantity = quantity;
                  entry_price = apply_slippage b (price_for b ticker) direction;
                })
                b.positions;
        },
        accepted (
            filled_order ticker direction quantity (apply_slippage b (price_for b ticker) direction)
              utc),
      )

  abbrev pub close_held :
      SimulatedBroker F
      → String
      → DateTime
      → Option (Holding F)
      → SimulatedBroker F × Submitted (OrderFill F)
  close_held b ticker utc none = (b, failed (no_position ticker))
  close_held b ticker utc (some h) = (
    record b { positions = remove ticker b.positions },
    accepted (
        filled_order ticker (opposite h.direction) h.quantity
          (apply_slippage b (price_for b ticker) (opposite h.direction)) utc),
  )

  unfoldable pub close_position :
      SimulatedBroker F → String → DateTime → SimulatedBroker F × Submitted (OrderFill F)
  close_position b ticker utc = close_held b ticker utc (lookup ticker b.positions)

  abbrev pub position_of : SimulatedBroker F → String × Holding F → BrokerPosition F
  position_of b (ticker, h) = record {
    ticker = ticker;
    direction = h.direction;
    quantity = h.quantity;
    entry_price = h.entry_price;
    current_price = if_positive (some (price_for b ticker));
  }

  unfoldable pub open_positions : SimulatedBroker F → List (BrokerPosition F)
  open_positions b = map (position_of b) b.positions
