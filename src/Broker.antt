-- ===== src/Broker.antt =====
-- crates/data_feed/src/broker.rs: orders, fills and positions as a broker reports them, and the
-- settings of the fill wait. The calls of the broker's REST interface are in `OrderApi`.
pub mod Lookup
pub mod Wait
pub mod Simulated
pub mod Trait
use galactic_trading_firm.Prelude.{
  ℕ, ◌*◌, Option, none, some, Bool, true, false, List, [], ◌∷◌, String, if◌then◌else◌,
}
use galactic_trading_firm.F64.{F64, ◌<?◌, lit}
use galactic_trading_firm.Time.{DateTime}
use galactic_trading_firm.Action.{TradeDirection, long, short}
use galactic_trading_firm.Engine.Position.{Fallible}
use galactic_trading_firm.Engine.Gates.{get_or}

pub record OrderFill (F : Type 0) : Type 0 where
  pub ticker : String
  pub direction : TradeDirection
  pub quantity : F
  pub fill_price : F
  pub filled_at : DateTime

pub data BrokerError : Type 0 where
  order_rejected connection_error no_position unconfirmed : (msg : String) → BrokerError
  working : (order_id : String) → BrokerError

-- `Result<T, BrokerError>`
pub data Submitted (A : Type 0) : Type 0 where
  accepted : A → Submitted A
  failed : BrokerError → Submitted A

pub record BrokerPosition (F : Type 0) : Type 0 where
  pub ticker : String
  pub direction : TradeDirection
  pub quantity : F
  pub entry_price : F
  pub current_price : Option F

pub data OrderState : Type 0 where
  filled still_working : OrderState
  terminal : (status : String) → OrderState

pub record OrderView (F : Type 0) : Type 0 where
  pub id : String
  pub client_order_id : String
  pub symbol : String
  pub state : OrderState
  pub filled_qty : F
  pub avg_fill_price : Option F
  pub filled_at : Option DateTime

pub data Intent : Type 0 where
  opening closing : Intent

pub record FillWait : Type 0 where
  pub timeout_ms : ℕ
  pub poll_ms : ℕ
  pub cancel_on_timeout : Bool

abbrev pub fill_timeout_ms : ℕ
fill_timeout_ms = 15_000

abbrev pub close_fill_timeout_ms : ℕ
close_fill_timeout_ms = 20_000

abbrev pub fill_poll_ms : ℕ
fill_poll_ms = 250

abbrev pub poll_retries : ℕ
poll_retries = 3

-- `FillWait::live()` and `FillWait::close()`
abbrev pub live_wait : FillWait
live_wait = record {
  timeout_ms = fill_timeout_ms;
  poll_ms = fill_poll_ms;
  cancel_on_timeout = true;
}

abbrev pub close_wait : FillWait
close_wait = record {
  timeout_ms = close_fill_timeout_ms;
  poll_ms = fill_poll_ms;
  cancel_on_timeout = false;
}

-- The derived `PartialEq` of a direction.
abbrev pub direction_eq : TradeDirection → TradeDirection → Bool
direction_eq long long = true
direction_eq short short = true
direction_eq _ _ = false

-- What the wait asks of the outside, on a state `W` of it: the four calls of the trait `OrderApi`,
-- a sleep in milliseconds, the monotonic clock in nanoseconds, and `Utc::now()`.
pub record OrderApi (F W : Type 0) : Type 0 where
  pub get_order : String → W → Fallible (OrderView F) × W
  pub get_order_by_client_id : String → W → Fallible (OrderView F) × W
  pub cancel_order : String → W → Fallible Unit × W
  pub positions : W → Fallible (List (BrokerPosition F)) × W
  pub sleep : ℕ → W → W
  pub now : W → ℕ
  pub utc_now : W → DateTime

-- `Display` of a number and `Debug` of an order state, which go into error texts
pub record Formats : Type 0 where
  pub show_number : ℕ → String
  pub show_state : OrderState → String

module _ {F : Type 0} ⦃f : F64 F⦄ where
  abbrev pub is_filled : OrderState → F → Bool
  is_filled filled quantity = true
  is_filled (terminal status) quantity = lit 0 <? quantity
  is_filled still_working quantity = false

  abbrev pub fill_of : OrderView F → String → TradeDirection → DateTime → OrderFill F
  fill_of v ticker direction utc = record {
    ticker = ticker;
    direction = direction;
    quantity = v.filled_qty;
    fill_price = get_or v.avg_fill_price (lit 0);
    filled_at = get_or v.filled_at utc;
  }

  -- `OrderView::fill`, at the present time
  unfoldable pub fill : OrderView F → String → TradeDirection → DateTime → Option (OrderFill F)
  fill v ticker direction utc =
      if is_filled v.state v.filled_qty then some (fill_of v ticker direction utc) else none

  abbrev pub position_as_fill : BrokerPosition F → TradeDirection → DateTime → OrderFill F
  position_as_fill p direction utc = record {
    ticker = p.ticker;
    direction = direction;
    quantity = p.quantity;
    fill_price = p.entry_price;
    filled_at = utc;
  }
