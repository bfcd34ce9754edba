-- ===== src/Engine/Position.antt =====
-- crates/engine/src/position.rs: the position manager. A method that mutates returns the new
-- manager and its result; an error text is the error.
pub mod Marks
use galactic_trading_firm.Prelude.{Option, none, some, Bool, true, false, String, if◌then◌else◌}
use galactic_trading_firm.Prelude.Int.{ℤ, pos}
use galactic_trading_firm.F64.{F64, ◌⊖◌, ◌⊗◌, ◌⊘◌, ◌<?◌, lit}
use galactic_trading_firm.Time.{DateTime, Chrono}
use galactic_trading_firm.Action.{Position, TradeDirection, long, short, ExitReason}

pub record TradeRecord (F : Type 0) : Type 0 where
  pub ticker : String
  pub direction : TradeDirection
  pub entry_price : F
  pub exit_price : F
  pub size : F
  pub entry_time : DateTime
  pub exit_time : DateTime
  pub pnl : F
  pub pnl_pct : F
  pub hold_duration_ms : ℤ
  pub exit_reason : ExitReason
  pub high_water_mark : F
  pub low_water_mark : F

pub record PositionManager (F : Type 0) : Type 0 where
  pub position : Option (Position F)

-- `Result<T, String>`
pub data Fallible (A : Type 0) : Type 0 where
  ok : A → Fallible A
  err : String → Fallible A

abbrev pub is_some {ℓ} : {A : Type ℓ} → Option A → Bool
is_some none = false
is_some (some a) = true

module _ {F : Type 0} where
  abbrev pub new_manager : PositionManager F
  new_manager = record { position = none }

  abbrev pub has_position : PositionManager F → Bool
  has_position pm = is_some pm.position

  unfoldable pub cancel_position : PositionManager F → PositionManager F × Option (Position F)
  cancel_position pm = (record pm { position = none }, pm.position)

  unfoldable pub restore_position : PositionManager F → Position F → PositionManager F
  restore_position pm p = record pm { position = some p }

module _ {F : Type 0} ⦃f : F64 F⦄ where
  abbrev pub new_position : String → TradeDirection → F → F → DateTime → Position F
  new_position ticker direction entry_price size entry_time = record {
    ticker = ticker;
    direction = direction;
    entry_price = entry_price;
    current_price = entry_price;
    size = size;
    entry_time = entry_time;
    unrealized_pnl = lit 0;
    unrealized_pnl_pct = lit 0;
    high_water_mark = entry_price;
    low_water_mark = entry_price;
    hold_duration_ms = pos 0;
  }

  abbrev pub open_into :
      Option (Position F) → Position F → PositionManager F → Fallible (PositionManager F)
  open_into (some _) p pm = err "cannot open position: one already exists"
  open_into none p pm = ok (record pm { position = some p })

  unfoldable pub open_position :
      PositionManager F → String → TradeDirection → F → F → DateTime → Fallible (PositionManager F)
  open_position pm ticker direction entry_price size entry_time =
      open_into pm.position (new_position ticker direction entry_price size entry_time) pm

  -- profit per share, by direction
  abbrev pub gain : TradeDirection → F → F → F
  gain long entry_price price = price ⊖ entry_price
  gain short entry_price price = entry_price ⊖ price

module _ {F : Type 0} ⦃f : F64 F⦄ ⦃c : Chrono⦄ where
  -- the body of `update_on_tick` on the position
  unfoldable pub marked : F → DateTime → Position F → Position F
  marked price now p = record p {
    current_price = price;
    high_water_mark = if p.high_water_mark <? price then price else p.high_water_mark;
    low_water_mark = if price <? p.low_water_mark then price else p.low_water_mark;
    unrealized_pnl = gain p.direction p.entry_price price ⊗ p.size;
    unrealized_pnl_pct = gain p.direction p.entry_price price ⊘ p.entry_price;
    hold_duration_ms = c.num_milliseconds now p.entry_time;
  }

  abbrev pub mark_if : F → DateTime → Option (Position F) → Option (Position F)
  mark_if price now none = none
  mark_if price now (some p) = some (marked price now p)

  unfoldable pub update_on_tick : PositionManager F → F → DateTime → PositionManager F
  update_on_tick pm price now = record pm { position = mark_if price now pm.position }

  unfoldable pub trade_of : Position F → F → DateTime → ExitReason → TradeRecord F
  trade_of p exit_price exit_time exit_reason = record {
    ticker = p.ticker;
    direction = p.direction;
    entry_price = p.entry_price;
    exit_price = exit_price;
    size = p.size;
    entry_time = p.entry_time;
    exit_time = exit_time;
    pnl = gain p.direction p.entry_price exit_price ⊗ p.size;
    pnl_pct = gain p.direction p.entry_price exit_price ⊘ p.entry_price;
    hold_duration_ms = c.num_milliseconds exit_time p.entry_time;
    exit_reason = exit_reason;
    high_water_mark = p.high_water_mark;
    low_water_mark = p.low_water_mark;
  }

  abbrev pub trade_if : Option (Position F) → F → DateTime → ExitReason → Option (TradeRecord F)
  trade_if none price now reason = none
  trade_if (some p) price now reason = some (trade_of p price now reason)

  unfoldable pub close_position :
      PositionManager F → F → DateTime → ExitReason → PositionManager F × Option (TradeRecord F)
  close_position pm price now reason =
      (record pm { position = none }, trade_if pm.position price now reason)
