-- ===== src/Broker/Simulated/Trades.antt =====
-- crates/data_feed/src/broker.rs: sequences of calls of the simulated broker.
use text.Mathlib.Text.{◌==◌}
use galactic_trading_firm.Prelude.{
  ◌≡◌, refl, sym, ap, ◌∙◌, some, true, false, String, Bool, Bool-cases, Option-cases, inl, inr,
}
use galactic_trading_firm.Prelude.Maps.{lookup, remove}
use galactic_trading_firm.F64.{F64, ◌⊕◌, ◌⊖◌, ◌⊗◌, ◌⊘◌, ◌≤?◌, ◌<?◌, lit}
use galactic_trading_firm.Time.{DateTime}
use galactic_trading_firm.Action.{TradeDirection, long, short}
use galactic_trading_firm.Broker.{
  OrderFill, order_rejected, no_position, accepted, failed, Submitted,
}
use galactic_trading_firm.Broker.Simulated.{
  SimulatedBroker, set_last_price, set_last_price_for, if_positive, price_for, apply_slippage,
  submit_order, close_position,
}
use galactic_trading_firm.Prelude.Maps.Keys.{
  lookup-insert, lookup-insert_other, lookup-remove, remove-insert,
}

module _ {F : Type 0} ⦃f : F64 F⦄ where
  -- the answer to an order of so many shares that was filled at a price
  abbrev pub filled_at : String → TradeDirection → F → F → DateTime → Submitted (OrderFill F)
  filled_at ticker direction quantity price utc = accepted (record {
    ticker = ticker;
    direction = direction;
    quantity = quantity;
    fill_price = price;
    filled_at = utc;
  })

  -- the answers to an order and to the close of it, at one price with so many basis points of
  -- slippage: a purchase pays more than the price, a sale gets less
  abbrev pub IsRoundTrip :
      TradeDirection
      → String
      → F
      → F
      → F
      → DateTime
      → DateTime
      → Submitted (OrderFill F)
      → Submitted (OrderFill F)
      → Type 0
  IsRoundTrip long ticker quantity price bps utc utc' r1 r2 =
      (r1 ≡ filled_at ticker long quantity (price ⊕ price ⊗ bps ⊘ lit 10_000) utc)
      × (r2 ≡ filled_at ticker short quantity (price ⊖ price ⊗ bps ⊘ lit 10_000) utc')
  IsRoundTrip short ticker quantity price bps utc utc' r1 r2 =
      (r1 ≡ filled_at ticker short quantity (price ⊖ price ⊗ bps ⊘ lit 10_000) utc)
      × (r2 ≡ filled_at ticker long quantity (price ⊕ price ⊗ bps ⊘ lit 10_000) utc')

  -- An order that is submitted at a price above 0 and the close of it fill the same quantity in
  -- opposite directions, the purchase above that price and the sale below it by the slippage, and
  -- leave the broker as it was without the ticker.
  pub close_position-submit_order :
      (b : SimulatedBroker F) (ticker : String) (direction : TradeDirection) (quantity : F)
      (utc utc' : DateTime)
      → (price_for b ticker ≤? lit 0) ≡ false
      → let (b1, r1) = submit_order b ticker direction quantity utc in
        let (b2, r2) = close_position b1 ticker utc' in
        IsRoundTrip direction ticker quantity (price_for b ticker) b.slippage_bps utc utc' r1 r2
        × (b2 ≡ record b { positions = remove ticker b.positions })
  unfolding submit_order close_position price_for apply_slippage
  close_position-submit_order b ticker long quantity utc utc' h =
      rw (h, lookup-insert ticker _ b.positions)
        ((refl, refl), rw (remove-insert ticker _ b.positions))
  close_position-submit_order b ticker short quantity utc utc' h =
      rw (h, lookup-insert ticker _ b.positions)
        ((refl, refl), rw (remove-insert ticker _ b.positions))

  -- A position is closed at most once: after a close of a ticker, whether it closed anything or not,
  -- a second close reports that there is no position and changes nothing.
  pub close_position-close_position :
      (b : SimulatedBroker F) (ticker : String) (utc utc' : DateTime)
      → let b1 = (close_position b ticker utc).0 in
        close_position b1 ticker utc' ≡ (b1, failed (no_position ticker))
  unfolding close_position
  close_position-close_position b ticker utc utc' =
      elim (Option-cases (lookup ticker b.positions)) [
        | inl gone ↦ rw (gone, gone) refl
        | inr (h, held) ↦ rw (held, lookup-remove ticker b.positions) refl
      ]

  price_for-set :
      (b : SimulatedBroker F) (ticker : String) (price : F)
      → price_for (set_last_price_for b ticker price) ticker ≡ price
  unfolding price_for set_last_price_for set_last_price
  price_for-set b ticker price =
      rw (lookup-insert ticker price b.ticker_prices)
        (elim (Bool-cases (lit 0 <? price)) [ inl c ↦ rw c | inr c ↦ rw c ])

  price_for-set_other :
      (b : SimulatedBroker F) (ticker other : String) (price own : F)
      → (ticker == other) ≡ false
      → if_positive (lookup other b.ticker_prices) ≡ some own
      → price_for (set_last_price_for b ticker price) other ≡ price_for b other
  unfolding price_for set_last_price_for set_last_price
  price_for-set_other b ticker other price own h k =
      rw (lookup-insert_other ticker other price b.ticker_prices h) (rw k)

  -- a purchase pays more than the price, a sale gets less
  abbrev pub slipped : TradeDirection → F → F → F
  slipped long price bps = price ⊕ price ⊗ bps ⊘ lit 10_000
  slipped short price bps = price ⊖ price ⊗ bps ⊘ lit 10_000

  slippage_lem :
      (b : SimulatedBroker F) (price : F) (direction : TradeDirection)
      → apply_slippage b price direction ≡ slipped direction price b.slippage_bps
  unfolding apply_slippage
  slippage_lem b price long = refl
  slippage_lem b price short = refl

  -- the answer to an order at a price
  abbrev pub answered :
      Bool → String → TradeDirection → F → F → F → DateTime → Submitted (OrderFill F)
  answered true ticker direction quantity price bps utc =
      failed (order_rejected "last_price not set")
  answered false ticker direction quantity price bps utc =
      filled_at ticker direction quantity (slipped direction price bps) utc

  submit_order-answered :
      (b : SimulatedBroker F) (ticker : String) (direction : TradeDirection) (quantity : F)
      (utc : DateTime)
      → (submit_order b ticker direction quantity utc).1
        ≡ answered
            (price_for b ticker ≤? lit 0)
            ticker
            direction
            quantity
            (price_for b ticker)
            b.slippage_bps
            utc
  unfolding submit_order
  submit_order-answered b ticker direction quantity utc =
      elim (Bool-cases (price_for b ticker ≤? lit 0)) [
        | inl c ↦ rw c refl
        | inr c ↦ rw c (
            ap (λ p. filled_at ticker direction quantity p utc)
              (slippage_lem b (price_for b ticker) direction))
      ]

  -- Once a price is set for a ticker, an order for it is rejected if the price is not above 0 (the
  -- comparison that the broker makes lets NaN pass), and else filled at that price, a purchase above
  -- it and a sale below it by the slippage. An order for another ticker that has a price of its own
  -- above 0 is answered as before.
  pub submit_order-set_last_price_for :
      (b : SimulatedBroker F) (ticker other : String) (price own : F) (direction : TradeDirection)
      (quantity : F) (utc : DateTime)
      → (ticker == other) ≡ false
      → if_positive (lookup other b.ticker_prices) ≡ some own
      → let b' = set_last_price_for b ticker price in
        ((submit_order b' ticker direction quantity utc).1
          ≡ answered (price ≤? lit 0) ticker direction quantity price b.slippage_bps utc)
        × ((submit_order b' other direction quantity utc).1
            ≡ (submit_order b other direction quantity utc).1)
  unfolding set_last_price_for set_last_price
  submit_order-set_last_price_for b ticker other price own direction quantity utc h k = (
    submit_order-answered (set_last_price_for b ticker price) ticker direction quantity utc
        ∙ ap (λ p. answered (p ≤? lit 0) ticker direction quantity p b.slippage_bps utc)
            (price_for-set b ticker price),
    submit_order-answered (set_last_price_for b ticker price) other direction quantity utc
        ∙ ap (λ p. answered (p ≤? lit 0) other direction quantity p b.slippage_bps utc)
            (price_for-set_other b ticker other price own h k)
        ∙ sym (submit_order-answered b other direction quantity utc),
  )
