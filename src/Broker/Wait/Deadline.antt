-- ===== src/Broker/Wait/Deadline.antt =====
-- crates/data_feed/src/broker.rs: the rounds that the fill wait takes.
use native.Mathlib.Omega.{arith}
use galactic_trading_firm.Prelude.{
  ℕ, zero, suc, ◌+◌, ◌*◌, ◌≤◌, ◌<◌, ◌≡◌, refl, Option, none, some, false, List, String, leb,
}
use galactic_trading_firm.F64.{F64}
use galactic_trading_firm.Action.{TradeDirection}
use galactic_trading_firm.Broker.{
  OrderFill, Submitted, BrokerPosition, OrderView, Intent, FillWait, OrderApi, Formats,
}
use galactic_trading_firm.Broker.Wait.{
  nanos_per_milli, Waiting, Round, again, result, continue_round, wait_loop, wait_for_fill_with,
}
use galactic_trading_firm.Broker.Wait.Sound.{IsSound}
use galactic_trading_firm.Broker.Wait.Backed.{BackedBy}
use galactic_trading_firm.Broker.Wait.Rounds.{IsNext, round-IsNext}
use galactic_trading_firm.Broker.Wait.Ends.{wait_for_fill_with-BackedBy}

leb-false : (m n : ℕ) → leb m n ≡ false → n < m
leb-false m n h = ground arith

step_lem :
    (n step now now' deadline : ℕ)
    → deadline ≤ now + suc n * step
    → now + step ≤ now'
    → deadline ≤ now' + n * step
step_lem n step now now' deadline h k = omega arith

timeout_lem :
    (fuel poll_ms timeout_ms now : ℕ)
    → timeout_ms ≤ fuel * poll_ms
    → now + timeout_ms * nanos_per_milli ≤ now + fuel * (poll_ms * nanos_per_milli)
timeout_lem fuel poll_ms timeout_ms now h = omega arith

-- The monotonic clock never runs back over the calls, and a sleep lasts as long as it was asked to.
pub record IsClock (F W : Type 0) (api : OrderApi F W) (Reach : W → W → Type 0) : Type 0 where
  pub now_le : (w w' : W) → Reach w w' → api.now w ≤ api.now w'
  pub sleep_le : (ms : ℕ) (w : W) → api.now w + ms * nanos_per_milli ≤ api.now (api.sleep ms w)

module _ {F W : Type 0} ⦃f : F64 F⦄ ⦃s : Formats⦄ {api : OrderApi F W} {Reach : W → W → Type 0}
    {Seen : OrderView F → Type 0} {Held : List (BrokerPosition F) → Type 0}
    (sound : IsSound F W api Reach Seen Held) (clock : IsClock F W api Reach) (ticker : String)
    (direction : TradeDirection) (intent : Intent) (cfg : FillWait) where
  abbrev Ended : Option (Submitted (OrderFill F) × W) → Type 0
  Ended o = (r : Submitted (OrderFill F)) × (w' : W) × (o ≡ some (r, w'))

  abbrev step : ℕ
  step = cfg.poll_ms * nanos_per_milli

  continue_round-Ended :
      (deadline : ℕ) (w : W) (loop : Waiting F → W → Option (Submitted (OrderFill F) × W))
      → (api.now w < deadline
          → (x : Waiting F) (v : W) → api.now w + step ≤ api.now v
          → Seen x.current
          → Ended (loop x v))
      → (r : Round api ticker direction intent cfg × W)
      → IsNext sound ticker direction intent cfg deadline w r
      → Ended (continue_round api ticker direction intent cfg r loop)
  continue_round-Ended deadline w loop done (result r, w') h = (r, w', refl)
  continue_round-Ended deadline w loop done (again x, w') (early, later, seen) =
      let there = clock.now_le _ w' later in
      let slept = clock.sleep_le cfg.poll_ms w in
      done (leb-false deadline (api.now w) early) x w' (omega (arith, there, slept)) seen

  wait_loop-Ended :
      (fuel deadline : ℕ) (x : Waiting F) (w : W)
      → deadline ≤ api.now w + fuel * step
      → Seen x.current
      → Ended (wait_loop api ticker direction intent cfg (suc fuel) deadline x w)
  unfolding wait_loop
  wait_loop-Ended zero deadline x w enough seen =
      continue_round-Ended deadline w _
        (λ early x' v later seen'. absurd (omega (arith, early, enough))) _
        (round-IsNext sound ticker direction intent cfg deadline x w seen)
  wait_loop-Ended (suc n) deadline x w enough seen =
      continue_round-Ended deadline w _
        (λ early x' v later seen'.
          wait_loop-Ended n deadline x' v
            (step_lem n step (api.now w) (api.now v) deadline enough later) seen')
        _ (round-IsNext sound ticker direction intent cfg deadline x w seen)

  -- The wait ends: with a clock that never runs back over the calls and a sleep that lasts as long
  -- as asked, one round more than the polls that fit in the timeout gives a result, and the result
  -- rests on the broker's answers, from an order that the broker showed.
  pub wait_for_fill_with_ends :
      (fuel : ℕ) (initial : OrderView F) (w : W)
      → cfg.timeout_ms ≤ fuel * cfg.poll_ms
      → Seen initial
      → (r : Submitted (OrderFill F)) × (w' : W) × (wait_for_fill_with api ticker direction intent
            cfg
            (suc fuel)
            initial
            w
          ≡ some (r, w'))
        × BackedBy sound ticker direction intent cfg w r w'
  unfolding wait_for_fill_with
  wait_for_fill_with_ends fuel initial w enough seen =
      let (r, w', h) =
        wait_loop-Ended fuel (api.now w + cfg.timeout_ms * nanos_per_milli)
          (record { current = initial; by_client_id = false; last_unknown = none }) w
          (timeout_lem fuel cfg.poll_ms cfg.timeout_ms (api.now w) enough) seen in
      (
        r,
        w',
        h,
        wait_for_fill_with-BackedBy sound ticker direction intent cfg (suc fuel) initial w r w' seen
            h,
      )
