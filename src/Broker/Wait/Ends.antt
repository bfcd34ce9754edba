-- ===== src/Broker/Wait/Ends.antt =====
-- crates/data_feed/src/broker.rs: the result of the fill wait.
use galactic_trading_firm.Prelude.{
  ℕ, zero, suc, ◌≡◌, inl, inr, subst, Option, none, some, false, List, String,
}
use galactic_trading_firm.F64.{F64}
use galactic_trading_firm.Action.{TradeDirection}
use galactic_trading_firm.Broker.{
  OrderFill, order_rejected, unconfirmed, working, connection_error, no_position, Submitted,
  accepted, failed, BrokerPosition, OrderView, Intent, FillWait, OrderApi, Formats,
}
use galactic_trading_firm.Broker.Wait.{
  Waiting, Round, again, result, continue_round, wait_loop, wait_for_fill_with,
}
use galactic_trading_firm.Broker.Wait.Sound.{IsSound}
use galactic_trading_firm.Broker.Wait.Backed.{Cancelled, BackedBy}
use galactic_trading_firm.Broker.Wait.Rounds.{IsNext, round-IsNext}

module _ {F W : Type 0} ⦃f : F64 F⦄ ⦃s : Formats⦄ {api : OrderApi F W} {Reach : W → W → Type 0}
    {Seen : OrderView F → Type 0} {Held : List (BrokerPosition F) → Type 0}
    (sound : IsSound F W api Reach Seen Held) (ticker : String) (direction : TradeDirection)
    (intent : Intent) (cfg : FillWait) where
  Cancelled-earlier :
      (u w w' : W)
      → Reach u w
      → Cancelled sound ticker direction intent cfg w w'
      → Cancelled sound ticker direction intent cfg u w'
  Cancelled-earlier u w w' reach (v, x, seen, h, k, early, later) =
      (v, x, seen, h, k, sound.reach_trans u w x reach early, later)

  BackedBy-earlier :
      (u w w' : W) (r : Submitted (OrderFill F))
      → Reach u w
      → BackedBy sound ticker direction intent cfg w r w'
      → BackedBy sound ticker direction intent cfg u r w'
  BackedBy-earlier u w w' (accepted x) reach (inl h) = inl h
  BackedBy-earlier u w w' (accepted x) reach (inr (inl h)) = inr (inl h)
  BackedBy-earlier u w w' (accepted x) reach (inr (inr h)) =
      inr (inr (h.0, Cancelled-earlier u w w' reach h.1))
  BackedBy-earlier u w w' (failed (order_rejected msg)) reach (inl h) = inl h
  BackedBy-earlier u w w' (failed (order_rejected msg)) reach (inr h) =
      inr (h.0, Cancelled-earlier u w w' reach h.1)
  BackedBy-earlier u w w' (failed (unconfirmed msg)) reach h =
      (h.0, Cancelled-earlier u w w' reach h.1)
  BackedBy-earlier u w w' (failed (working id)) reach (v, seen, state, same, k, later) =
      (v, seen, state, same, k, sound.reach_trans u w w' reach later)
  BackedBy-earlier u w w' (failed (connection_error msg)) reach h = h
  BackedBy-earlier u w w' (failed (no_position msg)) reach h = h

  abbrev IsDone : W → Option (Submitted (OrderFill F) × W) → Type 0
  IsDone w none = Unit
  IsDone w (some (r, w')) = BackedBy sound ticker direction intent cfg w r w'

  continue_round-IsDone :
      (deadline : ℕ) (u w : W) (loop : Waiting F → W → Option (Submitted (OrderFill F) × W))
      → Reach u w
      → ((x : Waiting F) (v : W) → Reach u v → Seen x.current → IsDone u (loop x v))
      → (r : Round api ticker direction intent cfg × W)
      → IsNext sound ticker direction intent cfg deadline w r
      → IsDone u (continue_round api ticker direction intent cfg r loop)
  continue_round-IsDone deadline u w loop reach done (result r, w') h =
      BackedBy-earlier u w w' r reach h
  continue_round-IsDone deadline u w loop reach done (again x, w') (early, later, seen) =
      done x w'
        (sound.reach_trans u w w' reach
          (sound.reach_trans w _ w' (sound.sleep_lem cfg.poll_ms w) later))
        seen

  wait_loop-IsDone :
      (fuel deadline : ℕ) (u : W) (x : Waiting F) (w : W)
      → Reach u w
      → Seen x.current
      → IsDone u (wait_loop api ticker direction intent cfg fuel deadline x w)
  unfolding wait_loop
  wait_loop-IsDone zero deadline u x w reach seen = tt
  wait_loop-IsDone (suc fuel) deadline u x w reach seen =
      continue_round-IsDone deadline u w _ reach
        (λ x' v there seen'. wait_loop-IsDone fuel deadline u x' v there seen') _
        (round-IsNext sound ticker direction intent cfg deadline x w seen)

  -- A result of the wait, from an order that the broker showed, rests on the broker's answers. An
  -- accepted fill is shown by an order or by a list of positions that the broker answered with, or,
  -- for an entry, it is a position listed after a cancel. A rejection means an order that ended
  -- without a fill, or a list that shows none, after a cancel. An order is handed back as working
  -- only when it was seen so, is not to be cancelled, and no cancel was sent at all. An unconfirmed
  -- end means an order that has neither ended nor filled or a list that could not be had, after a
  -- cancel. Where a cancel is named, one was sent, of an order seen working, and it is to be sent.
  pub wait_for_fill_with-BackedBy :
      (fuel : ℕ) (initial : OrderView F) (w : W) (r : Submitted (OrderFill F)) (w' : W)
      → Seen initial
      → wait_for_fill_with api ticker direction intent cfg fuel initial w ≡ some (r, w')
      → BackedBy sound ticker direction intent cfg w r w'
  unfolding wait_for_fill_with
  wait_for_fill_with-BackedBy fuel initial w r w' seen h = subst (IsDone w) h (
      wait_loop-IsDone fuel _ w
        (record { current = initial; by_client_id = false; last_unknown = none }) w
        (sound.reach_refl w) seen)
