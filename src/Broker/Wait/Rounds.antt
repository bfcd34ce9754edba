-- ===== src/Broker/Wait/Rounds.antt =====
-- crates/data_feed/src/broker.rs: what one round of the fill wait ends with.
use native.Mathlib.Omega.{arith}
use galactic_trading_firm.Prelude.{
  ℕ, ◌≡◌, refl, Option, none, some, Bool, true, false, List, String, inl, inr, if◌then◌else◌, leb,
}
use galactic_trading_firm.F64.{F64}
use galactic_trading_firm.Time.{DateTime}
use galactic_trading_firm.Action.{TradeDirection}
use galactic_trading_firm.Engine.Position.{Fallible, ok, err}
use galactic_trading_firm.Broker.{
  OrderFill, Submitted, BrokerPosition, OrderState, filled, still_working, terminal, OrderView,
  Intent, FillWait, OrderApi, Formats, fill,
}
use galactic_trading_firm.Broker.Lookup.{
  Resolved, a_fill, continue_with, ended, not_held, unknown, lookup_by_client_id, poll_with_retries,
}
use galactic_trading_firm.Broker.Wait.{
  Waiting, Round, again, result, finalize_timeout, round_of_resolved, round_of_poll, poll, finished,
  round_unended, round_by_state, round_by_fill, round,
}
use galactic_trading_firm.Broker.Wait.Sound.{
  IsSound, Call, lookup_by_client_id-Call, poll_with_retries-Call, ResolvedBy,
  resolve_after_poll_failure-ResolvedBy,
}
use galactic_trading_firm.Broker.Wait.Backed.{Is, BackedBy, finalize_timeout-BackedBy}

module _ {F W : Type 0} ⦃f : F64 F⦄ ⦃s : Formats⦄ {api : OrderApi F W} {Reach : W → W → Type 0}
    {Seen : OrderView F → Type 0} {Held : List (BrokerPosition F) → Type 0}
    (sound : IsSound F W api Reach Seen Held) (ticker : String) (direction : TradeDirection)
    (intent : Intent) (cfg : FillWait) where
  -- what a round ends with: a result that is backed, or before the deadline, an order that the broker showed
  abbrev pub IsNext : ℕ → W → Round api ticker direction intent cfg × W → Type 0
  IsNext deadline w (result r, w') = BackedBy sound ticker direction intent cfg w r w'
  IsNext deadline w (again x, w') =
      (leb deadline (api.now w) ≡ false) × Reach (api.sleep cfg.poll_ms w) w' × Seen x.current

  finished-IsNext :
      (deadline : ℕ) (w : W) (r : Submitted (OrderFill F) × W)
      → Is sound ticker direction intent cfg w r
      → IsNext deadline w (finished api ticker direction intent cfg r)
  finished-IsNext deadline w (r, w') h = h

  round_of_resolved-IsNext :
      (deadline : ℕ) (w v : W) (x : Waiting F)
      → leb deadline (api.now w) ≡ false
      → Reach (api.sleep cfg.poll_ms w) v
      → Seen x.current
      → (r : Resolved F × W) → (Reach v r.1 × ResolvedBy sound ticker direction intent r.0)
      → IsNext deadline w (round_of_resolved api ticker direction intent cfg x r)
  round_of_resolved-IsNext deadline w v x early reach seen (a_fill y, w') (b, inl h) = inl h
  round_of_resolved-IsNext deadline w v x early reach seen (a_fill y, w') (b, inr h) = inr (inl h)
  round_of_resolved-IsNext deadline w v x early reach seen (continue_with o, w') (b, h) =
      (early, sound.reach_trans _ v w' reach b, h)
  round_of_resolved-IsNext deadline w v x early reach seen (ended status, w') (b, h) = inl h
  round_of_resolved-IsNext deadline w v x early reach seen (not_held, w') (b, h) =
      (early, sound.reach_trans _ v w' reach b, seen)
  round_of_resolved-IsNext deadline w v x early reach seen (unknown e, w') (b, h) =
      (early, sound.reach_trans _ v w' reach b, seen)

  round_of_poll-IsNext :
      (deadline : ℕ) (w v : W) (x : Waiting F)
      → leb deadline (api.now w) ≡ false
      → Reach (api.sleep cfg.poll_ms w) v
      → Seen x.current
      → (r : Fallible (OrderView F) × W) → Call sound Seen v r
      → IsNext deadline w (round_of_poll api ticker direction intent cfg x r)
  round_of_poll-IsNext deadline w v x early reach seen (ok o, w') call =
      (early, sound.reach_trans _ v w' reach call.0, call.1)
  round_of_poll-IsNext deadline w v x early reach seen (err e, w') call =
      round_of_resolved-IsNext deadline w w' x early (sound.reach_trans _ v w' reach call.0) seen _
        (resolve_after_poll_failure-ResolvedBy sound ticker direction intent x.current cfg.poll_ms
          w' seen)

  poll-Call : (x : Waiting F) (w : W) → Call sound Seen w (poll api ticker direction intent cfg x w)
  poll-Call x w = by_flag x.by_client_id
    where
      by_flag :
          (b : Bool)
          → Call sound Seen w (
              if b
              then lookup_by_client_id api x.current.client_order_id cfg.poll_ms w
              else poll_with_retries api x.current.id cfg.poll_ms w)
      by_flag true = lookup_by_client_id-Call sound x.current.client_order_id cfg.poll_ms w
      by_flag false = poll_with_retries-Call sound x.current.id cfg.poll_ms w

  round_unended-IsNext :
      (deadline : ℕ) (x : Waiting F) (w : W)
      → Seen x.current
      → x.current.state ≡ still_working
      → IsNext deadline w (round_unended api ticker direction intent cfg deadline x w)
  round_unended-IsNext deadline x w seen h = by_clock (leb deadline (api.now w)) refl
    where
      slept : W
      slept = api.sleep cfg.poll_ms w

      by_clock :
          (b : Bool)
          → leb deadline (api.now w) ≡ b
          → IsNext deadline w (
              if b
              then finished api ticker direction intent cfg
                  (finalize_timeout api ticker direction intent cfg x.current x.last_unknown w)
              else round_of_poll api ticker direction intent cfg x
                  (poll api ticker direction intent cfg x slept))
      by_clock true k = finished-IsNext deadline w _ (
          finalize_timeout-BackedBy sound ticker direction intent cfg w w x.current x.last_unknown
            (sound.reach_refl w) seen h)
      by_clock false k =
          round_of_poll-IsNext deadline w slept x k (sound.reach_refl slept) seen _
            (poll-Call x slept)

  round_by_state-IsNext :
      (deadline : ℕ) (x : Waiting F) (w : W) (utc : DateTime)
      → Seen x.current
      → fill x.current ticker direction utc ≡ none
      → (state : OrderState) → x.current.state ≡ state
      → IsNext deadline w (round_by_state api ticker direction intent cfg state deadline x w)
  unfolding fill
  round_by_state-IsNext deadline x w utc seen h (terminal status) e =
      inl (x.current, utc, seen, rw e tt, h)
  round_by_state-IsNext deadline x w utc seen h still_working e =
      round_unended-IsNext deadline x w seen e
  round_by_state-IsNext deadline x w utc seen h filled e = absurd (ground arith)

  round_by_fill-IsNext :
      (deadline : ℕ) (x : Waiting F) (w : W) (utc : DateTime)
      → Seen x.current
      → (y : Option (OrderFill F)) → fill x.current ticker direction utc ≡ y
      → IsNext deadline w (round_by_fill api ticker direction intent cfg y deadline x w)
  round_by_fill-IsNext deadline x w utc seen (some y) h = inl (x.current, utc, seen, h)
  round_by_fill-IsNext deadline x w utc seen none h =
      round_by_state-IsNext deadline x w utc seen h x.current.state refl

  pub round-IsNext :
      (deadline : ℕ) (x : Waiting F) (w : W)
      → Seen x.current
      → IsNext deadline w (round api ticker direction intent cfg deadline x w)
  unfolding round
  round-IsNext deadline x w seen = round_by_fill-IsNext deadline x w (api.utc_now w) seen _ refl
