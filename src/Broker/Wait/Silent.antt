-- ===== src/Broker/Wait/Silent.antt =====
-- crates/data_feed/src/broker.rs: the fill wait when no call of the broker gives an answer.
use native.Mathlib.Omega.{arith}
use galactic_trading_firm.Prelude.{ℕ, ◌≡◌, subst, sym, ap, ◌∙◌, true, some, String, inl, inr, refl}
use galactic_trading_firm.F64.{F64}
use galactic_trading_firm.Time.{DateTime}
use galactic_trading_firm.Action.{TradeDirection}
use galactic_trading_firm.Engine.Position.{Fallible, ok, err}
use galactic_trading_firm.Broker.{
  OrderFill, order_rejected, unconfirmed, working, connection_error, no_position, Submitted,
  accepted, failed, still_working, OrderView, Intent, FillWait, OrderApi, Formats, fill,
}
use galactic_trading_firm.Broker.Wait.{wait_for_fill_with}
use galactic_trading_firm.Broker.Wait.Sound.{IsSound, Answered, IsTerminal}
use galactic_trading_firm.Broker.Wait.Backed.{BackedBy}
use galactic_trading_firm.Broker.Wait.Ends.{wait_for_fill_with-BackedBy}

abbrev pub IsError : {A : Type 0} → Fallible A → Type 0
IsError (ok a) = ⊥
IsError (err e) = Unit

pub record IsSilent (F W : Type 0) (api : OrderApi F W) : Type 0 where
  pub get_order_err : (id : String) (w : W) → IsError (api.get_order id w).0
  pub get_order_by_client_id_err :
      (id : String) (w : W) → IsError (api.get_order_by_client_id id w).0
  pub positions_err : (w : W) → IsError (api.positions w).0

error-Answered : {A : Type 0} (P : A → Type 0) (r : Fallible A) → IsError r → Answered P r
error-Answered P (ok a) h = absurd h
error-Answered P (err e) h = tt

module _ {F W : Type 0} {api : OrderApi F W} where
  silent-IsSound :
      (silent : IsSilent F W api) (initial : OrderView F)
      → IsSound F W api (λ w w'. Unit) (λ v. v ≡ initial) (λ list. ⊥)
  silent-IsSound silent initial = record {
    reach_refl = λ w. tt;
    reach_trans = λ u v w h k. tt;
    get_order_lem = λ id w. (tt, error-Answered _ _ (silent.get_order_err id w));
    get_order_by_client_id_lem =
        λ id w. (tt, error-Answered _ _ (silent.get_order_by_client_id_err id w));
    positions_lem = λ w. (tt, error-Answered _ _ (silent.positions_err w));
    sleep_lem = λ ms w. tt;
  }

module _ {F W : Type 0} ⦃f : F64 F⦄ ⦃s : Formats⦄ {api : OrderApi F W} (silent : IsSilent F W api)
    (ticker : String) (direction : TradeDirection) (intent : Intent) (cfg : FillWait) where
  abbrev pub IsUndecided : String → Submitted (OrderFill F) → Type 0
  IsUndecided id (failed (working order_id)) = id ≡ order_id
  IsUndecided id (failed (unconfirmed msg)) = cfg.cancel_on_timeout ≡ true
  IsUndecided id _ = ⊥

  working_unfilled :
      (v : OrderView F) (utc : DateTime) (x : OrderFill F)
      → v.state ≡ still_working
      → fill v ticker direction utc ≡ some x
      → ⊥
  unfolding fill
  working_unfilled v utc x h e = absurd (ground arith)

  BackedBy-IsUndecided :
      (w w' : W) (initial : OrderView F) (r : Submitted (OrderFill F))
      → initial.state ≡ still_working
      → BackedBy (silent-IsSound silent initial) ticker direction intent cfg w r w'
      → IsUndecided initial.id r
  BackedBy-IsUndecided w w' initial (accepted x) h (inl (v, utc, seen, e)) =
      absurd (working_unfilled v utc x (ap (λ o. o.state) seen ∙ h) e)
  BackedBy-IsUndecided w w' initial (accepted x) h (inr (inl b)) = absurd b.3
  BackedBy-IsUndecided w w' initial (accepted x) h (inr (inr b)) = absurd b.0.3
  BackedBy-IsUndecided w w' initial (failed (order_rejected msg)) h (inl (v, utc, seen, t, e)) =
      absurd (
        subst (IsTerminal (silent-IsSound silent initial) ticker direction intent)
          (ap (λ o. o.state) seen ∙ h) t)
  BackedBy-IsUndecided w w' initial (failed (order_rejected msg)) h (inr b) = absurd b.0.3
  BackedBy-IsUndecided w w' initial (failed (unconfirmed msg)) h b = b.1.4
  BackedBy-IsUndecided w w' initial (failed (working order_id)) h (v, seen, state, same, k, b) =
      ap (λ o. o.id) (sym seen) ∙ same
  BackedBy-IsUndecided w w' initial (failed (connection_error msg)) h b = b
  BackedBy-IsUndecided w w' initial (failed (no_position msg)) h b = b

  -- When every call of the broker fails, an order that is still working when the wait begins is never
  -- taken for filled nor for unfilled: the result hands its id back as working or, where the order is
  -- to be cancelled at the timeout, says that it is unconfirmed.
  pub wait_for_fill_with-IsUndecided :
      (fuel : ℕ) (initial : OrderView F) (w : W) (r : Submitted (OrderFill F)) (w' : W)
      → initial.state ≡ still_working
      → wait_for_fill_with api ticker direction intent cfg fuel initial w ≡ some (r, w')
      → IsUndecided initial.id r
  wait_for_fill_with-IsUndecided fuel initial w r w' h e = BackedBy-IsUndecided w w' initial r h (
      wait_for_fill_with-BackedBy (silent-IsSound silent initial) ticker direction intent cfg fuel
        initial w r w' refl e)
